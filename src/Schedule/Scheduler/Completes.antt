-- ===== src/Schedule/Scheduler/Completes.antt =====
-- src/scheduler.cpp: the thread can always go on until the queue is empty.

use otx.Prelude.{
  ℕ, zero, suc, ◌≤◌, ◌≡◌, refl, sym, ap, subst, ◌∙◌, inl, inr, true, false, List, [], ◌∷◌, arith,
  leb, leb→le, Bool-cases, length,
}
use otx.Prelude.Sets.{has}
use otx.Schedule.Dispatcher.{is_terminated}
use otx.Schedule.Scheduler.{
  get_cycle, execute, SchedulerTask, Scheduler, Contains, IsTop, Event, Steps, here, there, took,
  wake, done, then_,
}
use otx.Schedule.Scheduler.Stops.{IsSound}
use otx.Schedule.Scheduler.Order.{
  AllTakes, fired_ids, AllFrom, Contains-length, execute-list, fires_all,
}

AllFrom-weaken : (c d : ℕ) (ts : List SchedulerTask) → c ≤ d → AllFrom d ts → AllFrom c ts
AllFrom-weaken c d [] l h = tt
AllFrom-weaken c d (t ∷ ts) l h = (omega (arith, h.0), AllFrom-weaken c d ts l h.1)

IsTop-skip :
    (t u : SchedulerTask) (ts rest : List SchedulerTask)
    → get_cycle u ≤ get_cycle t
    → IsTop u ts rest
    → IsTop u (t ∷ ts) (t ∷ rest)
IsTop-skip t u ts rest l h = record { held = there h.held; earliest = (l, h.earliest) }

Contains-AllFrom_back :
    (c : ℕ) (t : SchedulerTask) (ts rest : List SchedulerTask)
    → Contains t ts rest
    → c ≤ get_cycle t
    → AllFrom c rest
    → AllFrom c ts
Contains-AllFrom_back c t ts rest here l a = (l, a)
Contains-AllFrom_back c t ts rest (there {u = u} {ts = us} {us = vs} h) l a =
    (a.0, Contains-AllFrom_back c t us vs h l a.1)

IsTop-first :
    (t u : SchedulerTask) (ts rest : List SchedulerTask)
    → get_cycle t ≤ get_cycle u
    → IsTop u ts rest
    → IsTop t (t ∷ ts) ts
IsTop-first t u ts rest l h = record {
  held = here;
  earliest =
      Contains-AllFrom_back (get_cycle t) u ts rest h.held l
        (AllFrom-weaken (get_cycle t) (get_cycle u) rest l h.earliest);
}

-- A queue that is not empty has a top.
IsTop-exists :
    (t : SchedulerTask) (ts : List SchedulerTask)
    → (u : SchedulerTask) × (rest : List SchedulerTask) × IsTop u (t ∷ ts) rest
IsTop-exists t [] = (t, [], record { held = here; earliest = tt })
IsTop-exists t (v ∷ ts) =
    let (u, rest, h) = IsTop-exists v ts in
    elim (Bool-cases (leb (get_cycle t) (get_cycle u))) [
      | inl before ↦
          (t, v ∷ ts, IsTop-first t u (v ∷ ts) rest (leb→le (get_cycle t) (get_cycle u) before) h)
      | inr after ↦ (u, t ∷ rest, IsTop-skip t u (v ∷ ts) rest (ground arith) h)
    ]

-- A run of the thread alone from a state, as long as the queue and with a state that lets the loop
-- go on.
pub record Completes (s : Scheduler) : Type 0 where
  pub events : List Event
  pub last : Scheduler
  pub run : Steps s events last
  pub alone : AllTakes events
  pub awake : is_terminated last.state ≡ false
  pub as_long : length events ≡ length s.event_list

execute-state :
    (t : SchedulerTask) (rest : List SchedulerTask) (s : Scheduler)
    → (execute t rest s).1.state ≡ s.state
unfolding execute
execute-state t rest s = ground arith

take_step :
    (t : SchedulerTask) (rest : List SchedulerTask) (s : Scheduler)
    → IsTop t s.event_list rest
    → Completes (execute t rest s).1
    → Completes s
take_step t rest s top c = record {
  events = took t (execute t rest s).0 ∷ c.events;
  last = c.last;
  run = then_ (wake t rest top) c.run;
  alone = (refl, c.alone);
  awake = c.awake;
  as_long = omega (
    arith,
    c.as_long,
    ap length (execute-list t rest s),
    Contains-length t s.event_list rest top.held,
  );
}

complete :
    (n : ℕ) (s : Scheduler) (ts : List SchedulerTask)
    → s.event_list ≡ ts
    → length ts ≡ n
    → is_terminated s.state ≡ false
    → Completes s
complete n s [] e l r = record {
  events = [];
  last = s;
  run = done;
  alone = tt;
  awake = r;
  as_long = sym (ap length e);
}
complete zero s (t ∷ ts) e l r = absurd (omega (arith, l))
complete (suc n) s (t ∷ ts) e l r =
    let (u, rest, top) = IsTop-exists t ts in
    let s-top : IsTop u s.event_list rest = subst (λ l. IsTop u l rest) (sym e) top in
    take_step u rest s s-top (
      complete n (execute u rest s).1 rest (execute-list u rest s)
        (omega (arith, l, Contains-length u (t ∷ ts) rest top.held))
        (ap is_terminated (execute-state u rest s) ∙ r))

-- The thread of a scheduler in a sound state that is not terminated can take every task of its
-- queue, its loop's condition holding to the end, and then it has given the dispatcher a task of
-- every event that was active.
pub complete_fires :
    (s : Scheduler)
    → IsSound s
    → is_terminated s.state ≡ false
    → (c : Completes s) × ((x : ℕ) → has x s.event_ids ≡ true → has x (fired_ids c.events) ≡ true)
complete_fires s h r =
    let c : Completes s = complete (length s.event_list) s s.event_list refl refl r in
    (c, λ x active. fires_all x s c.last c.events h c.run c.alone c.as_long active)
