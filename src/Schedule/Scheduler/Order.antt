-- ===== src/Schedule/Scheduler/Order.antt =====
-- src/scheduler.cpp: what the thread's own steps do, one behind the other.
use otx.Prelude.{
  ℕ, suc, ◌+◌, ◌≤◌, ◌≡◌, refl, sym, ap, subst, ◌∙◌, ◌≢◌, inl, inr, Bool, true, false, ◌||◌, Option,
  none, some, List, [], ◌∷◌, arith, ==_iff, Bool-cases, if-cases, length, All,
}
use otx.Prelude.Sets.{has, has-remove_ne}
use otx.Schedule.Dispatcher.{set_dont_expire, Task}
use otx.Schedule.Scheduler.{
  get_cycle, execute, SchedulerTask, Scheduler, Contains, Event, Steps, here, there, added, stopped,
  took, closed, cleared, add, stop, wake, close, end, done, then_,
}
use otx.Schedule.Scheduler.Stops.{ids_of, steps-IsSound, IsSound}

-- The thread takes the tasks from the queue; nothing is added, stopped or shut down meanwhile.
abbrev pub takes : Event → Bool
takes (added i) = false
takes (stopped i) = false
takes (took t o) = true
takes closed = false
takes cleared = false

abbrev pub AllTakes : List Event → Type 0
AllTakes es = All (λ e. takes e ≡ true) es

-- The ids of the tasks that the dispatcher gets.
abbrev pub fired_ids : List Event → List ℕ
fired_ids [] = []
fired_ids (added i ∷ es) = fired_ids es
fired_ids (stopped i ∷ es) = fired_ids es
fired_ids (took t none ∷ es) = fired_ids es
fired_ids (took t (some u) ∷ es) = t.event_id ∷ fired_ids es
fired_ids (closed ∷ es) = fired_ids es
fired_ids (cleared ∷ es) = fired_ids es

-- The tasks that the dispatcher gets are in the order of their times, none before a given one, and
-- each is that of its event, without its expiration.
unfoldable pub InOrder : ℕ → List Event → Type 0
InOrder c [] = Unit {0}
InOrder c (added i ∷ es) = InOrder c es
InOrder c (stopped i ∷ es) = InOrder c es
InOrder c (took t none ∷ es) = InOrder c es
InOrder c (took t (some u) ∷ es) =
    ((c ≤ get_cycle t) × (u ≡ set_dont_expire t.task)) × InOrder (get_cycle t) es
InOrder c (closed ∷ es) = InOrder c es
InOrder c (cleared ∷ es) = InOrder c es

InOrder-weaken : (c d : ℕ) (es : List Event) → c ≤ d → InOrder d es → InOrder c es
unfolding InOrder
InOrder-weaken c d [] l h = tt
InOrder-weaken c d (added i ∷ es) l h = InOrder-weaken c d es l h
InOrder-weaken c d (stopped i ∷ es) l h = InOrder-weaken c d es l h
InOrder-weaken c d (took t none ∷ es) l h = InOrder-weaken c d es l h
InOrder-weaken c d (took t (some u) ∷ es) l h = ((omega (arith, l, h.0.0), h.0.1), h.1)
InOrder-weaken c d (closed ∷ es) l h = InOrder-weaken c d es l h
InOrder-weaken c d (cleared ∷ es) l h = InOrder-weaken c d es l h

taken-InOrder :
    (c : ℕ) (t : SchedulerTask) (o : Option Task) (es : List Event)
    → c ≤ get_cycle t
    → ((u : Task) → o ≡ some u → u ≡ set_dont_expire t.task)
    → InOrder (get_cycle t) es
    → InOrder c (took t o ∷ es)
unfolding InOrder
taken-InOrder c t none es l g h = InOrder-weaken c (get_cycle t) es l h
taken-InOrder c t (some u) es l g h = ((l, g u refl), h)

execute-task :
    (t : SchedulerTask) (rest : List SchedulerTask) (s : Scheduler) (u : Task)
    → (execute t rest s).0 ≡ some u
    → u ≡ set_dont_expire t.task
unfolding execute
execute-task t rest s u =
    if-cases (λ (r : Option Task × Scheduler). r.0 ≡ some u → u ≡ set_dont_expire t.task)
      (has t.event_id s.event_ids) _ _ (λ _ e. same (set_dont_expire t.task) u e)
      (λ _ e. absurd (none_some e))
  where
    same : (a b : Task) → some a ≡ some b → b ≡ a
    same a b e = cc

    none_some : none ≢ some u
    none_some e = cc

-- No task of the queue is due before a time.
abbrev pub AllFrom : ℕ → List SchedulerTask → Type 0
AllFrom c ts = All (λ u. c ≤ get_cycle u) ts

Contains-AllFrom :
    (c : ℕ) (t : SchedulerTask) (ts rest : List SchedulerTask)
    → Contains t ts rest
    → AllFrom c ts
    → (c ≤ get_cycle t) × AllFrom c rest
Contains-AllFrom c t ts rest here a = a
Contains-AllFrom c t ts rest (there {u = u} {ts = us} {us = vs} h) a =
    let (first, others) = Contains-AllFrom c t us vs h a.1 in (first, (a.0, others))

pub Contains-length :
    (t : SchedulerTask) (ts rest : List SchedulerTask)
    → Contains t ts rest
    → length ts ≡ suc (length rest)
Contains-length t ts rest here = refl
Contains-length t ts rest (there {u = u} {ts = us} {us = vs} h) = ap suc (Contains-length t us vs h)

pub execute-list :
    (t : SchedulerTask) (rest : List SchedulerTask) (s : Scheduler)
    → (execute t rest s).1.event_list ≡ rest
unfolding execute
execute-list t rest s = ground arith

steps-InOrder :
    (c : ℕ) (s s' : Scheduler) (es : List Event)
    → Steps s es s'
    → AllTakes es
    → AllFrom c s.event_list
    → InOrder c es
unfolding InOrder
steps-InOrder c s s' es done a h = tt
steps-InOrder c s s' es (then_ {es = es₁} (add t) rest) a h = absurd (cc (a.0))
steps-InOrder c s s' es (then_ {es = es₁} (stop id) rest) a h = absurd (cc (a.0))
steps-InOrder c s s' es (then_ {es = es₁} close rest) a h = absurd (cc (a.0))
steps-InOrder c s s' es (then_ {es = es₁} end rest) a h = absurd (cc (a.0))
steps-InOrder c s s' es (then_ {s₁ = s₁} {es = es₁} (wake t left top) rest) a h =
    taken-InOrder c t (execute t left s).0 es₁ (Contains-AllFrom c t s.event_list left top.held h).0
      (execute-task t left s)
      (steps-InOrder (get_cycle t) s₁ s' es₁ rest a.1
        (subst (AllFrom (get_cycle t)) (sym (execute-list t left s)) top.earliest))

AllFrom-zero : (ts : List SchedulerTask) → AllFrom 0 ts
AllFrom-zero [] = tt
AllFrom-zero (t ∷ ts) = (omega arith, AllFrom-zero ts)

-- An event that is active when the thread takes a task is given to the dispatcher or stays active.
taken_active :
    (x : ℕ) (t : SchedulerTask) (rest : List SchedulerTask) (s : Scheduler) (es : List Event)
    (later : Bool)
    → has x s.event_ids ≡ true
    → (has x (execute t rest s).1.event_ids ≡ true → (has x (fired_ids es) || later) ≡ true)
    → (has x (fired_ids (took t (execute t rest s).0 ∷ es)) || later) ≡ true
unfolding execute
taken_active x t rest s es later h =
    if-cases Kept (has t.event_id s.event_ids) _ _
      (λ _ k. ground (arith, h, k, ==_iff x t.event_id, has-remove_ne x t.event_id s.event_ids))
      (λ _ k. k h)
  where
    Kept : Option Task × Scheduler → Type 0
    Kept r =
        (has x r.1.event_ids ≡ true → (has x (fired_ids es) || later) ≡ true)
        → (has x (fired_ids (took t r.0 ∷ es)) || later) ≡ true

still_active :
    (x : ℕ) (s s' : Scheduler) (es : List Event)
    → Steps s es s'
    → AllTakes es
    → has x s.event_ids ≡ true
    → (has x (fired_ids es) || has x s'.event_ids) ≡ true
still_active x s s' es done a h = h
still_active x s s' es (then_ {es = es₁} (add t) rest) a h = absurd (cc (a.0))
still_active x s s' es (then_ {es = es₁} (stop id) rest) a h = absurd (cc (a.0))
still_active x s s' es (then_ {es = es₁} close rest) a h = absurd (cc (a.0))
still_active x s s' es (then_ {es = es₁} end rest) a h = absurd (cc (a.0))
still_active x s s' es (then_ {s₁ = s₁} {es = es₁} (wake t left top) rest) a h =
    taken_active x t left s es₁ (has x s'.event_ids) h (still_active x s₁ s' es₁ rest a.1)

-- While nothing is added, stopped or shut down, the thread gives the dispatcher tasks in the order of
-- their times, whichever of the earliest is at the top each time, each the task of its event without
-- its expiration, and each event that was active has been given to it or is still active.
pub fires-InOrder :
    (s s' : Scheduler) (es : List Event) (x : ℕ)
    → Steps s es s'
    → AllTakes es
    → has x s.event_ids ≡ true
    → InOrder 0 es × ((has x (fired_ids es) || has x s'.event_ids) ≡ true)
fires-InOrder s s' es x run a active =
    (steps-InOrder 0 s s' es run a (AllFrom-zero s.event_list), still_active x s s' es run a active)

drained :
    (s s' : Scheduler) (es : List Event)
    → Steps s es s'
    → AllTakes es
    → length s.event_list ≡ length es + length s'.event_list
drained s s' es done a = omega arith
drained s s' es (then_ {es = es₁} (add t) rest) a = absurd (cc (a.0))
drained s s' es (then_ {es = es₁} (stop id) rest) a = absurd (cc (a.0))
drained s s' es (then_ {es = es₁} close rest) a = absurd (cc (a.0))
drained s s' es (then_ {es = es₁} end rest) a = absurd (cc (a.0))
drained s s' es (then_ {s₁ = s₁} {es = es₁} (wake t left top) rest) a = omega (
  arith,
  Contains-length t s.event_list left top.held,
  ap length (execute-list t left s),
  drained s₁ s' es₁ rest a.1,
)

nothing_active :
    (s : Scheduler) (x : ℕ) → IsSound s → length s.event_list ≡ 0 → has x s.event_ids ≡ false
nothing_active s x h e = elim (Bool-cases (has x s.event_ids)) [
  | inl active ↦ absurd (cc (sym (h.queued x active) ∙ empty s.event_list e))
  | inr gone ↦ gone
]
  where
    empty : (ts : List SchedulerTask) → length ts ≡ 0 → has x (ids_of ts) ≡ false
    empty [] l = refl
    empty (t ∷ ts) l = absurd (omega (arith, l))

-- When the thread has taken as many tasks as were in the queue, every event that was active at
-- the start has been given to the dispatcher.
pub fires_all :
    (x : ℕ) (s s' : Scheduler) (es : List Event)
    → IsSound s
    → Steps s es s'
    → AllTakes es
    → length es ≡ length s.event_list
    → has x s.event_ids ≡ true
    → has x (fired_ids es) ≡ true
fires_all x s s' es h run a l active = ground (
  arith,
  still_active x s s' es run a active,
  nothing_active s' x (steps-IsSound s s' es run h) (omega (arith, drained s s' es run a, l)),
)
