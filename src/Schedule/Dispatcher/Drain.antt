-- ===== src/Schedule/Dispatcher/Drain.antt =====
-- src/tasks.cpp: what the dispatcher's thread runs, and when it ends.
use otx.Prelude.{
  ℕ, zero, suc, ◌+◌, ◌%◌, ◌^◌, ◌≤◌, ◌<◌, ◌≡◌, refl, sym, ap, subst, Bool, true, false, Option, List,
  [], ◌∷◌, ◌++◌, arith, ◌==◌, if-both, if-cases, length,
}
use otx.Schedule.Dispatcher.{
  create_task, has_expired, is_terminated, shutdown, called, turn, noted, add_tasks, thread_main,
  ThreadState, Action, Task, Dispatcher, terminated, call, terminate,
}
use otx.Schedule.Dispatcher.Arrivals.{
  lasting, is_call, AllCalls, CallsArrive, fronts, front_count, IsWithin-trans, over, waiting_at,
  add_tasks-Added, IsWithin, Ends, Added, both, more,
}

-- A turn and the turns behind it.
next_turn :
    (fuel : ℕ) (clock : ℕ → ℕ) (arrivals : ℕ → List (Task × Bool)) (d e : Dispatcher)
    → is_terminated d.state ≡ false
    → add_tasks (arrivals 0) d ≡ e
    → thread_main (suc fuel) clock arrivals d ≡ (
        let r = turn (clock 0) e in
        let rest = thread_main fuel (λ i. clock (suc i)) (λ i. arrivals (suc i)) r.1 in
        (noted r.0 rest.0, rest.1))
unfolding thread_main
next_turn fuel clock arrivals d e h q = rw (h, q) refl

called_call : (a : Action) (s : ThreadState) → is_call a ≡ true → called a s ≡ s
called_call (call f) s h = refl
called_call terminate s h = cc

-- An expired task does not count among those that never expire.
lasting-expired :
    (now : ℕ) (t : Task) (ts : List Task) → has_expired now t ≡ true → lasting (t ∷ ts) ≡ lasting ts
lasting-expired now t ts h =
    if-cases (λ ks. ks ≡ lasting ts) (t.expiration == 0) _ (lasting ts) (λ e. absurd (clash e))
      (λ _. refl)
  where
    clash : (t.expiration == 0) ≡ true → ⊥
    clash e = ground (arith, e, h)

lasting-called :
    (t : Task) (ts : List Task) (ks : List Action)
    → IsWithin (lasting ts) ks
    → IsWithin (lasting (t ∷ ts)) (t.action ∷ ks)
lasting-called t ts ks w =
    if-both (λ js. IsWithin js (t.action ∷ ks)) (t.expiration == 0) _ _ (both w) (more w)

thread_main-Ends :
    (fuel : ℕ) (clock : ℕ → ℕ) (arrivals : ℕ → List (Task × Bool)) (s : ThreadState) (cycle : ℕ)
    (ts later : List Task)
    → is_terminated s ≡ false
    → AllCalls ts
    → CallsArrive arrivals
    → length ts + front_count fuel arrivals < fuel
    → Ends (lasting ts) (thread_main fuel clock arrivals (waiting_at s cycle ts later))
unfolding turn
thread_main-Ends zero clock arrivals s cycle ts later r h c f = absurd (omega (arith, f))
thread_main-Ends (suc fuel) clock arrivals s cycle ts later r h c f =
    subst (Ends (lasting ts)) (sym (next_turn fuel clock arrivals _ _ r a.is)) (
      served a.earlier a.at_most a.calls a.within (λ us n b k.
        thread_main-Ends fuel (λ i. clock (suc i)) (λ i. arrivals (suc i)) s n us b r k
          (λ i. c (suc i))))
  where
    a : Added (arrivals 0) s cycle ts later
    a = add_tasks-Added (arrivals 0) s cycle ts later (c 0) h

    next : Dispatcher → List Action × Dispatcher
    next d = thread_main fuel (λ i. clock (suc i)) (λ i. arrivals (suc i)) d

    after : Option Action × Dispatcher → List Action × Dispatcher
    after r = (noted r.0 (next r.1).0, (next r.1).1)

    served :
        (us : List Task)
        → length us ≤ length ts + fronts (arrivals 0)
        → AllCalls us
        → IsWithin (lasting ts) (lasting us)
        → ((vs : List Task) (n : ℕ) (b : List Task)
            → AllCalls vs
            → length vs + front_count fuel (λ i. arrivals (suc i)) < fuel
            → Ends (lasting vs) (next (waiting_at s n vs b)))
        → Ends (lasting ts) (after (turn (clock 0) (waiting_at s cycle us a.behind)))
    served [] l k w go =
        subst (λ x. Ends (lasting ts) (terminate ∷ x.0, x.1))
          (sym (over fuel (λ i. clock (suc i)) (λ i. arrivals (suc i)) ended refl))
          (record { is_over = refl; before = []; last_called = refl; calls = tt; all_called = w })
      where
        ended : Dispatcher
        ended = record {
          state = terminated;
          task_list = a.behind;
          dispatcher_cycle = (cycle + 1) % 2 ^ 64;
        }
    served (t ∷ us) l k w go =
        if-cases (λ x. Ends (lasting ts) (after x)) (has_expired (clock 0) t) _ _
          (λ e. dropped e (go us cycle a.behind k.1 (omega (arith, l, f))))
          (λ _.
            subst (λ z. Ends (lasting ts) (t.action ∷ (next (at z)).0, (next (at z)).1))
              (sym (called_call t.action s k.0))
              (ran (go us ((cycle + 1) % 2 ^ 64) a.behind k.1 (omega (arith, l, f)))))
      where
        at : ThreadState → Dispatcher
        at z = record {
          state = z;
          task_list = us ++ create_task terminate ∷ a.behind;
          dispatcher_cycle = (cycle + 1) % 2 ^ 64;
        }

        dropped :
            has_expired (clock 0) t ≡ true
            → Ends (lasting us) (next (waiting_at s cycle us a.behind))
            → Ends (lasting ts) (next (waiting_at s cycle us a.behind))
        dropped e x = record {
          is_over = x.is_over;
          before = x.before;
          last_called = x.last_called;
          calls = x.calls;
          all_called =
              IsWithin-trans (lasting ts) (lasting us) x.before
                (subst (IsWithin (lasting ts)) (lasting-expired (clock 0) t us e) w) x.all_called;
        }

        ran :
            Ends (lasting us) (next (at s))
            → Ends (lasting ts) (t.action ∷ (next (at s)).0, (next (at s)).1)
        ran x = record {
          is_over = x.is_over;
          before = t.action ∷ x.before;
          last_called = ap (◌∷◌ t.action) x.last_called;
          calls = (k.0, x.calls);
          all_called =
              IsWithin-trans (lasting ts) (lasting (t ∷ us)) (t.action ∷ x.before) w
                (lasting-called t us x.before x.all_called);
        }

-- After `shutdown` of a thread that is not terminated it ends, whatever is added meanwhile in front
-- or behind, where no waiting or added task is one that ends the thread: the task of `shutdown` is
-- the last it calls, and before it, in their order, it has called all tasks without an expiration
-- that waited. More turns than tasks waited and are added in front in so many turns are enough.
pub shutdown-Ends :
    (d : Dispatcher) (fuel : ℕ) (clock : ℕ → ℕ) (arrivals : ℕ → List (Task × Bool))
    → is_terminated d.state ≡ false
    → AllCalls d.task_list
    → CallsArrive arrivals
    → length d.task_list + front_count fuel arrivals < fuel
    → Ends (lasting d.task_list) (thread_main fuel clock arrivals (shutdown d))
unfolding shutdown
shutdown-Ends d fuel clock arrivals r h c f =
    thread_main-Ends fuel clock arrivals d.state d.dispatcher_cycle d.task_list [] r h c f
