-- ===== src/Schedule/Dispatcher/Arrivals.antt =====
-- src/tasks.cpp: the tasks that are added between the turns of the dispatcher's thread.
use otx.Prelude.{
  ℕ, zero, suc, ◌+◌, ◌≤◌, ◌≡◌, refl, Bool, true, false, List, [], ◌∷◌, ◌++◌, append_assoc, arith,
  ◌==◌, if◌then◌else◌, if-both, length, All,
}
use otx.Schedule.Dispatcher.{
  create_task, is_terminated, add_task, add_tasks, thread_main, ThreadState, Action, Task,
  Dispatcher, running, closing, terminated, call, terminate,
}

-- The actions of the tasks that never expire.
abbrev pub lasting : List Task → List Action
lasting [] = []
lasting (t ∷ ts) = let rest = lasting ts in if t.expiration == 0 then t.action ∷ rest else rest

abbrev pub is_call : Action → Bool
is_call (call f) = true
is_call terminate = false

abbrev pub AllCalls : List Task → Type 0
AllCalls ts = All (λ t. is_call t.action ≡ true) ts

-- Only `shutdown` makes a task that ends the thread.
abbrev pub CallsArrive : (ℕ → List (Task × Bool)) → Type 0
CallsArrive arrivals = (i : ℕ) → All (λ u. is_call u.0.action ≡ true) (arrivals i)

-- How many tasks are added at the front, at one turn and in so many turns.
abbrev pub fronts : List (Task × Bool) → ℕ
fronts [] = 0
fronts ((t, push_front) ∷ us) = let rest = fronts us in if push_front then suc rest else rest

abbrev pub front_count : ℕ → (ℕ → List (Task × Bool)) → ℕ
front_count zero arrivals = 0
front_count (suc n) arrivals = fronts (arrivals 0) + front_count n (λ i. arrivals (suc i))

-- The actions of one list are those of another with more between them.
pub data IsWithin : List Action → List Action → Type 0 where
  empty : {bs : List Action} → IsWithin [] bs
  both : {a : Action} {as₁ bs : List Action} → IsWithin as₁ bs → IsWithin (a ∷ as₁) (a ∷ bs)
  more : {b : Action} {as₁ bs : List Action} → IsWithin as₁ bs → IsWithin as₁ (b ∷ bs)

pub IsWithin-refl : (ks : List Action) → IsWithin ks ks
IsWithin-refl [] = empty
IsWithin-refl (a ∷ ks) = both (IsWithin-refl ks)

pub IsWithin-trans : (ks ls ms : List Action) → IsWithin ks ls → IsWithin ls ms → IsWithin ks ms
IsWithin-trans ks ls ms empty w = empty
IsWithin-trans ks ls ms (both {as₁ = ks₁} {bs = ls₁} v) (both {bs = ms₁} w) =
    both (IsWithin-trans ks₁ ls₁ ms₁ v w)
IsWithin-trans ks ls ms (both v) (more {bs = ms₁} w) = more (IsWithin-trans ks ls ms₁ (both v) w)
IsWithin-trans ks ls ms (more v) (more {bs = ms₁} w) = more (IsWithin-trans ks ls ms₁ (more v) w)
IsWithin-trans ks ls ms (more {bs = ls₁} v) (both {bs = ms₁} w) =
    more (IsWithin-trans ks ls₁ ms₁ v w)

pub over :
    (fuel : ℕ) (clock : ℕ → ℕ) (arrivals : ℕ → List (Task × Bool)) (d : Dispatcher)
    → is_terminated d.state ≡ true
    → thread_main fuel clock arrivals d ≡ ([], d)
unfolding thread_main
over zero clock arrivals d h = refl
over (suc fuel) clock arrivals d h = rw (h) refl

-- The thread is terminated; the last action it called is the one that ends it, before that it
-- called only others, and given ones among them in their order.
pub record Ends (waiting : List Action) (r : List Action × Dispatcher) : Type 0 where
  pub is_over : r.1.state ≡ terminated
  pub before : List Action
  pub last_called : r.0 ≡ before ++ terminate ∷ []
  pub calls : All (λ a. is_call a ≡ true) before
  pub all_called : IsWithin waiting before

-- The dispatcher with the task that ends it between others.
abbrev pub waiting_at : ThreadState → ℕ → List Task → List Task → Dispatcher
waiting_at s cycle ts later = record {
  state = s;
  task_list = ts ++ create_task terminate ∷ later;
  dispatcher_cycle = cycle;
}

-- What additions make of it.
pub record Added (us : List (Task × Bool)) (s : ThreadState) (cycle : ℕ) (ts later : List Task)
    : Type 0 where
  pub earlier : List Task
  pub behind : List Task
  pub is : add_tasks us (waiting_at s cycle ts later) ≡ waiting_at s cycle earlier behind
  pub at_most : length earlier ≤ length ts + fronts us
  pub calls : AllCalls earlier
  pub within : IsWithin (lasting ts) (lasting earlier)

pub lasting-more : (t : Task) (ts : List Task) → IsWithin (lasting ts) (lasting (t ∷ ts))
lasting-more t ts =
    if-both (IsWithin (lasting ts)) (t.expiration == 0) _ _ (more (IsWithin-refl (lasting ts)))
      (IsWithin-refl (lasting ts))

pub add_tasks-Added :
    (us : List (Task × Bool)) (s : ThreadState) (cycle : ℕ) (ts later : List Task)
    → All (λ u. is_call u.0.action ≡ true) us
    → AllCalls ts
    → Added us s cycle ts later
unfolding add_task
add_tasks-Added [] s cycle ts later u h = record {
  earlier = ts;
  behind = later;
  is = refl;
  at_most = omega arith;
  calls = h;
  within = IsWithin-refl (lasting ts);
}
add_tasks-Added ((t, true) ∷ us) running cycle ts later u h =
    let a = add_tasks-Added us running cycle (t ∷ ts) later u.1 (u.0, h) in
    record {
      earlier = a.earlier;
      behind = a.behind;
      is = a.is;
      at_most = omega (arith, a.at_most);
      calls = a.calls;
      within =
          IsWithin-trans (lasting ts) (lasting (t ∷ ts)) (lasting a.earlier) (lasting-more t ts)
            a.within;
    }
add_tasks-Added ((t, false) ∷ us) running cycle ts later u h =
    let a = add_tasks-Added us running cycle ts (later ++ t ∷ []) u.1 h in
    record {
      earlier = a.earlier;
      behind = a.behind;
      is = rw (append_assoc ts (create_task terminate ∷ later) (t ∷ [])) a.is;
      at_most = omega (arith, a.at_most);
      calls = a.calls;
      within = a.within;
    }
add_tasks-Added ((t, front) ∷ us) closing cycle ts later u h =
    let a = add_tasks-Added us closing cycle ts later u.1 h in
    record {
      earlier = a.earlier;
      behind = a.behind;
      is = a.is;
      at_most =
          if-both (λ n. length a.earlier ≤ length ts + n) front _ _ (omega (arith, a.at_most))
            a.at_most;
      calls = a.calls;
      within = a.within;
    }
add_tasks-Added ((t, front) ∷ us) terminated cycle ts later u h =
    let a = add_tasks-Added us terminated cycle ts later u.1 h in
    record {
      earlier = a.earlier;
      behind = a.behind;
      is = a.is;
      at_most =
          if-both (λ n. length a.earlier ≤ length ts + n) front _ _ (omega (arith, a.at_most))
            a.at_most;
      calls = a.calls;
      within = a.within;
    }
