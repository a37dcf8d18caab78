-- ===== src/Schedule/Dispatcher.antt =====
-- `Task` and `Dispatcher` of src/tasks.cpp and src/tasks.h, with the state of
-- src/thread_holder_base.h. The condition variable only wakes the thread; the lock makes each
-- operation one step, and between two turns others may add tasks. What a task does is its number; the clock is an argument.
pub mod Arrivals
pub mod Drain
use otx.Prelude.{
  ℕ, zero, suc, ◌+◌, ◌%◌, ◌^◌, Bool, true, false, Option, none, some, List, [], ◌∷◌, ◌++◌, ltb,
  ◌==◌, if◌then◌else◌,
}

pub data ThreadState : Type 0 where
  running closing terminated : ThreadState

-- The function of a task: one of the game's, or the one that `shutdown` makes.
pub data Action : Type 0 where
  call : ℕ → Action
  terminate : Action

pub record Task : Type 0 where
  pub expiration : ℕ
  pub action : Action

pub record Dispatcher : Type 0 where
  pub state : ThreadState
  pub task_list : List Task
  pub dispatcher_cycle : ℕ

-- `createTask(f)`, and `createTask(ms, f)` at a time.
abbrev pub create_task : Action → Task
create_task f = record { expiration = 0; action = f }

abbrev pub create_expiring : ℕ → ℕ → Action → Task
create_expiring now ms f = record { expiration = now + ms; action = f }

abbrev pub set_dont_expire : Task → Task
set_dont_expire t = record t { expiration = 0 }

abbrev pub has_expired : ℕ → Task → Bool
has_expired now t = if t.expiration == 0 then false else ltb t.expiration now

abbrev pub is_running : ThreadState → Bool
is_running running = true
is_running closing = false
is_running terminated = false

abbrev pub is_terminated : ThreadState → Bool
is_terminated running = false
is_terminated closing = false
is_terminated terminated = true

-- `ThreadHolder::start` and `stop`.
abbrev pub start : Dispatcher → Dispatcher
start d = record d { state = running }

abbrev pub stop : Dispatcher → Dispatcher
stop d = record d { state = closing }

unfoldable pub add_task : Task → Bool → Dispatcher → Dispatcher
add_task t push_front d =
    if is_running d.state
    then record d { task_list = if push_front then t ∷ d.task_list else d.task_list ++ t ∷ [] }
    else d

unfoldable pub shutdown : Dispatcher → Dispatcher
shutdown d = record d { task_list = d.task_list ++ create_task terminate ∷ [] }

-- The state behind the call of an action.
abbrev pub called : Action → ThreadState → ThreadState
called (call f) s = s
called terminate s = terminated

-- One turn of the loop of `threadMain`: what is called, if anything, and the state behind it.
unfoldable pub turn : ℕ → Dispatcher → Option Action × Dispatcher
turn now d = elim d.task_list [
  | [] ↦ (none, d)
  | (t ∷ ts) ↦ if has_expired now t then (none, record d { task_list = ts }) else (
    some t.action,
    record {
      state = called t.action d.state;
      task_list = ts;
      dispatcher_cycle = (d.dispatcher_cycle + 1) % 2 ^ 64;
    },
  )
]

abbrev pub noted : Option Action → List Action → List Action
noted none rest = rest
noted (some a) rest = a ∷ rest

-- What is added while the lock is free, by other threads or by the task that is called, each with
-- whether it goes to the front.
abbrev pub add_tasks : List (Task × Bool) → Dispatcher → Dispatcher
add_tasks [] d = d
add_tasks ((t, push_front) ∷ us) d = add_tasks us (add_task t push_front d)

-- Turns of `threadMain` until the thread is terminated, with the clock and what was added at each:
-- the actions called, in order.
unfoldable pub thread_main :
    ℕ → (ℕ → ℕ) → (ℕ → List (Task × Bool)) → Dispatcher → List Action × Dispatcher
thread_main zero clock arrivals d = ([], d)
thread_main (suc fuel) clock arrivals d =
    let (ran, d₁) = turn (clock 0) (add_tasks (arrivals 0) d) in
    let (rest, d₂) = thread_main fuel (λ i. clock (suc i)) (λ i. arrivals (suc i)) d₁ in
    if is_terminated d.state then ([], d) else (noted ran rest, d₂)
