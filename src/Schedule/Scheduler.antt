-- ===== src/Schedule/Scheduler.antt =====
-- `SchedulerTask` and `Scheduler` of src/scheduler.cpp and src/scheduler.h. What is done under the
-- lock is one step; `shutdown` sets the state before it takes the lock and is two. The priority queue is the bag of its tasks: which of the earliest it
-- has at its top is left open. The set of active events is a list without repetition.
pub mod Ids
pub mod Stops
pub mod Order
pub mod Completes
use otx.Prelude.{
  ℕ, ◌+◌, ◌%◌, ◌^◌, ◌≤◌, Bool, true, false, Option, none, some, List, [], ◌∷◌, ◌==◌, if◌then◌else◌,
  All,
}
use otx.Prelude.Sets.{has, remove}
use otx.Schedule.Dispatcher.{
  create_expiring, set_dont_expire, is_running, ThreadState, Action, Task, terminated,
}

pub record SchedulerTask : Type 0 where
  pub event_id : ℕ
  pub task : Task

-- `getCycle`.
abbrev pub get_cycle : SchedulerTask → ℕ
get_cycle t = t.task.expiration

-- `createSchedulerTask`.
abbrev pub create_scheduler_task : ℕ → ℕ → Action → SchedulerTask
create_scheduler_task now delay f = record { event_id = 0; task = create_expiring now delay f }

pub record Scheduler : Type 0 where
  pub state : ThreadState
  pub last_event_id : ℕ
  pub event_list : List SchedulerTask
  pub event_ids : List ℕ

abbrev pub next_event_id : ℕ → ℕ
next_event_id last = let n = (last + 1) % 2 ^ 32 in if n == 0 then 1 else n

-- `eventIds.insert`.
abbrev pub insert : ℕ → List ℕ → List ℕ
insert x xs = if has x xs then xs else x ∷ xs

-- The part of `addEvent` behind the choice of an id.
abbrev pub enlist : SchedulerTask → Scheduler → ℕ × Scheduler
enlist t s = (
  t.event_id,
  record s { event_list = t ∷ s.event_list; event_ids = insert t.event_id s.event_ids },
)

unfoldable pub add_event : SchedulerTask → Scheduler → ℕ × Scheduler
add_event t s =
    if is_running s.state
    then (if t.event_id == 0
        then (let id = next_event_id s.last_event_id in
            enlist (record t { event_id = id }) (record s { last_event_id = id }))
        else enlist t s)
    else (0, s)

unfoldable pub stop_event : ℕ → Scheduler → Bool × Scheduler
stop_event id s =
    if id == 0
    then (false, s)
    else if has id s.event_ids
    then (true, record s { event_ids = remove id s.event_ids })
    else (false, s)

-- `shutdown`: what it does before it holds the lock, and then.
unfoldable pub set_terminated : Scheduler → Scheduler
set_terminated s = record s { state = terminated }

unfoldable pub clear : Scheduler → Scheduler
clear s = record s { event_list = []; event_ids = [] }

-- A list is another one with a task put in somewhere.
pub data Contains (t : SchedulerTask) : List SchedulerTask → List SchedulerTask → Type 0 where
  here : {ts : List SchedulerTask} → Contains t (t ∷ ts) ts
  there :
      {u : SchedulerTask} {ts us : List SchedulerTask}
      → Contains t ts us
      → Contains t (u ∷ ts) (u ∷ us)

-- The priority queue with its top, a task that no other comes before, and without it.
pub record IsTop (t : SchedulerTask) (ts rest : List SchedulerTask) : Type 0 where
  pub held : Contains t ts rest
  pub earliest : All (λ u. get_cycle t ≤ get_cycle u) rest

-- What `threadMain` does when the top task's time has come: the task for the dispatcher, if its
-- event was not stopped, and the state behind.
unfoldable pub execute : SchedulerTask → List SchedulerTask → Scheduler → Option Task × Scheduler
execute t rest s =
    let popped = record s { event_list = rest } in
    if has t.event_id s.event_ids
    then (
      some (set_dont_expire t.task),
      record popped { event_ids = remove t.event_id s.event_ids },
    )
    else (none, popped)

-- The steps of the scheduler, with the ids it hands out, and each task that the thread takes from the
-- queue with what it gives the dispatcher.
pub data Event : Type 0 where
  added : ℕ → Event
  stopped : ℕ → Event
  took : SchedulerTask → Option Task → Event
  closed : Event
  cleared : Event

-- The thread has tested the state before it waits, so it may take a task after `set_terminated` as well.
pub data Step (s : Scheduler) : Event → Scheduler → Type 0 where
  add : (t : SchedulerTask) → Step s (added (add_event t s).0) (add_event t s).1
  stop : (id : ℕ) → Step s (stopped id) (stop_event id s).1
  wake :
      (t : SchedulerTask) (rest : List SchedulerTask)
      → IsTop t s.event_list rest
      → Step s (took t (execute t rest s).0) (execute t rest s).1
  close : Step s closed (set_terminated s)
  end : Step s cleared (clear s)

pub data Steps : Scheduler → List Event → Scheduler → Type 0 where
  done : {s : Scheduler} → Steps s [] s
  then_ :
      {s s₁ s₂ : Scheduler} {e : Event} {es : List Event}
      → Step s e s₁
      → Steps s₁ es s₂
      → Steps s (e ∷ es) s₂
