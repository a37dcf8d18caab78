-- ===== src/Schedule/Tests.antt =====
-- Runs of the two threads, and the theorems on them at concrete states.

use otx.Prelude.{
  ℕ, zero, suc, ◌+◌, ◌*◌, ◌<◌, ◌≡◌, refl, Bool, true, false, ◌||◌, some, List, [], ◌∷◌, arith,
  length,
}
use otx.Prelude.Sets.{has, IsDistinct}
use otx.Schedule.Dispatcher.{
  create_task, create_expiring, add_task, shutdown, turn, thread_main, Task, Dispatcher, running,
  call, terminate,
}
use otx.Schedule.Dispatcher.Drain.{shutdown-Ends}
use otx.Schedule.Dispatcher.Arrivals.{front_count, CallsArrive, Ends}
use otx.Schedule.Scheduler.{
  add_event, execute, SchedulerTask, Scheduler, Event, Steps, here, there, took, wake, done, then_,
}
use otx.Schedule.Scheduler.Ids.{add_all, Follows, add_all-IsDistinct}
use otx.Schedule.Scheduler.Stops.{steps-IsSound, IsSound}
use otx.Schedule.Scheduler.Order.{fired_ids, InOrder, fires-InOrder}
use otx.Schedule.Scheduler.Completes.{complete_fires, Completes}

abbrev jobs : Dispatcher
jobs = record {
  state = running;
  task_list =
      create_task (call 1)
      ∷ create_expiring 100 50 (call 2)
      ∷ create_expiring 100 900 (call 3)
      ∷ [];
  dispatcher_cycle = 0;
}

abbrev clock : ℕ → ℕ
clock i = 140 + 20 * i

-- At the first turn one task comes behind and one in front.
abbrev arrivals : ℕ → List (Task × Bool)
arrivals zero = (create_task (call 4), false) ∷ (create_task (call 5), true) ∷ []
arrivals (suc i) = []

jobs_run :
    (thread_main 9 clock arrivals (shutdown jobs)).0 ≡ call 5 ∷ call 1 ∷ call 3 ∷ terminate ∷ []
unfolding thread_main turn shutdown add_task
jobs_run = refl

few_fronts : length jobs.task_list + front_count 9 arrivals < 9
few_fronts = omega arith

arrivals-CallsArrive : CallsArrive arrivals
arrivals-CallsArrive zero = (refl, (refl, tt))
arrivals-CallsArrive (suc i) = tt

shutdown-Ends_example : Ends (call 1 ∷ []) (thread_main 9 clock arrivals (shutdown jobs))
shutdown-Ends_example =
    shutdown-Ends jobs 9 clock arrivals refl (refl, (refl, (refl, tt))) arrivals-CallsArrive
      few_fronts

-- Three events, the second stopped, the third due first.
abbrev work : List SchedulerTask
work =
    record { event_id = 1; task = create_expiring 0 300 (call 7) }
    ∷ record { event_id = 2; task = create_expiring 0 200 (call 8) }
    ∷ record { event_id = 3; task = create_expiring 0 100 (call 9) }
    ∷ []

abbrev busy : Scheduler
busy = record { state = running; last_event_id = 3; event_list = work; event_ids = 1 ∷ 3 ∷ [] }

busy-IsSound : IsSound busy
busy-IsSound = record { distinct = (refl, (refl, tt)); queued = λ x m. ground arith }

abbrev fresh : Scheduler
fresh = record { state = running; last_event_id = 0xFFFFFFFE; event_list = []; event_ids = [] }

abbrev tasks : List Task
tasks = create_task (call 1) ∷ create_task (call 2) ∷ []

-- The counter starts again at 1.
fresh_ids : (add_all tasks fresh).0 ≡ 0xFFFFFFFF ∷ 1 ∷ []
unfolding add_all add_event
fresh_ids = refl

add_all-IsDistinct_example :
    IsDistinct (add_all tasks fresh).0
    × ((has 0 (add_all tasks fresh).0 ≡ false) × Follows 0xFFFFFFFE (add_all tasks fresh).0)
add_all-IsDistinct_example = add_all-IsDistinct tasks fresh refl (omega arith) (omega arith)

complete_fires_example :
    (c : Completes busy) × ((x : ℕ)
      → has x busy.event_ids ≡ true
      → has x (fired_ids c.events) ≡ true)
complete_fires_example = complete_fires busy busy-IsSound refl

abbrev late : SchedulerTask
late = record { event_id = 3; task = create_expiring 0 100 (call 9) }

abbrev others : List SchedulerTask
others =
    record { event_id = 1; task = create_expiring 0 300 (call 7) }
    ∷ record { event_id = 2; task = create_expiring 0 200 (call 8) }
    ∷ []

abbrev late_taken : Event
late_taken = took late (some (create_task (call 9)))

-- What the thread gives the dispatcher is its task without an expiration.
fire_late : Steps busy (late_taken ∷ []) (execute late others busy).1
unfolding execute
fire_late =
    then_
      (wake late others
        (record { held = there (there here); earliest = (omega arith, (omega arith, tt)) }))
      done

steps-IsSound_example : IsSound (execute late others busy).1
steps-IsSound_example =
    steps-IsSound busy (execute late others busy).1 (late_taken ∷ []) fire_late busy-IsSound

fires-InOrder_example :
    InOrder 0 (late_taken ∷ [])
    × ((has 1 (fired_ids (late_taken ∷ [])) || has 1 (execute late others busy).1.event_ids) ≡ true)
fires-InOrder_example =
    fires-InOrder busy (execute late others busy).1 (late_taken ∷ []) 1 fire_late (refl, tt) refl
