-- ===== src/Schedule/Handover.antt =====
-- src/scheduler.cpp and src/tasks.cpp: a task on its way from the scheduler to the dispatcher.
use otx.Prelude.{ℕ, ◌≡◌, true, some, List, arith}
use otx.Schedule.Dispatcher.{add_task, turn, Task, Dispatcher, running}
use otx.Schedule.Scheduler.{execute, SchedulerTask, Scheduler}

-- A task that the scheduler dispatches to a running dispatcher is what the dispatcher calls at its
-- next turn, whatever waits there and however late it is.
pub execute-turn :
    (t : SchedulerTask) (rest : List SchedulerTask) (s : Scheduler) (d : Dispatcher) (v : Task)
    (now : ℕ)
    → (execute t rest s).0 ≡ some v
    → d.state ≡ running
    → (turn now (add_task v true d)).0 ≡ some t.task.action
unfolding execute add_task turn
execute-turn t rest s d v now e r = ground (arith, r)
