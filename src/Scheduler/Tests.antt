-- ===== src/Scheduler/Tests.antt =====
-- The scheduler at concrete inputs.
use arcade_os.Base.{zero, suc, ◌<◌, ◌≡◌, refl, true, ◌∷◌, [], some, arith}
use arcade_os.Scheduler.{Sched, Task, running, ready, blocked, task, no_task, schedule, exit, wait}
use arcade_os.Scheduler.Progress.{living, living-le}
use arcade_os.Scheduler.Waiters.{Exited, NoOrphans, exit-NoOrphans}
use arcade_os.Scheduler.Lost.{Gone, here, wait_lost}
use arcade_os.Scheduler.Fair.{schedule-NoOrphans}

abbrev first : Task
first = record no_task { id = 1; state = running }

-- SIGINT is pending.
abbrev second : Task
second = record no_task { id = 2; state = ready; pending_signals = 0x4 }

-- It waits for the first task.
abbrev third : Task
third = record no_task { id = 3; state = blocked; wait_pid = 1 }

abbrev fourth : Task
fourth = record no_task { id = 4; state = ready }

abbrev four : Sched
four = record {
  tasks = first ∷ second ∷ third ∷ fourth ∷ [];
  current = 0;
  enabled = true;
  tick_count = 0;
  rsp0 = 0;
  cr3 = 0;
}

four-NoOrphans : NoOrphans four.tasks
four-NoOrphans i zero waits gone inside = cc
four-NoOrphans i (suc zero) waits gone inside = cc
four-NoOrphans i (suc (suc zero)) waits gone inside = cc
four-NoOrphans i (suc (suc (suc zero))) waits gone inside = cc
four-NoOrphans i (suc (suc (suc (suc k)))) waits gone inside = absurd (omega arith)

few_alive : living four.tasks < 5
few_alive = omega (arith, living-le four.tasks)

schedule-NoOrphans_example : (s' : Sched) × (schedule 5 four ≡ some s') × NoOrphans s'.tasks
schedule-NoOrphans_example = schedule-NoOrphans 5 four (omega arith) few_alive four-NoOrphans

exit-NoOrphans_example : Exited four (exit four) × NoOrphans (exit four).tasks
exit-NoOrphans_example = exit-NoOrphans four (omega arith) four-NoOrphans

-- No task has the id 9 any more.
nobody : Gone 9 four.tasks
nobody zero e = absurd (omega (arith, e))
nobody (suc zero) e = absurd (omega (arith, e))
nobody (suc (suc zero)) e = absurd (omega (arith, e))
nobody (suc (suc (suc zero))) e = absurd (omega (arith, e))
nobody (suc (suc (suc (suc k)))) e = refl

wait_lost_example : (task (wait 9 four).tasks 0).state ≡ blocked
wait_lost_example = wait_lost 9 four (wait 9 four) (omega arith) refl nobody here
