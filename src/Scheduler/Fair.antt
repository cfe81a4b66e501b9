-- ===== src/Scheduler/Fair.antt =====
-- `schedule` with enough fuel: what it does, and that it returns.
use arcade_os.Base.{ℕ, ◌<◌, ◌≡◌, ◌⊎◌, some, length, OnSome-some}
use arcade_os.Scheduler.Candidates.{CouldRun}
use arcade_os.Scheduler.{Sched, schedule}
use arcade_os.Scheduler.Rounds.{Stays, Switches}
use arcade_os.Scheduler.Progress.{living, schedule-total}
use arcade_os.Scheduler.Waiters.{NoOrphans, OnSome-schedule-NoOrphans}

-- The current task keeps the CPU, or another gets it.
abbrev pub Turns : Sched → Sched → Type 0
Turns s s' = Stays s s' ⊎ (Switches s s' × CouldRun s s' s'.current)

-- With more fuel than there are living tasks, `schedule` returns, and if nobody was blocked on a
-- dead task, nobody is so afterwards, also where `schedule` has killed tasks by their signals.
pub schedule-NoOrphans :
    (fuel : ℕ) (s : Sched)
    → s.current < length s.tasks
    → living s.tasks < fuel
    → NoOrphans s.tasks
    → (s' : Sched) × (schedule fuel s ≡ some s') × NoOrphans s'.tasks
schedule-NoOrphans fuel s fits enough h =
    let (s', e) = schedule-total fuel s fits enough in
    (
      s',
      e,
      OnSome-some (λ s'. NoOrphans s'.tasks) (schedule fuel s) s'
          (OnSome-schedule-NoOrphans fuel s h) e,
    )
