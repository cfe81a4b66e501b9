-- ===== src/Scheduler/Waiters.antt =====
-- Tasks that wait for another to end.
use arcade_os.Base.{
  inl, inr, ◌⊎◌, subst, ap, ltb, ◌==◌, ◌&&◌, length-map, length-set, ℕ, zero, suc, ◌<◌, ◌≡◌, ◌≢◌,
  ◌∙◌, sym, refl, List, map, get_or-set, get_or-map, if◌then◌else◌, set, length, arith, Bool-cases,
  OnSome,
}
use arcade_os.Scheduler.{
  ready, blocked, dead, Task, Sched, task, no_task, demote, deadly, wake, kill, schedule,
  demote_current, next_index, keeps_cpu, switch_to, exit,
}
use arcade_os.Scheduler.Rounds.{killed}

-- Nobody is blocked on a task that is dead.
abbrev pub NoOrphans : List Task → Type 0
NoOrphans ts =
    (i k : ℕ)
    → (task ts i).state ≡ blocked
    → (task ts k).state ≡ dead
    → k < length ts
    → (task ts i).wait_pid ≢ (task ts k).id

-- Who is still blocked after the wake-up for `pid` was blocked before, on another task.
wake-blocked :
    (pid : ℕ) (t : Task)
    → (wake pid t).state ≡ blocked
    → (t.state ≡ blocked) × (t.wait_pid ≢ pid) × ((wake pid t).wait_pid ≡ t.wait_pid)
unfolding wake
wake-blocked pid t h = (ground arith, (λ e. ground arith), ground arith)

wake-dead :
    (pid : ℕ) (t : Task) → ((wake pid t).state ≡ dead → t.state ≡ dead) × ((wake pid t).id ≡ t.id)
unfolding wake
wake-dead pid t = ((λ h. ground arith), ground arith)

-- The table in which the task at `i` has become `t` and the waiters on `pid` are woken.
abbrev ended : List Task → ℕ → Task → ℕ → List Task
ended ts i t pid = map (wake pid) (set ts i t)

ended-task :
    (ts : List Task) (i : ℕ) (t : Task) (pid j : ℕ)
    → task (ended ts i t pid) j ≡ wake pid (if i == j && ltb i (length ts) then t else task ts j)
unfolding wake
ended-task ts i t pid j =
    get_or-map (wake pid) (set ts i t) j no_task refl ∙ ap (wake pid) (get_or-set ts i j t no_task)

length-ended : (ts : List Task) (i : ℕ) (t : Task) (pid : ℕ) → length (ended ts i t pid) ≡ length ts
length-ended ts i t pid = length-map (set ts i t) (wake pid) ∙ length-set ts i t

ended-NoOrphans :
    (ts : List Task) (i : ℕ) (t : Task)
    → t.state ≡ dead
    → t.id ≡ (task ts i).id
    → NoOrphans ts
    → NoOrphans (ended ts i t (task ts i).id)
ended-NoOrphans ts i t died same h a b blocks dies inside e =
    let pid = (task ts i).id in
    let xa : Task = if i == a && ltb i (length ts) then t else task ts a in
    let xb : Task = if i == b && ltb i (length ts) then t else task ts b in
    let (was, other, kept) =
      wake-blocked pid xa (sym (ap (λ x. x.state) (ended-task ts i t pid a)) ∙ blocks) in
    let (died_too, id) = wake-dead pid xb in
    let gone = died_too (sym (ap (λ x. x.state) (ended-task ts i t pid b)) ∙ dies) in
    clash was other gone (
      sym kept
      ∙ sym (ap (λ x. x.wait_pid) (ended-task ts i t pid a))
      ∙ e
      ∙ ap (λ x. x.id) (ended-task ts i t pid b)
      ∙ id)
  where
    clash :
        (if i == a && ltb i (length ts) then t else task ts a).state ≡ blocked
        → (if i == a && ltb i (length ts) then t else task ts a).wait_pid ≢ (task ts i).id
        → (if i == b && ltb i (length ts) then t else task ts b).state ≡ dead
        → (if i == a && ltb i (length ts) then t else task ts a).wait_pid
          ≡ (if i == b && ltb i (length ts) then t else task ts b).id
        → ⊥
    clash was other gone e' = ground (arith, died, same, h a b, length-ended ts i t (task ts i).id)

-- What the end of the task `pid` does to another: a task that is blocked on it becomes ready and
-- waits for nobody, and any other stays as it is.
abbrev pub Roused : ℕ → Task → Task → Type 0
Roused pid t t' =
    ((t.state ≡ blocked) × (t.wait_pid ≡ pid) × (t' ≡ record t { state = ready; wait_pid = 0 }))
    ⊎ (((t.state ≢ blocked) ⊎ (t.wait_pid ≢ pid)) × (t' ≡ t))

wake-Roused : (pid : ℕ) (t : Task) → Roused pid t (wake pid t)
unfolding wake
wake-Roused pid t = ground arith

-- The table after SYS_EXIT.
abbrev pub Exited : Sched → Sched → Type 0
Exited s s' =
    (length s'.tasks ≡ length s.tasks)
    × ((task s'.tasks s.current).state ≡ dead)
    × ((i : ℕ)
        → i ≢ s.current
        → Roused (task s.tasks s.current).id (task s.tasks i) (task s'.tasks i))

exit-Exited : (s : Sched) → s.current < length s.tasks → Exited s (exit s)
unfolding exit wake
exit-Exited s fits = (
  length-ended s.tasks s.current gone pid,
  ap (λ x. x.state) (ended-task s.tasks s.current gone pid s.current) ∙ ends,
  λ i other.
      subst (Roused pid (task s.tasks i))
        (ap (wake pid) (another i other) ∙ sym (ended-task s.tasks s.current gone pid i))
        (wake-Roused pid (task s.tasks i)),
)
  where
    pid : ℕ
    pid = (task s.tasks s.current).id

    gone : Task
    gone = record (task s.tasks s.current) { state = dead }

    ends :
        (wake pid (
          if s.current == s.current && ltb s.current (length s.tasks)
          then gone
          else task s.tasks s.current)).state
        ≡ dead
    ends = ground (arith, fits)

    another :
        (i : ℕ)
        → i ≢ s.current
        → task s.tasks i
          ≡ (if s.current == i && ltb s.current (length s.tasks) then gone else task s.tasks i)
    another i other = ground (arith, other)

-- When the current task exits, it is dead, every task that is blocked on it becomes ready, and no
-- other changes; nobody is left blocked on a task that is dead, if nobody was before.
pub exit-NoOrphans :
    (s : Sched)
    → s.current < length s.tasks
    → NoOrphans s.tasks
    → Exited s (exit s) × NoOrphans (exit s).tasks
unfolding exit
exit-NoOrphans s fits h = (
  exit-Exited s fits,
  ended-NoOrphans s.tasks s.current (record (task s.tasks s.current) { state = dead }) refl refl h,
)

-- A table that differs in one slot, by a task that is neither blocked nor dead, or as much as before.
set-NoOrphans :
    (ts : List Task) (i : ℕ) (t : Task)
    → (t.state ≡ blocked → (task ts i).state ≡ blocked)
    → (t.state ≡ dead → (task ts i).state ≡ dead)
    → t.id ≡ (task ts i).id
    → t.wait_pid ≡ (task ts i).wait_pid
    → NoOrphans ts
    → NoOrphans (set ts i t)
set-NoOrphans ts i t wb wd same same' h a b blocks dies inside e =
    ground
      (arith, get_or-set ts i a t no_task, get_or-set ts i b t no_task, length-set ts i t, h a b)

demote_current-NoOrphans : (s : Sched) → NoOrphans s.tasks → NoOrphans (demote_current s)
unfolding demote_current demote
demote_current-NoOrphans s h =
    set-NoOrphans s.tasks s.current _ (λ e. ground arith) (λ e. ground arith) refl refl h

switch_to-NoOrphans :
    (s : Sched) (ts : List Task) (i : ℕ) → NoOrphans ts → NoOrphans (switch_to s ts i).tasks
unfolding switch_to
switch_to-NoOrphans s ts i h = set-NoOrphans ts i _ (λ e. cc) (λ e. cc) refl refl h

kill-NoOrphans : (ts : List Task) (i : ℕ) → NoOrphans ts → NoOrphans (kill ts i)
unfolding kill
kill-NoOrphans ts i h =
    ended-NoOrphans ts i (record (task ts i) { state = dead; pending_signals = 0 }) refl refl h

-- `schedule` keeps it so, also where it kills tasks by their signals.
pub OnSome-schedule-NoOrphans :
    (fuel : ℕ) (s : Sched) → NoOrphans s.tasks → OnSome (λ s'. NoOrphans s'.tasks) (schedule fuel s)
unfolding schedule
OnSome-schedule-NoOrphans zero s h = tt
OnSome-schedule-NoOrphans (suc fuel) s h = elim (Bool-cases (keeps_cpu s)) [
  | inl stops ↦ rw stops h
  | inr goes ↦ elim (Bool-cases (deadly (task (demote_current s) (next_index s)))) [
    | inl dies ↦
        rw (goes, dies)
          (OnSome-schedule-NoOrphans fuel (killed s)
            (kill-NoOrphans (demote_current s) (next_index s) (demote_current-NoOrphans s h)))
    | inr lives ↦
        rw (goes, lives)
          (switch_to-NoOrphans s (demote_current s) (next_index s) (demote_current-NoOrphans s h))
  ]
]
