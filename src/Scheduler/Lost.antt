-- ===== src/Scheduler/Lost.antt =====
-- SYS_WAIT for a task that has already ended.
use arcade_os.Base.{
  ℕ, zero, suc, ◌<◌, ◌≡◌, ◌≢◌, ◌∙◌, refl, true, some, List, map, get_or-set, get_or-map,
  if◌then◌else◌, set, length, arith, Bool-cases, OnSome, OnSome-some, ltb, ◌==◌, ◌&&◌, inl, inr,
}
use arcade_os.Scheduler.{
  blocked, dead, Task, Sched, task, no_task, demote, deadly, wake, kill, schedule, demote_current,
  next_index, keeps_cpu, switch_to, exit, wait,
}
use arcade_os.Scheduler.Rounds.{
  next_index-slot, can_run, length-killed, killed, demote_current-can_run,
}

-- Every task with the id `pid` is dead.
abbrev pub Gone : ℕ → List Task → Type 0
Gone pid ts = (i : ℕ) → (task ts i).id ≡ pid → (task ts i).state ≡ dead

-- The task at `w` is blocked on `pid`, and no task with that id is alive.
abbrev pub IsLost : ℕ → ℕ → List Task → Type 0
IsLost pid w ts = ((task ts w).state ≡ blocked) × ((task ts w).wait_pid ≡ pid) × Gone pid ts

-- A write to a slot other than `w` that keeps the id and does not bring a task back to life.
set-IsLost :
    (pid w : ℕ) (ts : List Task) (i : ℕ) (t : Task)
    → i ≢ w
    → t.id ≡ (task ts i).id
    → ((task ts i).state ≡ dead → t.state ≡ dead)
    → IsLost pid w ts
    → IsLost pid w (set ts i t)
set-IsLost pid w ts i t ne same stays (waits, on, gone) = (
  ground (arith, get_or-set ts i w t no_task),
  ground (arith, get_or-set ts i w t no_task),
  λ j e. ground (arith, get_or-set ts i j t no_task, gone j),
)

-- A wake-up for another id.
wake-IsLost :
    (pid p w : ℕ) (ts : List Task) → p ≢ pid → IsLost pid w ts → IsLost pid w (map (wake p) ts)
unfolding wake
wake-IsLost pid p w ts ne (waits, on, gone) = (
  ground (arith, get_or-map (wake p) ts w no_task refl),
  ground (arith, get_or-map (wake p) ts w no_task refl),
  λ j e. ground (arith, get_or-map (wake p) ts j no_task refl, gone j),
)

module _ (pid w : ℕ) (ts : List Task) (lost : IsLost pid w ts) (i : ℕ)
    (runs : can_run ts i ≡ true) where
  runs-ne : i ≢ w
  runs-ne e = ground (arith, lost.0)

  runs-id : (task ts i).id ≢ pid
  runs-id e = ground (arith, lost.2 i e)

  dies-IsLost :
      (t : Task)
      → t.id ≡ (task ts i).id
      → t.state ≡ dead
      → IsLost pid w (map (wake (task ts i).id) (set ts i t))
  dies-IsLost t same died =
      wake-IsLost pid (task ts i).id w (set ts i t) runs-id
        (set-IsLost pid w ts i t runs-ne same (λ _. died) lost)

  stays-IsLost : (t : Task) → t.id ≡ (task ts i).id → IsLost pid w (set ts i t)
  stays-IsLost t same = set-IsLost pid w ts i t runs-ne same (λ e. absurd (ground arith)) lost

demote_current-IsLost :
    (pid w : ℕ) (s : Sched) → IsLost pid w s.tasks → IsLost pid w (demote_current s)
unfolding demote_current demote
demote_current-IsLost pid w s (waits, on, gone) =
    (ground (arith, at w), ground (arith, at w), λ j e. ground (arith, at j, gone j))
  where
    t : Task
    t = record (task s.tasks s.current) { state = demote (task s.tasks s.current).state }

    at :
        (j : ℕ)
        → task (set s.tasks s.current t) j
          ≡ (if s.current == j && ltb s.current (length s.tasks) then t else task s.tasks j)
    at j = get_or-set s.tasks s.current j t no_task

schedule-IsLost :
    (pid w fuel : ℕ) (s : Sched)
    → s.current < length s.tasks
    → IsLost pid w s.tasks
    → OnSome (λ s'. IsLost pid w s'.tasks) (schedule fuel s)
unfolding schedule kill switch_to
schedule-IsLost pid w zero s fits lost = tt
schedule-IsLost pid w (suc fuel) s fits lost = elim (Bool-cases (keeps_cpu s)) [
  | inl stops ↦ rw stops lost
  | inr goes ↦
      let (k, inner, at, runs, before) = next_index-slot s fits goes in
      let lost' = demote_current-IsLost pid w s lost in
      let runs' = demote_current-can_run s (next_index s) ∙ runs in
      elim (Bool-cases (deadly (task (demote_current s) (next_index s)))) [
        | inl dies ↦
            rw (goes, dies)
              (schedule-IsLost pid w fuel (killed s) (omega (arith, length-killed s))
                (dies-IsLost pid w (demote_current s) lost' (next_index s) runs' _ refl refl))
        | inr lives ↦
            rw (goes, lives)
              (stays-IsLost pid w (demote_current s) lost' (next_index s) runs' _ refl)
      ]
]

-- What the tasks can do while none is created: give up the CPU, exit, and wait. The task that acts
-- is the current one, and it is not blocked or dead.
pub data Step : Sched → Sched → Type 0 where
  yields :
      {s s' : Sched} (fuel : ℕ) → s.current < length s.tasks → schedule fuel s ≡ some s' → Step s s'
  exits : (s : Sched) → can_run s.tasks s.current ≡ true → Step s (exit s)
  waits : (s : Sched) (pid : ℕ) → can_run s.tasks s.current ≡ true → Step s (wait pid s)

pub data Reach (s : Sched) : Sched → Type 0 where
  here : Reach s s
  next : {t u : Sched} → Reach s t → Step t u → Reach s u

Step-IsLost : (pid w : ℕ) {s s' : Sched} → Step s s' → IsLost pid w s.tasks → IsLost pid w s'.tasks
unfolding exit wait
Step-IsLost pid w {s} {s'} (yields fuel fits e) lost =
    OnSome-some (λ s'. IsLost pid w s'.tasks) (schedule fuel s) s'
      (schedule-IsLost pid w fuel s fits lost) e
Step-IsLost pid w (exits s runs) lost = dies-IsLost pid w s.tasks lost s.current runs _ refl refl
Step-IsLost pid w (waits s p runs) lost = stays-IsLost pid w s.tasks lost s.current runs _ refl

Reach-IsLost :
    (pid w : ℕ) {s s' : Sched} → Reach s s' → IsLost pid w s.tasks → IsLost pid w s'.tasks
Reach-IsLost pid w here lost = lost
Reach-IsLost pid w (next r st) lost = Step-IsLost pid w st (Reach-IsLost pid w r lost)

wait-IsLost :
    (pid : ℕ) (s : Sched)
    → s.current < length s.tasks
    → can_run s.tasks s.current ≡ true
    → Gone pid s.tasks
    → IsLost pid s.current (wait pid s).tasks
unfolding wait
wait-IsLost pid s fits runs gone = (
  ground (arith, at s.current),
  ground (arith, at s.current),
  λ j e. ground (arith, at j, gone j, gone s.current),
)
  where
    t : Task
    t = record (task s.tasks s.current) { state = blocked; wait_pid = pid }

    at :
        (j : ℕ)
        → task (set s.tasks s.current t) j
          ≡ (if s.current == j && ltb s.current (length s.tasks) then t else task s.tasks j)
    at j = get_or-set s.tasks s.current j t no_task

-- SYS_WAIT does not look whether the task has already ended: a caller that waits for an id that
-- only dead tasks have stays blocked whatever the tasks do, as long as none is created.
pub wait_lost :
    (pid : ℕ) (s s' : Sched)
    → s.current < length s.tasks
    → can_run s.tasks s.current ≡ true
    → Gone pid s.tasks
    → Reach (wait pid s) s'
    → (task s'.tasks s.current).state ≡ blocked
wait_lost pid s s' fits runs gone r =
    (Reach-IsLost pid s.current r (wait-IsLost pid s fits runs gone)).0
