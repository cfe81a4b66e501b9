-- ===== src/Scheduler/Progress.antt =====
-- `schedule` ends: each time it calls itself one task fewer is alive.
use native.Mathlib.Nat.{mod-lt}
use arcade_os.Base.{
  ℕ, zero, suc, ◌+◌, ◌≤◌, ◌<◌, ◌≡◌, ◌∙◌, refl, Bool, true, false, some, List, [], ◌∷◌, map,
  if◌then◌else◌, set, length, arith, Bool-cases, inl, inr,
}
use arcade_os.Scheduler.{
  TaskState, dead, Task, Sched, task, demote, deadly, wake, kill, schedule, demote_current,
  next_index, keeps_cpu, switch_to,
}
use arcade_os.Scheduler.Rounds.{
  next_index-slot, can_run, length-demote_current, length-killed, killed, demote_current-can_run,
}

abbrev pub alive : TaskState → Bool
alive dead = false
alive _ = true

pub living : List Task → ℕ
living [] = 0
living (t ∷ ts) = (if alive t.state then 1 else 0) + living ts

pub living-le : (ts : List Task) → living ts ≤ length ts
unfolding living
living-le [] = omega arith
living-le (t ∷ ts) = ground (arith, living-le ts)

living-set :
    (ts : List Task) (i : ℕ) (t : Task)
    → i < length ts
    → living (set ts i t) + (if alive (task ts i).state then 1 else 0)
      ≡ living ts + (if alive t.state then 1 else 0)
unfolding living
living-set [] i t h = absurd (omega arith)
living-set (x ∷ ts) zero t h = omega arith
living-set (x ∷ ts) (suc i) t h = omega (arith, living-set ts i t (omega arith))

living-wake : (pid : ℕ) (ts : List Task) → living (map (wake pid) ts) ≡ living ts
unfolding living wake
living-wake pid [] = refl
living-wake pid (t ∷ ts) = ground (arith, living-wake pid ts)

living-kill :
    (ts : List Task) (i : ℕ)
    → i < length ts
    → can_run ts i ≡ true
    → living (kill ts i) + 1 ≡ living ts
unfolding kill
living-kill ts i h runs = ground (
  arith,
  living-set ts i (record (task ts i) { state = dead; pending_signals = 0 }) h,
  living-wake (task ts i).id (set ts i (record (task ts i) { state = dead; pending_signals = 0 })),
)

living-demote_current :
    (s : Sched) → s.current < length s.tasks → living (demote_current s) ≡ living s.tasks
unfolding demote_current demote
living-demote_current s h = ground (
  arith,
  living-set s.tasks s.current
      (record (task s.tasks s.current) { state = demote (task s.tasks s.current).state }) h,
)

living-killed :
    (s : Sched)
    → s.current < length s.tasks
    → keeps_cpu s ≡ false
    → living (killed s).tasks + 1 ≡ living s.tasks
living-killed s fits goes =
    let (k, inner, at, runs, before) = next_index-slot s fits goes in
    omega (
      arith,
      living-kill (demote_current s) (next_index s)
          (omega (
            arith,
            at,
            length-demote_current s,
            mod-lt (s.current + 1 + k) {m = length s.tasks} (omega arith),
          ))
          (demote_current-can_run s (next_index s) ∙ runs),
      living-demote_current s fits,
    )

-- `schedule` returns if its fuel is above the number of tasks that are alive.
pub schedule-total :
    (fuel : ℕ) (s : Sched)
    → s.current < length s.tasks
    → living s.tasks < fuel
    → (s' : Sched) × (schedule fuel s ≡ some s')
unfolding schedule
schedule-total zero s fits enough = absurd (omega arith)
schedule-total (suc fuel) s fits enough = elim (Bool-cases (keeps_cpu s)) [
  | inl stops ↦ (s, rw stops)
  | inr goes ↦ elim (Bool-cases (deadly (task (demote_current s) (next_index s)))) [
    | inl dies ↦
        let (s', e) =
          schedule-total fuel (killed s) (omega (arith, length-killed s))
            (omega (arith, living-killed s fits goes)) in
        (s', rw (goes, dies) e)
    | inr lives ↦ (switch_to s (demote_current s) (next_index s), rw (goes, lives))
  ]
]
