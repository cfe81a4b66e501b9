-- ===== src/Scheduler/Deaths.antt =====
-- What a death by a signal does to the table of tasks.
use mathlib.Core.Logic.{◌≢◌}
use arcade_os.Base.{
  ◌⊎◌, inl, inr, subst, sym, ap, ℕ, ◌≡◌, ◌∙◌, refl, true, ◌&&◌, ◌==◌, ltb, if◌then◌else◌, set,
  length, get_or-set, get_or-map, arith, Bool-cases,
}
use arcade_os.Scheduler.{
  blocked, dead, Task, Sched, task, no_task, runnable, demote, deadly, wake, kill, demote_current,
  next_index,
}
use arcade_os.Scheduler.Rounds.{killed}

-- What the death of the task `pid` by a signal does to the tasks.
abbrev pub Ages : ℕ → Task → Task → Type 0
Ages pid t t' =
    (runnable t'.state ≡ true
      → (runnable t.state ≡ true) ⊎ ((t.state ≡ blocked) × (t.wait_pid ≡ pid)))
    × (t'.state ≡ blocked → (t.state ≡ blocked) × (t'.wait_pid ≡ t.wait_pid))
    × (t'.id ≡ t.id)
    × (t'.state ≢ dead → (t.state ≢ dead) × (deadly t' ≡ true → deadly t ≡ true))
    × (t.state ≡ dead → t'.state ≡ dead)

wake-Ages : (pid : ℕ) (t : Task) → Ages pid t (wake pid t)
unfolding wake deadly
wake-Ages pid t = (
  (λ h. ground (arith, h)),
  (λ h. (ground (arith, h), ground (arith, h))),
  ground arith,
  (λ h. ((λ e. ground (arith, h, e)), λ e. ground (arith, e))),
  (λ h. ground (arith, h)),
)

demoted-Ages : (pid : ℕ) (t : Task) → Ages pid t (wake pid (record t { state = demote t.state }))
unfolding wake deadly demote
demoted-Ages pid t = (
  (λ h. ground (arith, h)),
  (λ h. (ground (arith, h), ground (arith, h))),
  ground arith,
  (λ h. ((λ e. ground (arith, h, e)), λ e. ground (arith, e))),
  (λ h. ground (arith, h)),
)

gone-Ages :
    (pid : ℕ) (t u : Task)
    → u.id ≡ t.id
    → Ages pid t (wake pid (record u { state = dead; pending_signals = 0 }))
unfolding wake
gone-Ages pid t u same = (
  (λ h. absurd (ground (arith, h))),
  (λ h. absurd (ground (arith, h))),
  same,
  (λ h. absurd (h refl)),
  λ h. refl,
)

-- The task that dies, and the others, in the table with the old task marked ready.
pub demoted-task :
    (s : Sched) (c : ℕ)
    → task (demote_current s) c ≡ (
        if s.current == c && ltb s.current (length s.tasks)
        then record (task s.tasks s.current) { state = demote (task s.tasks s.current).state }
        else task s.tasks c)
unfolding demote_current
demoted-task s c = get_or-set s.tasks s.current c _ no_task

abbrev pub victim : Sched → ℕ
victim s = (task (demote_current s) (next_index s)).id

pub killed-task :
    (s : Sched) (c : ℕ)
    → task (killed s).tasks c
      ≡ wake (victim s) (
          if next_index s == c && ltb (next_index s) (length (demote_current s))
          then record (task (demote_current s) (next_index s)) { state = dead; pending_signals = 0 }
          else task (demote_current s) c)
unfolding kill wake
killed-task s c =
    get_or-map (wake (victim s)) (set (demote_current s) (next_index s) _) c no_task refl
    ∙ ap (wake (victim s)) (get_or-set (demote_current s) (next_index s) c _ no_task)

demoted-others-Ages :
    (pid : ℕ) (s : Sched) (c : ℕ) → Ages pid (task s.tasks c) (wake pid (task (demote_current s) c))
demoted-others-Ages pid s c =
    subst (λ t. Ages pid (task s.tasks c) (wake pid t)) (sym (demoted-task s c))
      (elim (Bool-cases (s.current == c && ltb s.current (length s.tasks))) [
        | inl own ↦ rw own (
            subst
              (λ j. Ages pid (task s.tasks j) (
                wake pid (record (task s.tasks s.current) {
                  state = demote (task s.tasks s.current).state;
                })))
              (same own) (demoted-Ages pid (task s.tasks s.current)))
        | inr other ↦ rw other (wake-Ages pid (task s.tasks c))
      ])
  where
    same : (s.current == c && ltb s.current (length s.tasks)) ≡ true → s.current ≡ c
    same own = ground (arith, own)

pub demoted-id : (s : Sched) (c : ℕ) → (task (demote_current s) c).id ≡ (task s.tasks c).id
demoted-id s c = ap (λ t. t.id) (demoted-task s c) ∙ ground arith

pub killed-Ages : (s : Sched) (c : ℕ) → Ages (victim s) (task s.tasks c) (task (killed s).tasks c)
killed-Ages s c =
    subst (Ages (victim s) (task s.tasks c)) (sym (killed-task s c))
      (elim (Bool-cases (next_index s == c && ltb (next_index s) (length (demote_current s)))) [
        | inl own ↦ rw own (
            subst
              (λ j. Ages (victim s) (task s.tasks j) (
                wake (victim s) (record (task (demote_current s) (next_index s)) {
                  state = dead;
                  pending_signals = 0;
                })))
              (same own)
              (gone-Ages (victim s) (task s.tasks (next_index s))
                (task (demote_current s) (next_index s)) (demoted-id s (next_index s))))
        | inr other ↦ rw other (demoted-others-Ages (victim s) s c)
      ])
  where
    same :
        (next_index s == c && ltb (next_index s) (length (demote_current s))) ≡ true
        → next_index s ≡ c
    same own = ground (arith, own)
