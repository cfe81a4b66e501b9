-- ===== src/Scheduler/Candidates.antt =====
-- Which tasks `schedule` may give the CPU to.
use mathlib.Core.Logic.{◌≢◌}
use native.Mathlib.Nat.{mod-lt}
use arcade_os.Base.{
  false≢true, OnSome, OnSome-imp, ◌⊎◌, inl, inr, subst, sym, ap, ℕ, zero, suc, ◌+◌, ◌<◌, ◌≡◌, ◌∙◌,
  refl, true, false, ◌&&◌, ◌==◌, ltb, if◌then◌else◌, length, length-set, get_or-set, arith,
  Bool-cases,
}
use arcade_os.Scheduler.{
  running, blocked, dead, Sched, task, no_task, runnable, demote, deadly, wake, switch_to, schedule,
  demote_current, next_index, keeps_cpu,
}
use arcade_os.Scheduler.Rounds.{
  can_run, slot, killed, length-killed, next_index-slot, length-demote_current,
}
use arcade_os.Scheduler.Deaths.{demoted-task, killed-task, killed-Ages, demoted-id}

-- The task at `c` could run: it was ready or running, or it was blocked on a task with a deadly signal
-- pending that has died of it meanwhile.
abbrev pub CouldRun : Sched → Sched → ℕ → Type 0
CouldRun s s' c =
    (can_run s.tasks c ≡ true)
    ⊎ (((task s.tasks c).state ≡ blocked)
        × (j : ℕ) × ((task s.tasks c).wait_pid ≡ (task s.tasks j).id)
        × (deadly (task s.tasks j) ≡ true)
        × ((task s.tasks j).state ≢ dead)
        × ((task s'.tasks j).state ≡ dead))

-- The current task keeps the CPU, or it goes to one that could run, and the dead stay dead.
abbrev pub Chosen : Sched → Sched → Type 0
Chosen s s' =
    ((s'.current ≡ s.current) ⊎ CouldRun s s' s'.current)
    × ((j : ℕ) → (task s.tasks j).state ≡ dead → (task s'.tasks j).state ≡ dead)
    × (length s'.tasks ≡ length s.tasks)

deadly-demoted : (s : Sched) (c : ℕ) → deadly (task (demote_current s) c) ≡ deadly (task s.tasks c)
unfolding deadly
deadly-demoted s c = ap (λ t. deadly t) (demoted-task s c) ∙ ground arith

killed-CouldRun :
    (s s' : Sched) (c : ℕ)
    → can_run s.tasks (next_index s) ≡ true
    → deadly (task (demote_current s) (next_index s)) ≡ true
    → (task s'.tasks (next_index s)).state ≡ dead
    → CouldRun (killed s) s' c
    → CouldRun s s' c
killed-CouldRun s s' c runs dies gone (inl runs') = elim ((killed-Ages s c).0 runs') [
  | inl before ↦ inl before
  | inr (waits, pid) ↦ inr (
    waits,
    next_index s,
    pid ∙ demoted-id s (next_index s),
    sym (deadly-demoted s (next_index s)) ∙ dies,
    (λ e. ground (arith, e, runs)),
    gone,
  )
]
killed-CouldRun s s' c runs dies gone (inr (waits, j, pid, signal, alive, gone')) =
    let (waited, same) = (killed-Ages s c).1 waits in
    let was = (killed-Ages s j).3 alive in
    inr (waited, j, sym same ∙ pid ∙ (killed-Ages s j).2, was.1 signal, was.0, gone')

next_index-inside :
    (s : Sched) (k : ℕ)
    → next_index s ≡ slot s.tasks s.current k
    → k + 1 < length s.tasks
    → next_index s < length (demote_current s)
next_index-inside s k at inner = omega (
  arith,
  at,
  inner,
  length-demote_current s,
  mod-lt (s.current + 1 + k) {m = length s.tasks} (omega (arith, inner)),
)

victim_dead :
    (s : Sched) (k : ℕ)
    → next_index s ≡ slot s.tasks s.current k
    → k + 1 < length s.tasks
    → (task (killed s).tasks (next_index s)).state ≡ dead
unfolding wake
victim_dead s k at inner =
    ap (λ t. t.state) (killed-task s (next_index s))
    ∙ ground (arith, next_index-inside s k at inner)

killed-Chosen :
    (s s' : Sched)
    → s.current < length s.tasks
    → keeps_cpu s ≡ false
    → deadly (task (demote_current s) (next_index s)) ≡ true
    → Chosen (killed s) s'
    → Chosen s s'
killed-Chosen s s' fits goes dies (inl same, stay, long) =
    (inl same, (λ j gone. stay j ((killed-Ages s j).4 gone)), long ∙ length-killed s)
killed-Chosen s s' fits goes dies (inr could, stay, long) =
    let (k, inner, at, runs, before) = next_index-slot s fits goes in
    (
      inr (
          killed-CouldRun s s' s'.current runs dies (stay (next_index s) (victim_dead s k at inner))
            could),
      (λ j gone. stay j ((killed-Ages s j).4 gone)),
      long ∙ length-killed s,
    )

switch-Chosen :
    (s : Sched)
    → s.current < length s.tasks
    → keeps_cpu s ≡ false
    → Chosen s (switch_to s (demote_current s) (next_index s))
unfolding switch_to demote
switch-Chosen s fits goes =
    let (k, inner, at, runs, before) = next_index-slot s fits goes in
    (
      inr (inl runs),
      (λ j gone.
          ap (λ t. t.state) (get_or-set (demote_current s) (next_index s) j _ no_task)
          ∙ ap
              (λ b.
                (if b
                  then record (task (demote_current s) (next_index s)) { state = running }
                  else task (demote_current s) j).state)
              (apart j gone runs)
          ∙ still_dead j gone),
      length-set (demote_current s) (next_index s) _ ∙ length-demote_current s,
    )
  where
    equal : (j : ℕ) → (next_index s == j) ≡ true → next_index s ≡ j
    equal j same = ground (arith, same)

    apart :
        (j : ℕ)
        → (task s.tasks j).state ≡ dead
        → can_run s.tasks (next_index s) ≡ true
        → (next_index s == j && ltb (next_index s) (length (demote_current s))) ≡ false
    apart j gone runs = elim (Bool-cases (next_index s == j)) [
      | inl same ↦ absurd (
          false≢true
            (sym (ap runnable gone) ∙ subst (λ n. can_run s.tasks n ≡ true) (equal j same) runs))
      | inr other ↦ rw other refl
    ]

    here : (j : ℕ) → (s.current == j && ltb s.current (length s.tasks)) ≡ true → s.current ≡ j
    here j own = ground (arith, own)

    kept_dead :
        (j : ℕ)
        → (task s.tasks j).state ≡ dead
        → (if s.current == j && ltb s.current (length s.tasks)
            then record (task s.tasks s.current) { state = demote (task s.tasks s.current).state }
            else task s.tasks j).state
          ≡ dead
    kept_dead j gone = elim (Bool-cases (s.current == j && ltb s.current (length s.tasks))) [
      | inl own ↦
          rw own
            (subst (λ i. demote (task s.tasks i).state ≡ dead) (sym (here j own)) (ap demote gone))
      | inr other ↦ rw other gone
    ]

    still_dead : (j : ℕ) → (task s.tasks j).state ≡ dead → (task (demote_current s) j).state ≡ dead
    still_dead j gone = ap (λ t. t.state) (demoted-task s j) ∙ kept_dead j gone

pub schedule-Chosen :
    (fuel : ℕ) (s : Sched) → s.current < length s.tasks → OnSome (Chosen s) (schedule fuel s)
unfolding schedule
schedule-Chosen zero s fits = tt
schedule-Chosen (suc fuel) s fits = elim (Bool-cases (keeps_cpu s)) [
  | inl stops ↦ rw stops (inl refl, (λ j gone. gone), refl)
  | inr goes ↦ elim (Bool-cases (deadly (task (demote_current s) (next_index s)))) [
    | inl dies ↦
        rw (goes, dies)
          (OnSome-imp (Chosen (killed s)) (Chosen s) (schedule fuel (killed s))
            (λ s'. killed-Chosen s s' fits goes dies)
            (schedule-Chosen fuel (killed s) (omega (arith, fits, length-killed s))))
    | inr lives ↦ rw (goes, lives) (switch-Chosen s fits goes)
  ]
]
