-- ===== src/Scheduler/Rounds.antt =====
-- Which task `schedule` picks, and in which state it leaves the table.
use native.Mathlib.Nat.{mod-lt}
use arcade_os.Ring.{wraps, no_return}
use arcade_os.Base.{
  OnSome-imp, sym, ap, ℕ, zero, suc, ◌+◌, ◌-◌, ◌%◌, ◌≤◌, ◌<◌, ◌≡◌, ◌∙◌, dec_lt, ◌⊎◌, inl, inr, refl,
  Bool, true, false, List, ◌==◌, if◌then◌else◌, length, length-set, length-map, get_or-set, arith,
  Bool-cases, OnSome,
}
use arcade_os.Scheduler.{
  running, Task, Sched, task, no_task, runnable, pick, demote, deadly, kill, switch_to, schedule,
  demote_current, next_index, keeps_cpu,
}

abbrev pub can_run : List Task → ℕ → Bool
can_run ts i = runnable (task ts i).state

-- The slot that the search looks at in round `j`.
abbrev pub slot : List Task → ℕ → ℕ → ℕ
slot ts old j = (old + 1 + j) % length ts

-- The search stops at the first runnable task from round `i` on, or has passed them all.
abbrev Picks : List Task → ℕ → ℕ → ℕ → ℕ → ℕ → Type 0
Picks ts old n i next r =
    ((k : ℕ) × (i ≤ k)
      × (k < i + n)
      × (r ≡ slot ts old k)
      × (can_run ts r ≡ true)
      × ((j : ℕ) → i ≤ j → j < k → can_run ts (slot ts old j) ≡ false))
    ⊎ (((j : ℕ) → i ≤ j → j < i + n → can_run ts (slot ts old j) ≡ false)
        × (r ≡ (if n == 0 then next else (old + i + n) % length ts)))

Picks-next :
    (ts : List Task) (old n i next r : ℕ)
    → can_run ts (slot ts old i) ≡ false
    → Picks ts old n (i + 1) (slot ts old i) r
    → Picks ts old (suc n) i next r
Picks-next ts old n i next r no_one (inl (k, lo, hi, at, runs, before)) =
    inl (k, omega arith, omega arith, at, runs, λ j low high. ground (arith, before j))
Picks-next ts old n i next r no_one (inr (none_left, last)) =
    inr ((λ j low high. ground (arith, none_left j)), ground arith)

pick-Picks : (ts : List Task) (old n i next : ℕ) → Picks ts old n i next (pick ts old n i next)
unfolding pick
pick-Picks ts old zero i next = inr ((λ j lo hi. absurd (omega arith)), ground arith)
pick-Picks ts old (suc n) i next = elim (Bool-cases (can_run ts (slot ts old i))) [
  | inl runs ↦
      rw runs (inl (i, omega arith, omega arith, refl, runs, λ j lo hi. absurd (omega arith)))
  | inr no_one ↦
      rw no_one (Picks-next ts old n i next _ no_one (pick-Picks ts old n (i + 1) (slot ts old i)))
]

-- From round 0 to the last, at a task of the table: the pick is the first runnable task after
-- `old` in cyclic order, or `old` itself where no other can run.
pick_lem :
    (ts : List Task) (old : ℕ)
    → old < length ts
    → ((j : ℕ) → j + 1 < length ts → can_run ts (slot ts old j) ≡ false)
        × (pick ts old (length ts) 0 old ≡ old)
      ⊎ ((k : ℕ) × (k + 1 < length ts)
          × (pick ts old (length ts) 0 old ≡ slot ts old k)
          × (can_run ts (slot ts old k) ≡ true)
          × ((j : ℕ) → j < k → can_run ts (slot ts old j) ≡ false))
pick_lem ts old fits = elim (pick-Picks ts old (length ts) 0 old) [
  | inl (k, lo, hi, at, runs, before) ↦ elim (dec_lt (k + 1) (length ts)) [
    | yes early ↦ inr (k, early, at, rw at at runs, λ j h. before j (omega arith) h)
    | no late ↦ inl (
      (λ j h. before j (omega arith) (omega arith)),
      at ∙ wraps (length ts) old (old + 1 + k) fits (omega arith),
    )
  ]
  | inr (none_left, last) ↦ inl (
    (λ j h. none_left j (omega arith) (omega arith)),
    last ∙ ground (arith, wraps (length ts) old (old + 0 + length ts) fits (omega arith)),
  )
]

-- The others in the round cannot run, up to the one that now does.
abbrev pub Yields : List Task → ℕ → ℕ → Type 0
Yields ts old k = (j : ℕ) → j < k → can_run ts (slot ts old j) ≡ false

-- The current task goes on: nobody else can run, or the scheduler is not in charge.
abbrev pub Stays : Sched → Sched → Type 0
Stays s s' =
    (s'.current ≡ s.current)
    × ((s.enabled ≡ false) ⊎ (length s.tasks ≤ 1) ⊎ Yields s'.tasks s.current (length s'.tasks - 1))

-- Another task runs: the first runnable one after the old in cyclic order, it is marked running,
-- and no deadly signal is pending for it.
abbrev pub Switches : Sched → Sched → Type 0
Switches s s' =
    (k : ℕ) × (k + 1 < length s'.tasks)
    × (s'.current ≡ slot s'.tasks s.current k)
    × Yields s'.tasks s.current k
    × ((task s'.tasks s'.current).state ≡ running)
    × (deadly (task s'.tasks s'.current) ≡ false)

pub demote_current-can_run : (s : Sched) (j : ℕ) → can_run (demote_current s) j ≡ can_run s.tasks j
unfolding demote_current
demote_current-can_run s j = ground (
  arith,
  get_or-set s.tasks s.current j
      (record (task s.tasks s.current) { state = demote (task s.tasks s.current).state }) no_task,
)

pub length-demote_current : (s : Sched) → length (demote_current s) ≡ length s.tasks
unfolding demote_current
length-demote_current s = length-set s.tasks s.current _

length-kill : (ts : List Task) (i : ℕ) → length (kill ts i) ≡ length ts
unfolding kill
length-kill ts i = length-map _ _ ∙ length-set ts i _

-- The table after the switch to the task at `next`.
module _ (s : Sched) (ts : List Task) (next : ℕ) (same_length : length ts ≡ length s.tasks)
    (inside : next < length ts) where
  switch_to-table :
      (j : ℕ)
      → task (switch_to s ts next).tasks j
        ≡ (if next == j then record (task ts next) { state = running } else task ts j)
  unfolding switch_to
  switch_to-table j =
      ground (arith, get_or-set ts next j (record (task ts next) { state = running }) no_task)

  length-switch_to : length (switch_to s ts next).tasks ≡ length ts
  unfolding switch_to
  length-switch_to = length-set ts next _

  switch_to-Switches :
      (k : ℕ)
      → k + 1 < length ts
      → next ≡ slot ts s.current k
      → Yields ts s.current k
      → can_run ts next ≡ true
      → deadly (task ts next) ≡ false
      → Switches s (switch_to s ts next)
  unfolding switch_to deadly
  switch_to-Switches k inner at others runs safe = (
    k,
    omega (arith, length-switch_to),
    at ∙ ap (λ n. (s.current + 1 + k) % n) (sym (length-set ts next _)),
    (λ j h. rw (length-set ts next (record (task ts next) { state = running })) (
        ground (
          arith,
          at,
          runs,
          others j h,
          get_or-set ts next (slot ts s.current j) (record (task ts next) { state = running })
              no_task,
        ))),
    ground (arith, switch_to-table next),
    ground (arith, switch_to-table next),
  )

keeps_cpu-Stays : (s : Sched) → s.current < length s.tasks → keeps_cpu s ≡ true → Stays s s
unfolding keeps_cpu next_index
keeps_cpu-Stays s fits stops = (
  refl,
  elim (pick_lem s.tasks s.current fits) [
    | inl (none_left, same) ↦ inr (inr (λ j h. none_left j (omega arith)))
    | inr (k, inner, at, runs, before) ↦
        ground (arith, stops, at, no_return (length s.tasks) s.current k fits inner)
  ],
)

-- Where `schedule` goes on, the search has found another task.
pub next_index-slot :
    (s : Sched)
    → s.current < length s.tasks
    → keeps_cpu s ≡ false
    → (k : ℕ) × (k + 1 < length s.tasks)
      × (next_index s ≡ slot s.tasks s.current k)
      × (can_run s.tasks (next_index s) ≡ true)
      × Yields s.tasks s.current k
unfolding keeps_cpu next_index
next_index-slot s fits goes = elim (pick_lem s.tasks s.current fits) [
  | inl (none_left, same) ↦ absurd (ground (arith, goes, same))
  | inr (k, inner, at, runs, before) ↦ (k, inner, at, rw at runs, before)
]

switch-Switches :
    (s : Sched)
    → s.current < length s.tasks
    → keeps_cpu s ≡ false
    → deadly (task (demote_current s) (next_index s)) ≡ false
    → Switches s (switch_to s (demote_current s) (next_index s))
switch-Switches s fits goes lives =
    let (k, inner, at, runs, before) = next_index-slot s fits goes in
    let same = length-demote_current s in
    switch_to-Switches s (demote_current s) (next_index s) same
      (omega (arith, at, same, mod-lt (s.current + 1 + k) {m = length s.tasks} (omega arith))) k
      (omega arith) (at ∙ ap (λ n. (s.current + 1 + k) % n) (sym same))
      (λ j h. rw same (demote_current-can_run s _ ∙ before j h)) (demote_current-can_run s _ ∙ runs)
      lives

-- The state in which `schedule` calls itself.
abbrev pub killed : Sched → Sched
killed s = record s { tasks = kill (demote_current s) (next_index s) }

pub length-killed : (s : Sched) → length (killed s).tasks ≡ length s.tasks
length-killed s = length-kill (demote_current s) (next_index s) ∙ length-demote_current s

killed-Turn :
    (s s' : Sched) → Stays (killed s) s' ⊎ Switches (killed s) s' → Stays s s' ⊎ Switches s s'
killed-Turn s s' (inl (same, inl off)) = inl (same, inl off)
killed-Turn s s' (inl (same, inr (inl alone))) =
    inl (same, inr (inl (omega (arith, length-killed s))))
killed-Turn s s' (inl (same, inr (inr others))) = inl (same, inr (inr others))
killed-Turn s s' (inr switches) = inr switches

-- `schedule` either leaves the CPU to the current task, and then nobody else could run, or gives
-- it to the next task in the round that can run; the fuel may have run out instead.
pub schedule-Turn :
    (fuel : ℕ) (s : Sched)
    → s.current < length s.tasks
    → OnSome (λ s'. Stays s s' ⊎ Switches s s') (schedule fuel s)
unfolding schedule
schedule-Turn zero s fits = tt
schedule-Turn (suc fuel) s fits = elim (Bool-cases (keeps_cpu s)) [
  | inl stops ↦ rw stops (inl (keeps_cpu-Stays s fits stops))
  | inr goes ↦ elim (Bool-cases (deadly (task (demote_current s) (next_index s)))) [
    | inl dies ↦
        rw (goes, dies)
          (OnSome-imp (λ s'. Stays (killed s) s' ⊎ Switches (killed s) s') _
            (schedule fuel (killed s)) (λ s' t. killed-Turn s s' t)
            (schedule-Turn fuel (killed s) (omega (arith, length-killed s))))
    | inr lives ↦ rw (goes, lives) (inr (switch-Switches s fits goes lives))
  ]
]
