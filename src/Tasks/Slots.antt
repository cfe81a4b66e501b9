-- ===== src/Tasks/Slots.antt =====
-- The search of src/task.c for the slot of a dead task.
use arcade_os.Base.{
  ℕ, zero, suc, ◌+◌, ◌-◌, ◌∙◌, ap, true, false, ◌≤◌, ◌<◌, ◌≡◌, ◌≢◌, Option, none, some, List, [],
  ◌∷◌, length, arith, Bool-cases, inl, inr,
}
use arcade_os.Scheduler.{dead, Task, task}
use arcade_os.Tasks.{find_dead, dead_slot, is_dead}

-- Slot `i` is the first dead one from slot `lo` on.
abbrev pub FirstDead : List Task → ℕ → ℕ → Type 0
FirstDead ts lo i =
    (lo ≤ i)
    × (i < length ts)
    × ((task ts i).state ≡ dead)
    × ((j : ℕ) → lo ≤ j → j < i → (task ts j).state ≢ dead)

-- No slot from `lo` on is dead.
abbrev pub NoneDead : List Task → ℕ → Type 0
NoneDead ts lo = (j : ℕ) → lo ≤ j → j < length ts → (task ts j).state ≢ dead

-- The search from a slot on, as one in the rest of the table.
abbrev Searched : List Task → ℕ → Option ℕ → Type 0
Searched ts lo none = (j : ℕ) → j < length ts → (task ts j).state ≢ dead
Searched ts lo (some i) =
    (lo ≤ i)
    × (i < lo + length ts)
    × ((task ts (i - lo)).state ≡ dead)
    × ((j : ℕ) → j < i - lo → (task ts j).state ≢ dead)

is_dead-dead : (t : Task) → is_dead t.state ≡ true → t.state ≡ dead
unfolding is_dead
is_dead-dead t h = ground (arith, h)

is_dead-alive : (t : Task) → is_dead t.state ≡ false → t.state ≢ dead
unfolding is_dead
is_dead-alive t h e = ground (arith, h, e)

find_dead-Searched : (ts : List Task) (lo : ℕ) → Searched ts lo (find_dead ts lo)
unfolding find_dead
find_dead-Searched [] lo = λ j inside. absurd (omega (arith, inside))
find_dead-Searched (t ∷ ts) lo = elim (Bool-cases (is_dead t.state)) [
  | inl dies ↦ rw dies (
    omega arith,
    omega arith,
    ap (λ k. (task (t ∷ ts) k).state) (nothing lo) ∙ is_dead-dead t dies,
    λ j inside. absurd (omega (arith, inside)),
  )
  | inr lives ↦
      rw lives
        (further (find_dead ts (lo + 1)) (is_dead-alive t lives) (find_dead-Searched ts (lo + 1)))
]
  where
    nothing : (n : ℕ) → n - n ≡ 0
    nothing n = omega arith

    shift : (i : ℕ) → lo + 1 ≤ i → i - lo ≡ suc (i - (lo + 1))
    shift i above = omega (arith, above)

    earlier :
        (i : ℕ)
        → t.state ≢ dead
        → lo + 1 ≤ i
        → ((j : ℕ) → j < i - (lo + 1) → (task ts j).state ≢ dead)
        → (j : ℕ) → j < i - lo
        → (task (t ∷ ts) j).state ≢ dead
    earlier i alive above before zero inside = alive
    earlier i alive above before (suc j) inside = before j (omega (arith, inside))

    later :
        t.state ≢ dead
        → ((j : ℕ) → j < length ts → (task ts j).state ≢ dead)
        → (j : ℕ) → j < suc (length ts)
        → (task (t ∷ ts) j).state ≢ dead
    later alive rest zero inside = alive
    later alive rest (suc j) inside = rest j (omega (arith, inside))

    further : (o : Option ℕ) → t.state ≢ dead → Searched ts (lo + 1) o → Searched (t ∷ ts) lo o
    further none alive rest = later alive rest
    further (some i) alive (above, inside, dies, before) = (
      omega (arith, above),
      omega (arith, inside),
      ap (λ k. (task (t ∷ ts) k).state) (shift i above) ∙ dies,
      earlier i alive above before,
    )

-- What the search for a slot finds: slot 0 is passed over.
abbrev pub Sought : List Task → Option ℕ → Type 0
Sought ts none = NoneDead ts 1
Sought ts (some i) = FirstDead ts 1 i

pub dead_slot-Sought : (ts : List Task) → Sought ts (dead_slot ts)
unfolding dead_slot
dead_slot-Sought [] = λ j lo inside. absurd (omega (arith, inside))
dead_slot-Sought (t ∷ ts) = outer (find_dead ts 1) (find_dead-Searched ts 1)
  where
    down : (n : ℕ) → n ≡ suc n - 1
    down n = omega arith

    later :
        ((j : ℕ) → j < length ts → (task ts j).state ≢ dead)
        → (j : ℕ) → 1 ≤ j
        → j < suc (length ts)
        → (task (t ∷ ts) j).state ≢ dead
    later rest zero lo inside = absurd (omega (arith, lo))
    later rest (suc j) lo inside = rest j (omega (arith, inside))

    earlier :
        (i : ℕ)
        → ((j : ℕ) → j < suc i - 1 → (task ts j).state ≢ dead)
        → (j : ℕ) → 1 ≤ j
        → j < suc i
        → (task (t ∷ ts) j).state ≢ dead
    earlier i before zero lo inside = absurd (omega (arith, lo))
    earlier i before (suc j) lo inside = before j (omega (arith, inside))

    outer : (o : Option ℕ) → Searched ts 1 o → Sought (t ∷ ts) o
    outer none rest = later rest
    outer (some zero) (above, inside, dies, before) = absurd (omega (arith, above))
    outer (some (suc i)) (above, inside, dies, before) = (
      omega arith,
      omega (arith, inside),
      ap (λ k. (task ts k).state) (down i) ∙ dies,
      earlier i before,
    )
