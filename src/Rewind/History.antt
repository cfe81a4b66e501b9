-- ===== src/Rewind/History.antt =====
-- The ring of snapshots as a list, the newest first.
use arcade_os.Base.{
  ℕ, zero, suc, ◌+◌, ◌-◌, ◌%◌, ◌^◌, ◌≤◌, ◌<◌, ◌≡◌, ◌≢◌, ◌∙◌, refl, sym, ap, true, false, not, ◌||◌,
  Option, none, some, List, [], ◌∷◌, leb, ◌==◌, if◌then◌else◌, arith, length, take, drop, get_elem?,
  Bool-cases, inl, inr,
}
use mathlib.Core.Option.{some-injective}
use arcade_os.Gamepad.{write_at}
use arcade_os.Rewind.{
  Snapshot, Snapshots, Rewind, Here, slot_at, push, rewind_slots, do_menu_restore, sub_32,
}
use arcade_os.Rewind.Ring.{find_slot, slot_for_frame, recent_slot, request_restore}

-- The base is a slot, and there are no more snapshots than slots.
pub record IsRing {Mem : Type 0} (r : Snapshots Mem) : Type 0 where
  pub base_inside : r.ring_base < rewind_slots
  pub count_inside : r.ring_count ≤ rewind_slots

module _ {Mem : Type 0} where
  -- The oldest `n`, the newest of them first.
  abbrev pub entries : (ℕ → Snapshot Mem) → ℕ → ℕ → List (Snapshot Mem)
  entries slots base zero = []
  entries slots base (suc n) = slots ((base + n) % rewind_slots) ∷ entries slots base n

  abbrev pub history : Snapshots Mem → List (Snapshot Mem)
  history r = entries r.slots r.ring_base r.ring_count

  length-entries : (slots : ℕ → Snapshot Mem) (base n : ℕ) → length (entries slots base n) ≡ n
  length-entries slots base zero = refl
  length-entries slots base (suc n) = ap suc (length-entries slots base n)

  take_all : (n : ℕ) (xs : List (Snapshot Mem)) → length xs ≤ n → take n xs ≡ xs
  take_all zero [] short = refl
  take_all zero (x ∷ xs) short = absurd (omega (arith, short))
  take_all (suc n) [] short = refl
  take_all (suc n) (x ∷ xs) short = ap (λ ys. x ∷ ys) (take_all n xs (omega (arith, short)))

  write_own :
      (slots : ℕ → Snapshot Mem) (i j : ℕ) (s : Snapshot Mem) → j ≡ i → write_at slots i s j ≡ s
  write_own slots i j s e = rw own refl
    where
      own : (j == i) ≡ true
      own = ground (arith, e)

  write_other :
      (slots : ℕ → Snapshot Mem) (i j : ℕ) (s : Snapshot Mem)
      → j ≢ i
      → write_at slots i s j ≡ slots j
  write_other slots i j s differ = rw other refl
    where
      other : (j == i) ≡ false
      other = ground (arith, differ)

  -- A write to the slot behind the newest.
  entries_behind :
      (slots : ℕ → Snapshot Mem) (base m n : ℕ) (s : Snapshot Mem)
      → m < rewind_slots
      → n ≤ m
      → entries (write_at slots ((base + m) % rewind_slots) s) base n ≡ entries slots base n
  entries_behind slots base m zero s inside below = refl
  entries_behind slots base m (suc n) s inside below =
      ap (λ x. x ∷ entries (write_at slots ((base + m) % rewind_slots) s) base n)
        (write_other slots ((base + m) % rewind_slots) ((base + n) % rewind_slots) s
          (λ e. omega (arith, e)))
      ∙ ap (λ xs. slots ((base + n) % rewind_slots) ∷ xs)
          (entries_behind slots base m n s inside (omega arith))

  -- All but the oldest.
  newer : (ℕ → Snapshot Mem) → ℕ → ℕ → List (Snapshot Mem)
  newer slots base zero = []
  newer slots base (suc n) = slots ((base + suc n) % rewind_slots) ∷ newer slots base n

  take-entries :
      (slots : ℕ → Snapshot Mem) (base n : ℕ)
      → take n (entries slots base (suc n)) ≡ newer slots base n
  unfolding newer
  take-entries slots base zero = refl
  take-entries slots base (suc n) =
      ap (λ xs. slots ((base + suc n) % rewind_slots) ∷ xs) (take-entries slots base n)

  entries_over :
      (slots : ℕ → Snapshot Mem) (base n : ℕ) (s : Snapshot Mem)
      → base < rewind_slots
      → n ≤ 5
      → entries (write_at slots base s) ((base + 1) % rewind_slots) n ≡ newer slots base n
  unfolding newer
  entries_over slots base zero s inside below = refl
  entries_over slots base (suc n) s inside below =
      ap (λ x. x ∷ entries (write_at slots base s) ((base + 1) % rewind_slots) n)
        (write_other slots base (((base + 1) % rewind_slots + n) % rewind_slots) s
            (λ e. omega (arith, e))
          ∙ ap slots (omega arith))
      ∙ ap (λ xs. slots ((base + suc n) % rewind_slots) ∷ xs)
          (entries_over slots base n s inside (omega arith))

  pub push-IsRing : (s : Snapshot Mem) (r : Snapshots Mem) → IsRing r → IsRing (push s r)
  unfolding push
  push-IsRing s r ring = elim (Bool-cases (r.ring_count == rewind_slots)) [
    | inl full ↦ rw full (record { base_inside = omega arith; count_inside = omega arith })
    | inr room ↦ rw room (record {
      base_inside = ring.base_inside;
      count_inside = ground (arith, room, ring.count_inside);
    })
  ]

  -- A snapshot is put before the others, and the seventh of them is forgotten.
  pub history-push :
      (s : Snapshot Mem) (r : Snapshots Mem)
      → IsRing r
      → history (push s r) ≡ take rewind_slots (s ∷ history r)
  unfolding push
  history-push s r ring = elim (Bool-cases (r.ring_count == rewind_slots)) [
    | inl full ↦
        let six : r.ring_count ≡ 6 = ground (arith, full) in
        let six' : r.ring_count - 1 + 1 ≡ 6 = omega (arith, six) in
        rw full (
          ap (entries (write_at r.slots r.ring_base s) ((r.ring_base + 1) % rewind_slots)) six'
          ∙ ap
              (λ x.
                x ∷ entries (write_at r.slots r.ring_base s) ((r.ring_base + 1) % rewind_slots) 5)
              (write_own r.slots r.ring_base (((r.ring_base + 1) % rewind_slots + 5) % rewind_slots)
                s (omega arith))
          ∙ ap (λ xs. s ∷ xs) (entries_over r.slots r.ring_base 5 s ring.base_inside (omega arith))
          ∙ ap (λ xs. s ∷ xs) (sym (take-entries r.slots r.ring_base 5))
          ∙ ap (λ n. take rewind_slots (s ∷ entries r.slots r.ring_base n)) (sym six))
    | inr room ↦
        let few : r.ring_count < 6 = ground (arith, room) in
        let more : r.ring_count + 1 ≡ suc r.ring_count = omega arith in
        rw room (
          ap (entries (write_at r.slots (slot_at r r.ring_count) s) r.ring_base) more
          ∙ ap
              (λ x.
                x ∷ entries (write_at r.slots (slot_at r r.ring_count) s) r.ring_base r.ring_count)
              (write_own r.slots (slot_at r r.ring_count) (slot_at r r.ring_count) s refl)
          ∙ ap (λ xs. s ∷ xs)
              (entries_behind r.slots r.ring_base r.ring_count r.ring_count s few (omega arith))
          ∙ sym (
              take_all rewind_slots (s ∷ history r)
                (omega (arith, few, length-entries r.slots r.ring_base r.ring_count))))
  ]

  -- The first snapshot of a history at or before a frame.
  abbrev pub first_until : ℕ → List (Snapshot Mem) → Option (Snapshot Mem)
  first_until target [] = none
  first_until target (s ∷ ss) = if leb s.frame target then some s else first_until target ss

  slot_found : Snapshots Mem → Option ℕ → Option (Snapshot Mem)
  slot_found r o = elim o [ none ↦ none | some slot ↦ some (r.slots slot) ]

  find_slot_lem :
      (n : ℕ) (r : Snapshots Mem) (target : ℕ)
      → slot_found r (find_slot n r target) ≡ first_until target (entries r.slots r.ring_base n)
  unfolding find_slot slot_found
  find_slot_lem zero r target = refl
  find_slot_lem (suc n) r target = elim (Bool-cases (leb (r.slots (slot_at r n)).frame target)) [
    | inl hit ↦ rw hit refl
    | inr miss ↦ rw miss (find_slot_lem n r target)
  ]

  -- The slot that `slot_for_frame` finds holds the newest snapshot at or before the frame.
  pub slot_for_frame-first_until :
      (r : Snapshots Mem) (target : ℕ) (s : Snapshot Mem)
      → first_until target (history r) ≡ some s
      → (slot : ℕ) × (slot_for_frame r target ≡ some slot) × (r.slots slot ≡ s)
  unfolding slot_found
  slot_for_frame-first_until r target s newest =
      by_search (slot_for_frame r target) refl (find_slot_lem r.ring_count r target ∙ newest)
    where
      by_search :
          (o : Option ℕ)
          → slot_for_frame r target ≡ o
          → slot_found r o ≡ some s
          → (slot : ℕ) × (slot_for_frame r target ≡ some slot) × (r.slots slot ≡ s)
      by_search none e found = cc
      by_search (some slot) e found = (slot, e, some-injective (r.slots slot) s found)

  get_elem?-entries :
      (slots : ℕ → Snapshot Mem) (base n i : ℕ)
      → i < n
      → get_elem? (entries slots base n) i ≡ some (slots ((base + n - 1 - i) % rewind_slots))
  get_elem?-entries slots base zero i inside = absurd (omega (arith, inside))
  get_elem?-entries slots base (suc n) zero inside =
      ap (λ j. some (slots (j % rewind_slots))) (omega arith)
  get_elem?-entries slots base (suc n) (suc i) inside =
      get_elem?-entries slots base n i (omega (arith, inside))
      ∙ ap (λ j. some (slots (j % rewind_slots))) (omega (arith, inside))

  drop-entries :
      (slots : ℕ → Snapshot Mem) (base n i : ℕ)
      → i ≤ n
      → entries slots base (n - i) ≡ drop i (entries slots base n)
  drop-entries slots base n zero below = ap (entries slots base) (monus_zero n)
    where
      monus_zero : (n : ℕ) → n - 0 ≡ n
      monus_zero n = omega arith
  drop-entries slots base zero (suc i) below = absurd (omega (arith, below))
  drop-entries slots base (suc n) (suc i) below =
      ap (entries slots base) (monus_suc n i) ∙ drop-entries slots base n i (omega (arith, below))
    where
      monus_suc : (n i : ℕ) → suc n - suc i ≡ n - i
      monus_suc n i = omega arith

  asked :
      (h : Here) (i : ℕ) (w : Rewind Mem)
      → w.enabled ≡ true
      → i < w.ring.ring_count
      → ℕ
      → Rewind Mem
  asked h i w on inside n =
      let s = w.ring.slots (slot_at w.ring n) in
      record w {
        memory = s.mem;
        present_counter = s.frame;
        tick_offset = sub_32 h.now s.vticks;
        presents_since_snap = 0;
        pop_n = 1;
        requested = true;
        ring = record w.ring { ring_count = n + 1 };
      }

  restore_lem :
      (h : Here) (i : ℕ) (w : Rewind Mem) (on : w.enabled ≡ true) (inside : i < w.ring.ring_count)
      → do_menu_restore h (request_restore i w)
        ≡ asked h i w on inside (w.ring.ring_count - (i + 1))
  unfolding do_menu_restore request_restore asked
  restore_lem h i w on inside = rw (serves, exact, some_left) refl
    where
      serves : (not w.enabled || w.ring.ring_count == 0) ≡ false
      serves = ground (arith, on, inside)

      exact : leb w.ring.ring_count i ≡ false
      exact = ground (arith, inside)

      some_left : (w.ring.ring_count == 0) ≡ false
      some_left = ground (arith, inside)

  -- The restore of the snapshot `i` from the menu gives the game the memory, the frame and the ticks
  -- of the snapshot, and forgets the newer ones, whatever `i` of those that there are.
  pub do_menu_restore-request_restore :
      (h : Here) (i : ℕ) (w : Rewind Mem)
      → w.enabled ≡ true
      → i < w.ring.ring_count
      → h.now < 2 ^ 32
      → (w.ring.slots (recent_slot w.ring i)).vticks < 2 ^ 32
      → let s = w.ring.slots (recent_slot w.ring i) in
        let w' = do_menu_restore h (request_restore i w) in
        (get_elem? (history w.ring) i ≡ some s)
        × (w'.memory ≡ s.mem)
        × (w'.present_counter ≡ s.frame)
        × (sub_32 h.now w'.tick_offset ≡ s.vticks)
        × (history w'.ring ≡ drop i (history w.ring))
  unfolding asked
  do_menu_restore-request_restore h i w on inside in_word small =
      let same : slot_at w.ring (w.ring.ring_count - (i + 1)) ≡ recent_slot w.ring i =
        omega (arith, inside) in
      let done = restore_lem h i w on inside in
      let left : w.ring.ring_count - (i + 1) + 1 ≡ w.ring.ring_count - i = omega (arith, inside) in
      (
        get_elem?-entries w.ring.slots w.ring.ring_base w.ring.ring_count i inside,
        ap (λ x. x.memory) done ∙ ap (λ j. (w.ring.slots j).mem) same,
        ap (λ x. x.present_counter) done ∙ ap (λ j. (w.ring.slots j).frame) same,
        ap (λ x. sub_32 h.now x.tick_offset) done
            ∙ ap (λ j. sub_32 h.now (sub_32 h.now (w.ring.slots j).vticks)) same
            ∙ back_again h.now _ in_word small,
        ap (λ x. history x.ring) done
            ∙ ap (entries w.ring.slots w.ring.ring_base) left
            ∙ drop-entries w.ring.slots w.ring.ring_base w.ring.ring_count i
                (omega (arith, inside)),
      )
    where
      back_again : (now v : ℕ) → now < 2 ^ 32 → v < 2 ^ 32 → sub_32 now (sub_32 now v) ≡ v
      back_again now v h h' = omega arith
