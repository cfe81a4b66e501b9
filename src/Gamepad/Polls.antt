-- ===== src/Gamepad/Polls.antt =====
-- What a poll delivers: the buttons that are held, and each press once.
use arcade_os.Base.{
  ℕ, ◌≤◌, ◌≡◌, ◌∙◌, refl, ap, Bool, false, not, ◌&&◌, ◌||◌, List, [], ◌∷◌, ltb, ◌==◌, arith,
}
use arcade_os.Gamepad.{
  Mask, PadState, Gamepads, num_sources, empty_pad, assigned, merge_source, sources, merge_sources,
  get_state,
}

-- The source feeds the slot and is there.
abbrev pub feeds : Gamepads → ℕ → ℕ → Bool
feeds g slot s = assigned g slot s && (g.raw s).connected

-- Some source in the list feeds the slot with the button held, or latched.
abbrev pub pressed : Gamepads → ℕ → List ℕ → Mask
pressed g slot [] b = false
pressed g slot (s ∷ ss) b =
    feeds g slot s && ((g.raw s).buttons b || g.src_latch s b) || pressed g slot ss b

merge_source-latch :
    (slot s : ℕ) (out : PadState) (g : Gamepads) (t b : ℕ)
    → (merge_source slot s out g).1.src_latch t b
      ≡ (g.src_latch t b && not (t == s && feeds g slot s))
unfolding merge_source
merge_source-latch slot s out g t b = ground arith

merge_source-buttons :
    (slot s : ℕ) (out : PadState) (g : Gamepads) (b : ℕ)
    → (merge_source slot s out g).0.buttons b
      ≡ (out.buttons b || feeds g slot s && ((g.raw s).buttons b || g.src_latch s b))
unfolding merge_source
merge_source-buttons slot s out g b = ground arith

merge_source-raw :
    (slot s : ℕ) (out : PadState) (g : Gamepads)
    → ((merge_source slot s out g).1.raw ≡ g.raw)
      × ((merge_source slot s out g).1.assignment ≡ g.assignment)
unfolding merge_source
merge_source-raw slot s out g = ground arith

-- The two states agree but for the latches, and the second has the latch of `s` cleared.
abbrev Clears : ℕ → ℕ → Gamepads → Gamepads → Type 0
Clears slot s g g' =
    ((t b : ℕ) → (g'.raw t).buttons b ≡ (g.raw t).buttons b)
    × ((t : ℕ) → feeds g' slot t ≡ feeds g slot t)
    × ((t b : ℕ) → g'.src_latch t b ≡ (g.src_latch t b && not (t == s && feeds g slot s)))

merge_source-Clears :
    (slot s : ℕ) (out : PadState) (g : Gamepads) → Clears slot s g (merge_source slot s out g).1
unfolding merge_source
merge_source-Clears slot s out g = ((λ t b. ground arith), (λ t. ground arith), λ t b. ground arith)

pressed_cleared :
    (slot s : ℕ) (g g' : Gamepads) (ss : List ℕ) (b : ℕ)
    → Clears slot s g g'
    → (feeds g slot s && ((g.raw s).buttons b || g.src_latch s b) || pressed g' slot ss b)
      ≡ (feeds g slot s && ((g.raw s).buttons b || g.src_latch s b) || pressed g slot ss b)
pressed_cleared slot s g g' [] b c = refl
pressed_cleared slot s g g' (t ∷ ss) b (held, fed, latch) =
    ground
      (arith, pressed_cleared slot s g g' ss b (held, fed, latch), held t b, fed t, latch t b, same)
  where
    same :
        t ≡ s
        → (feeds g slot t ≡ feeds g slot s)
          × ((g.raw t).buttons b ≡ (g.raw s).buttons b)
          × (g.src_latch t b ≡ g.src_latch s b)
    same e = (ap (feeds g slot) e, ap (λ x. (g.raw x).buttons b) e, ap (λ x. g.src_latch x b) e)

-- What is in the list, as a test.
abbrev member : ℕ → List ℕ → Bool
member t [] = false
member t (s ∷ ss) = t == s || member t ss

-- What the rounds for the sources in the list do.
abbrev Merges : ℕ → List ℕ → PadState → Gamepads → PadState × Gamepads → Type 0
Merges slot ss out g (out', g') =
    ((b : ℕ) → out'.buttons b ≡ (out.buttons b || pressed g slot ss b))
    × ((t b : ℕ) → (g'.raw t).buttons b ≡ (g.raw t).buttons b)
    × ((t : ℕ) → feeds g' slot t ≡ feeds g slot t)
    × ((t b : ℕ) → g'.src_latch t b ≡ (g.src_latch t b && not (member t ss && feeds g slot t)))

merge_sources-Merges :
    (slot : ℕ) (ss : List ℕ) (out : PadState) (g : Gamepads)
    → Merges slot ss out g (merge_sources slot ss out g)
unfolding merge_sources
merge_sources-Merges slot [] out g =
    ((λ b. ground arith), (λ t b. refl), (λ t. refl), λ t b. ground arith)
merge_sources-Merges slot (s ∷ ss) out g =
    let step = merge_source slot s out g in
    let (held, fed, latch) = merge_source-Clears slot s out g in
    let (buttons', held', fed', latch') = merge_sources-Merges slot ss step.0 step.1 in
    (
      (λ b. ground (
        arith,
        buttons' b,
        merge_source-buttons slot s out g b,
        pressed_cleared slot s g step.1 ss b (held, fed, latch),
      )),
      (λ t b. held' t b ∙ held t b),
      (λ t. fed' t ∙ fed t),
      λ t b. ground (arith, latch' t b, latch t b, fed t, same t),
    )
  where
    same : (t : ℕ) → t ≡ s → feeds g slot t ≡ feeds g slot s
    same t e = ap (feeds g slot) e

-- The poll's answer and the state after it, for every button and source.
abbrev pub Delivers : ℕ → Gamepads → PadState × Gamepads → Type 0
Delivers slot g (out, g') =
    ((b : ℕ) → out.buttons b ≡ pressed g slot sources b)
    × ((t b : ℕ) → (g'.raw t).buttons b ≡ (g.raw t).buttons b)
    × ((t : ℕ) → feeds g' slot t ≡ feeds g slot t)
    × ((t b : ℕ)
        → g'.src_latch t b ≡ (g.src_latch t b && not (ltb t num_sources && feeds g slot t)))

-- A poll of player 1 or 2 delivers the buttons that some source of the slot holds or has latched,
-- and no other. It clears the latches of those sources, and no other, and leaves the held buttons
-- and the assignment as they are.
pub get_state-Delivers : (slot : ℕ) (g : Gamepads) → slot ≤ 1 → Delivers slot g (get_state slot g)
unfolding get_state
get_state-Delivers slot g player =
    let (buttons, held, fed, latch) = merge_sources-Merges slot sources empty_pad g in
    rw (a_player slot player) ((λ b. buttons b), held, fed, λ t b. ground (arith, latch t b))
  where
    a_player : (n : ℕ) → n ≤ 1 → ltb 1 n ≡ false
    a_player n h = ground arith
