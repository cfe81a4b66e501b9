-- ===== src/Session/Scores.antt =====
-- The scoreboard as a map from a game and a user to their best score.
use mathlib.Core.Option
use mathlib.Core.Option.{some-ne-none}
use arcade_os.Base.{
  ℕ, zero, suc, ◌+◌, ◌≤◌, ◌<◌, ◌≡◌, ◌∙◌, inl, inr, refl, sym, ap, true, false, ◌&&◌, Option, none,
  some, List, [], ◌∷◌, ◌++◌, ltb, if◌then◌else◌, get_or, set, length, arith, Bool-cases, OnSome,
  OnSome-map, OnSome-imp,
}
use mathlib.Core.Path.{ap₂}
use arcade_os.Session.{Entry, same_string, is_for, find_entry, lowest_from, lowest, no_entry}

-- The score that the board has for the game and the user; 0 if it has none.
pub best : List ℕ → List ℕ → List Entry → ℕ
best game user [] = 0
best game user (e ∷ es) = if is_for game user e then e.score else best game user es

pub same_string_refl : (s : List ℕ) → same_string s s ≡ true
unfolding same_string
same_string_refl [] = refl
same_string_refl (c ∷ cs) = ground (arith, same_string_refl cs)

abbrev pub Found : List ℕ → List ℕ → List Entry → ℕ → Type 0
Found game user es i =
    (i < length es)
    × (is_for game user (get_or es i no_entry) ≡ true)
    × (best game user es ≡ (get_or es i no_entry).score)
    × ((e : Entry) → is_for game user e ≡ true → best game user (set es i e) ≡ e.score)

pub find_entry-Found :
    (game user : List ℕ) (es : List Entry) → OnSome (Found game user es) (find_entry game user es)
unfolding find_entry best
find_entry-Found game user [] = tt
find_entry-Found game user (e ∷ es) = elim (Bool-cases (is_for game user e)) [
  | inl mine ↦ rw mine (omega arith, mine, ground (arith, mine), λ e' mine'. ground (arith, mine'))
  | inr other ↦ rw other (
      OnSome-map (Found game user (e ∷ es)) suc (find_entry game user es) (
        OnSome-imp (Found game user es) _ (find_entry game user es)
          (λ i (inside, at, score, writes). (
            omega arith,
            at,
            ground (arith, other, score),
            λ e' mine'. ground (arith, other, writes e' mine'),
          ))
          (find_entry-Found game user es)))
]

-- A write to a slot whose entry is for somebody else, by an entry that is too.
pub best-set_other :
    (game user : List ℕ) (es : List Entry) (i : ℕ) (new : Entry)
    → is_for game user (get_or es i no_entry) ≡ is_for game user new
    → is_for game user new ≡ false
    → best game user (set es i new) ≡ best game user es
unfolding best
best-set_other game user [] i new same other = refl
best-set_other game user (e ∷ es) zero new same other = ground (arith, same, other)
best-set_other game user (e ∷ es) (suc i) new same other =
    ground (arith, best-set_other game user es i new same other)

suc-none : (o : Option ℕ) → Option.map suc o ≡ none → o ≡ none
suc-none none e = refl
suc-none (some i) e = cc

find_entry-none :
    (game user : List ℕ) (e : Entry) (es : List Entry)
    → find_entry game user (e ∷ es) ≡ none
    → (is_for game user e ≡ false) × (find_entry game user es ≡ none)
unfolding find_entry
find_entry-none game user e es gone = elim (Bool-cases (is_for game user e)) [
  | inl mine ↦ absurd (some-ne-none 0 (rw mine at gone))
  | inr other ↦ (other, suc-none _ (rw other at gone))
]

-- Nobody has an entry for the game and the user.
abbrev pub Missing : List ℕ → List ℕ → List Entry → Entry → Type 0
Missing game user es new =
    (best game user es ≡ 0)
    × (best game user (es ++ new ∷ []) ≡ new.score)
    × ((i : ℕ)
        → i < length es
        → (best game user (set es i new) ≡ new.score)
          × (is_for game user (get_or es i no_entry) ≡ false))

pub best-Missing :
    (game user : List ℕ) (es : List Entry) (new : Entry)
    → find_entry game user es ≡ none
    → is_for game user new ≡ true
    → Missing game user es new
unfolding best
best-Missing game user [] new gone mine = (refl, ground (arith, mine), λ i h. absurd (omega arith))
best-Missing game user (e ∷ es) new gone mine =
    let (other, gone') = find_entry-none game user e es gone in
    let (zero_best, behind, at) = best-Missing game user es new gone' mine in
    (ground (arith, other, zero_best), ground (arith, other, behind), by_index other at)
  where
    by_index :
        is_for game user e ≡ false
        → ((i : ℕ)
            → i < length es
            → (best game user (set es i new) ≡ new.score)
              × (is_for game user (get_or es i no_entry) ≡ false))
        → (i : ℕ) → i < suc (length es)
        → (best game user (set (e ∷ es) i new) ≡ new.score)
          × (is_for game user (get_or (e ∷ es) i no_entry) ≡ false)
    by_index other at zero h = (ground (arith, mine), other)
    by_index other at (suc i) h =
        (ground (arith, other, (at i (omega arith)).0), (at i (omega arith)).1)

pub best-append_other :
    (game user : List ℕ) (es : List Entry) (new : Entry)
    → is_for game user new ≡ false
    → best game user (es ++ new ∷ []) ≡ best game user es
unfolding best
best-append_other game user [] new other = ground (arith, other)
best-append_other game user (e ∷ es) new other =
    ground (arith, best-append_other game user es new other)

-- The lowest entry: no score on the board is below it.
lowest_from-Low :
    (all es : List Entry) (i at low : ℕ)
    → at < length all
    → (get_or all at no_entry).score ≡ low
    → i + length es ≡ length all
    → ((j : ℕ) → get_or es j no_entry ≡ get_or all (i + j) no_entry)
    → ((j : ℕ) → j < i → low ≤ (get_or all j no_entry).score)
    → (lowest_from es i at low < length all)
      × ((j : ℕ)
          → j < length all
          → (get_or all (lowest_from es i at low) no_entry).score ≤ (get_or all j no_entry).score)
unfolding lowest_from
lowest_from-Low all [] i at low inside is_low n same below =
    (inside, λ j h. omega (arith, is_low, below j (omega arith)))
lowest_from-Low all (e ∷ es) i at low inside is_low n same below =
    elim (Bool-cases (ltb e.score low)) [
      | inl lower ↦ rw lower (
          lowest_from-Low all es (i + 1) i e.score (omega arith) (sym (ap (λ x. x.score) here))
            (omega arith) shifted (λ j h. ground (arith, lower, below j, here_at j)))
      | inr higher ↦ rw higher (
          lowest_from-Low all es (i + 1) at low inside is_low (omega arith) shifted
            (λ j h. ground (arith, higher, below j, here_at j)))
    ]
  where
    at_index : {j k : ℕ} → j ≡ k → get_or all j no_entry ≡ get_or all k no_entry
    at_index e = ap (λ k. get_or all k no_entry) e

    here : e ≡ get_or all i no_entry
    here = same 0 ∙ at_index (omega arith)

    here_at : (j : ℕ) → j ≡ i → (get_or all j no_entry).score ≡ e.score
    here_at j at = ap (λ x. x.score) (at_index at ∙ sym here)

    shifted : (j : ℕ) → get_or es j no_entry ≡ get_or all (i + 1 + j) no_entry
    shifted j = same (suc j) ∙ at_index (omega arith)

pub lowest-Low :
    (es : List Entry)
    → 0 < length es
    → (lowest es < length es)
      × ((j : ℕ)
          → j < length es
          → (get_or es (lowest es) no_entry).score ≤ (get_or es j no_entry).score)
unfolding lowest
lowest-Low [] h = absurd (omega arith)
lowest-Low (e ∷ es) h =
    lowest_from-Low (e ∷ es) es 1 0 e.score (omega arith) refl (omega arith)
      (λ j. ap (λ k. get_or (e ∷ es) k no_entry) (one_before j)) (λ j h. ground (arith, first j))
  where
    one_before : (j : ℕ) → suc j ≡ 1 + j
    one_before j = omega arith

    first : (j : ℕ) → j ≡ 0 → (get_or (e ∷ es) j no_entry).score ≡ e.score
    first j at = ap (λ k. (get_or (e ∷ es) k no_entry).score) at

pub same_string-eq : (s t : List ℕ) → same_string s t ≡ true → s ≡ t
unfolding same_string
same_string-eq [] [] h = refl
same_string-eq [] (t ∷ ts) h = cc
same_string-eq (s ∷ ss) [] h = cc
same_string-eq (s ∷ ss) (t ∷ ts) h =
    ap₂ (λ x xs. x ∷ xs) (ground (arith, h)) (same_string-eq ss ts (ground (arith, h)))

-- An entry is for one game and one user.
pub is_for-same :
    (g u game user : List ℕ) (e : Entry) (score : ℕ)
    → is_for game user e ≡ true
    → is_for g u e ≡ is_for g u (record { game = game; user = user; score = score })
unfolding is_for
is_for-same g u game user e score mine =
    ap₂ (λ x y. same_string x g && same_string y u)
      (same_string-eq e.game game (ground (arith, mine)))
      (same_string-eq e.user user (ground (arith, mine)))

pub is_for-score :
    (g u : List ℕ) (e : Entry) (score : ℕ) → is_for g u (record e { score = score }) ≡ is_for g u e
unfolding is_for
is_for-score g u e score = refl

pub is_for-own :
    (game user : List ℕ) (score : ℕ)
    → is_for game user (record { game = game; user = user; score = score }) ≡ true
unfolding is_for
is_for-own game user score = ground (arith, same_string_refl game, same_string_refl user)
