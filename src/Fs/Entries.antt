-- ===== src/Fs/Entries.antt =====
-- Looking for an entry after another has been written.
use mathlib.Core.Option.{some-injective}
use arcade_os.Base.{
  ℕ, zero, suc, ◌<◌, ◌≡◌, ◌≢◌, ◌∙◌, ◌⊎◌, inl, inr, refl, sym, subst, Bool, true, false, none, some,
  List, [], ◌∷◌, arith, length, get_or, set, Bool-cases,
}
use arcade_os.Session.{same_string}
use arcade_os.Session.Scores.{same_string-eq}
use arcade_os.Fs.{File, find_first, no_file, is_file_at, is_entry}

module _ (p : File → Bool) where
  -- The entry `i` is the first of its kind.
  abbrev pub First : List File → ℕ → Type 0
  First [] i = zero ≡ suc zero
  First (f ∷ fs) zero = p f ≡ true
  First (f ∷ fs) (suc i) = (p f ≡ false) × First fs i

  abbrev pub Absent : List File → Type 0
  Absent [] = Unit
  Absent (f ∷ fs) = (p f ≡ false) × Absent fs

  abbrev pub Searched : List File → Type 0
  Searched fs =
      ((find_first p fs ≡ none) × Absent fs) ⊎ ((i : ℕ) × ((find_first p fs ≡ some i) × First fs i))

  pub find_first-First : (fs : List File) (i : ℕ) → First fs i → find_first p fs ≡ some i
  unfolding find_first
  find_first-First [] i first = absurd (omega (arith, first))
  find_first-First (f ∷ fs) zero here = rw here refl
  find_first-First (f ∷ fs) (suc i) (other, first) = rw (other, find_first-First fs i first) refl

  find_first-Absent : (fs : List File) → Absent fs → find_first p fs ≡ none
  unfolding find_first
  find_first-Absent [] absent = refl
  find_first-Absent (f ∷ fs) (other, absent) = rw (other, find_first-Absent fs absent) refl

  find_first-Searched : (fs : List File) → Searched fs
  find_first-Searched [] = inl (find_first-Absent [] tt, tt)
  find_first-Searched (f ∷ fs) = elim (Bool-cases (p f)) [
    | inl here ↦ inr (0, (find_first-First (f ∷ fs) 0 here, here))
    | inr other ↦ elim (find_first-Searched fs) [
      | inl (e, absent) ↦ inl (find_first-Absent (f ∷ fs) (other, absent), (other, absent))
      | inr (i, (e, first)) ↦
          inr (suc i, (find_first-First (f ∷ fs) (suc i) (other, first), (other, first)))
    ]
  ]

  pub found-First : (fs : List File) (i : ℕ) → find_first p fs ≡ some i → First fs i
  found-First fs i found = elim (find_first-Searched fs) [
    | inl (e, absent) ↦ cc
    | inr (j, (e, first)) ↦ subst (First fs) (some-injective j i (sym e ∙ found)) first
  ]

  pub found_none : (fs : List File) → find_first p fs ≡ none → Absent fs
  found_none fs lacking = elim (find_first-Searched fs) [
    | inl (e, absent) ↦ absent
    | inr (j, (e, first)) ↦ cc
  ]

  pub First-inside : (fs : List File) (i : ℕ) → First fs i → i < length fs
  First-inside [] i first = absurd (omega (arith, first))
  First-inside (f ∷ fs) zero here = omega arith
  First-inside (f ∷ fs) (suc i) (other, first) = omega (arith, First-inside fs i first)

  pub First-holds : (fs : List File) (i : ℕ) → First fs i → p (get_or fs i no_file) ≡ true
  First-holds [] i first = absurd (omega (arith, first))
  First-holds (f ∷ fs) zero here = here
  First-holds (f ∷ fs) (suc i) (other, first) = First-holds fs i first

  -- The write of an entry that is not looked for over one that is not.
  pub find_first-set :
      (fs : List File) (i : ℕ) (f : File)
      → p (get_or fs i no_file) ≡ false
      → p f ≡ false
      → find_first p (set fs i f) ≡ find_first p fs
  unfolding find_first
  find_first-set [] i f old new = refl
  find_first-set (g ∷ fs) zero f old new = rw (old, new) refl
  find_first-set (g ∷ fs) (suc i) f old new = rw (find_first-set fs i f old new) refl

  pub Absent-set_new :
      (fs : List File) (i : ℕ) (f : File)
      → i < length fs
      → Absent fs
      → p f ≡ true
      → First (set fs i f) i
  Absent-set_new [] i f inside absent new = elim inside [ ]
  Absent-set_new (g ∷ fs) zero f inside absent new = new
  Absent-set_new (g ∷ fs) (suc i) f inside (other, absent) new =
      (other, Absent-set_new fs i f (omega (arith, inside)) absent new)

  pub First-set_same :
      (fs : List File) (i : ℕ) (f : File) → First fs i → p f ≡ true → First (set fs i f) i
  First-set_same [] i f first new = first
  First-set_same (g ∷ fs) zero f first new = new
  First-set_same (g ∷ fs) (suc i) f (other, first) new = (other, First-set_same fs i f first new)

  -- A write behind the first of its kind.
  pub First-set_later :
      (fs : List File) (i j : ℕ) (f : File) → First fs j → j < i → First (set fs i f) j
  First-set_later [] i j f first later = first
  First-set_later (g ∷ fs) zero j f first later = elim later [ ]
  First-set_later (g ∷ fs) (suc i) zero f first later = first
  First-set_later (g ∷ fs) (suc i) (suc j) f (other, first) later =
      (other, First-set_later fs i j f first (omega (arith, later)))

-- The first entry of a path, when it goes, leaves none if no other has the path.
pub Absent-set :
    (p : File → Bool) (fs : List File) (i : ℕ) (f : File)
    → First p fs i
    → ((j : ℕ) → i ≢ j → p (get_or fs j no_file) ≡ false)
    → p f ≡ false
    → Absent p (set fs i f)
Absent-set p [] i f first only gone = tt
Absent-set p (g ∷ fs) zero f first only gone = (gone, rest fs (λ j. only (suc j) (omega arith)))
  where
    rest : (fs : List File) → ((j : ℕ) → p (get_or fs j no_file) ≡ false) → Absent p fs
    rest [] none_left = tt
    rest (g ∷ fs) none_left = (none_left 0, rest fs (λ j. none_left (suc j)))
Absent-set p (g ∷ fs) (suc i) f (other, first) only gone =
    (other, Absent-set p fs i f first (λ j h. only (suc j) (omega (arith, h))) gone)

pub First-only :
    (p : File → Bool) (fs : List File) (i : ℕ)
    → i < length fs
    → p (get_or fs i no_file) ≡ true
    → ((j : ℕ) → i ≢ j → p (get_or fs j no_file) ≡ false)
    → First p fs i
First-only p [] i inside here only = elim inside [ ]
First-only p (f ∷ fs) zero inside here only = here
First-only p (f ∷ fs) (suc i) inside here only = (
  only 0 (omega arith),
  First-only p fs i (omega (arith, inside)) here (λ j h. only (suc j) (omega (arith, h))),
)

pub get_or-set_ne :
    (fs : List File) (i j : ℕ) (f : File)
    → j < i
    → get_or (set fs i f) j no_file ≡ get_or fs j no_file
get_or-set_ne [] i j f later = refl
get_or-set_ne (g ∷ fs) zero j f later = elim later [ ]
get_or-set_ne (g ∷ fs) (suc i) zero f later = refl
get_or-set_ne (g ∷ fs) (suc i) (suc j) f later = get_or-set_ne fs i j f (omega (arith, later))

pub is_entry-is_file_at :
    (path : List ℕ) (f : File) → is_file_at path f ≡ true → is_entry path f ≡ true
unfolding is_file_at is_entry
is_entry-is_file_at path f h = ground (arith, h)

pub is_file_at-is_entry :
    (path : List ℕ) (f : File) → is_entry path f ≡ false → is_file_at path f ≡ false
unfolding is_file_at is_entry
is_file_at-is_entry path f h = ground (arith, h)

-- A file of one path is not of another.
pub is_file_at-other :
    (path other : List ℕ) (f : File)
    → same_string path other ≡ false
    → is_file_at path f ≡ true
    → is_file_at other f ≡ false
unfolding is_file_at
is_file_at-other path other f differ here =
    rw (same_string-eq f.path path (ground (arith, here)), differ) (ground arith)
