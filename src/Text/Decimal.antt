-- ===== src/Text/Decimal.antt =====
-- The text that num_to_str gives reads back as the number.
use native.Mathlib.Numerals.{unary_clauses}
use arcade_os.Base.{
  dec_lt, All, ltb, some, ◌⊎◌, Bool, ℕ, zero, suc, ◌+◌, ◌-◌, ◌*◌, ◌/◌, ◌^◌, ◌≤◌, ◌<◌, ◌≡◌, ◌∙◌,
  refl, ap, true, false, List, [], ◌∷◌, ◌++◌, ◌==◌, if◌then◌else◌, replicate, length, length-append,
  length-replicate, arith, Bool-cases, inl, inr, length,
}
use arcade_os.Text.{temp_size, digits, all_digits, padded, backwards, num_to_str}

-- The number that decimal digits stand for, the first one the highest.
abbrev pub read_decimal : ℕ → List ℕ → ℕ
read_decimal acc [] = acc
read_decimal acc (c ∷ cs) = read_decimal (acc * 10 + (c - 48)) cs

-- The same, the first digit the lowest.
abbrev value : List ℕ → ℕ
value [] = 0
value (c ∷ cs) = c - 48 + 10 * value cs

read_decimal-append :
    (acc : ℕ) (cs ds : List ℕ) → read_decimal acc (cs ++ ds) ≡ read_decimal (read_decimal acc cs) ds
read_decimal-append acc [] ds = refl
read_decimal-append acc (c ∷ cs) ds = read_decimal-append (acc * 10 + (c - 48)) cs ds

read_decimal-backwards : (cs : List ℕ) → read_decimal 0 (backwards cs) ≡ value cs
unfolding backwards
read_decimal-backwards [] = refl
read_decimal-backwards (c ∷ cs) =
    read_decimal-append 0 (backwards cs) (c ∷ []) ∙ omega (arith, read_decimal-backwards cs)

length-backwards : (cs : List ℕ) → length (backwards cs) ≡ length cs
unfolding backwards
length-backwards [] = refl
length-backwards (c ∷ cs) =
    omega (arith, length-append (backwards cs) (c ∷ []), length-backwards cs)

value-zeros : (n : ℕ) → value (replicate n 48) ≡ 0
value-zeros zero = refl
value-zeros (suc n) = omega (arith, value-zeros n)

value-padded : (cs : List ℕ) (n : ℕ) → value (cs ++ replicate n 48) ≡ value cs
value-padded [] n = value-zeros n
value-padded (c ∷ cs) n = omega (arith, value-padded cs n)

value-digits : (fuel num : ℕ) → num < 10 ^ fuel → value (digits fuel num) ≡ num
unfolding digits
value-digits zero num h = omega arith
value-digits (suc fuel) num h =
    let rest = value-digits fuel (num / 10) (omega (arith, pow fuel)) in
    elim (Bool-cases (num == 0)) [
      | inl nothing ↦ rw nothing (ground (arith, nothing))
      | inr some_digit ↦ rw some_digit (omega (arith, rest))
    ]
  where
    pow : (n : ℕ) → 10 ^ suc n ≡ 10 * 10 ^ n
    pow n = simp unary_clauses (omega arith)

value-all_digits : (num : ℕ) → num < 2 ^ 32 → value (all_digits num) ≡ num
unfolding all_digits
value-all_digits num small =
    value-if (num == 0) (digits 10 num)
    ∙ ap (λ v. if num == 0 then 0 else v) (value-digits 10 num (omega arith))
    ∙ nothing num
  where
    value-if :
        (b : Bool) (ds : List ℕ) → value (if b then 48 ∷ [] else ds) ≡ (if b then 0 else value ds)
    value-if true ds = refl
    value-if false ds = refl

    nothing : (n : ℕ) → (if n == 0 then 0 else n) ≡ n
    nothing n = ground arith

-- Decimal digits and nothing else.
abbrev pub AllDigits : List ℕ → Type 0
AllDigits cs = All (λ c. (48 ≤ c) × (c < 58)) cs

digits-AllDigits : (fuel num : ℕ) → AllDigits (digits fuel num)
unfolding digits
digits-AllDigits zero num = tt
digits-AllDigits (suc fuel) num = elim (Bool-cases (num == 0)) [
  | inl nothing ↦ rw nothing tt
  | inr some_digit ↦ rw some_digit ((omega arith, omega arith), digits-AllDigits fuel (num / 10))
]

all_digits-AllDigits : (num : ℕ) → AllDigits (all_digits num)
unfolding all_digits
all_digits-AllDigits num = by_test (num == 0) (digits 10 num) (digits-AllDigits 10 num)
  where
    by_test : (b : Bool) (ds : List ℕ) → AllDigits ds → AllDigits (if b then 48 ∷ [] else ds)
    by_test true ds a = ((omega arith, omega arith), tt)
    by_test false ds a = a

length-digits : (fuel num : ℕ) → length (digits fuel num) ≤ fuel
unfolding digits
length-digits zero num = omega arith
length-digits (suc fuel) num = elim (Bool-cases (num == 0)) [
  | inl nothing ↦ rw nothing (omega arith)
  | inr some_digit ↦ rw some_digit (omega (arith, length-digits fuel (num / 10)))
]

length-all_digits : (num : ℕ) → length (all_digits num) ≤ 10
unfolding all_digits
length-all_digits num = by_test (num == 0) (digits 10 num) (length-digits 10 num)
  where
    by_test : (b : Bool) (ds : List ℕ) → length ds ≤ 10 → length (if b then 48 ∷ [] else ds) ≤ 10
    by_test true ds short = omega arith
    by_test false ds short = short

AllDigits-append : (cs ds : List ℕ) → AllDigits cs → AllDigits ds → AllDigits (cs ++ ds)
AllDigits-append [] ds a b = b
AllDigits-append (c ∷ cs) ds (first, a) b = (first, AllDigits-append cs ds a b)

AllDigits-zeros : (n : ℕ) → AllDigits (replicate n 48)
AllDigits-zeros zero = tt
AllDigits-zeros (suc n) = ((omega arith, omega arith), AllDigits-zeros n)

backwards-AllDigits : (cs : List ℕ) → AllDigits cs → AllDigits (backwards cs)
unfolding backwards
backwards-AllDigits [] a = tt
backwards-AllDigits (c ∷ cs) (first, a) =
    AllDigits-append (backwards cs) (c ∷ []) (backwards-AllDigits cs a) (first, tt)

-- For every 32-bit number, and for at most 20 digits, which is what fits in the buffer, `num_to_str`
-- gives a text of decimal digits that reads back as the number and has at least `min_digits` of
-- them, and no more than that or 10.
pub num_to_str-read_decimal :
    (num min_digits : ℕ)
    → num < 2 ^ 32
    → min_digits ≤ 20
    → (s : List ℕ) × (num_to_str num min_digits ≡ some s)
      × AllDigits s
      × (read_decimal 0 s ≡ num)
      × (min_digits ≤ length s)
      × ((length s ≤ min_digits) ⊎ (length s ≤ 10))
unfolding num_to_str padded
num_to_str-read_decimal num min_digits small fits = (
  backwards (all_digits num ++ replicate (min_digits - length (all_digits num)) 48),
  rw room refl,
  backwards-AllDigits _
      (AllDigits-append (all_digits num) _ (all_digits-AllDigits num) (AllDigits-zeros _)),
  read_decimal-backwards _ ∙ value-padded (all_digits num) _ ∙ value-all_digits num small,
  omega (arith, long (all_digits num)),
  bounded (length (all_digits num)) (length-all_digits num) (long (all_digits num)),
)
  where
    room : ltb temp_size min_digits ≡ false
    room = ground (arith, fits)

    bounded : (d : ℕ) {l : ℕ} → d ≤ 10 → l ≡ d + (min_digits - d) → (l ≤ min_digits) ⊎ (l ≤ 10)
    bounded d few e = elim (dec_lt d min_digits) [
      | yes less ↦ inl (omega (arith, e, less))
      | no more ↦ inr (omega (arith, e, more, few))
    ]

    long :
        (cs : List ℕ)
        → length (backwards (cs ++ replicate (min_digits - length cs) 48))
          ≡ length cs + (min_digits - length cs)
    long cs = omega (
      arith,
      length-backwards (cs ++ replicate (min_digits - length cs) 48),
      length-append cs (replicate (min_digits - length cs) 48),
      length-replicate {A = ℕ} (min_digits - length cs) 48,
    )
