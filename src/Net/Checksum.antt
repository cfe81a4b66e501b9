-- ===== src/Net/Checksum.antt =====
-- The checksum of the headers, checksum16 of src/net.c.
use arcade_os.Base.{
  ℕ, zero, suc, ◌+◌, ◌-◌, ◌*◌, ◌/◌, ◌%◌, ◌^◌, ◌≤◌, ◌<◌, ◌≡◌, ◌∙◌, refl, ap, List, [], ◌∷◌, ◌++◌,
  ◌==◌, if◌then◌else◌, arith, length, Bool-cases, inl, inr,
}

-- The sum of the 16-bit words, the high byte first.
unfoldable pub sum_words : List ℕ → ℕ → ℕ
sum_words [] sum = sum
sum_words (p ∷ []) sum = (sum + p * 256) % 2 ^ 32
sum_words (p ∷ q ∷ rest) sum = sum_words rest ((sum + (p * 256 + q)) % 2 ^ 32)

-- The carries, on fuel: two rounds leave 16 bits of 32.
unfoldable pub fold_carries : ℕ → ℕ → ℕ
fold_carries zero sum = sum
fold_carries (suc fuel) sum =
    let rest = fold_carries fuel (sum % 2 ^ 16 + sum / 2 ^ 16) in
    if sum / 2 ^ 16 == 0 then sum else rest

unfoldable pub checksum16 : List ℕ → ℕ → ℕ
unfolding sum_words fold_carries
checksum16 bytes start = 2 ^ 16 - 1 - fold_carries 2 (sum_words bytes start) % 2 ^ 16

-- What the loop leaves: 16 bits, congruent to the sum, 0 for 0 only, and no more than it.
abbrev pub Folded : ℕ → ℕ → Type 0
Folded s f = (f < 2 ^ 16) × ((f % 65535 ≡ s % 65535) × ((0 < s → 0 < f) × (f ≤ s)))

fold_carries-Folded : (s : ℕ) → s < 2 ^ 32 → Folded s (fold_carries 2 s)
unfolding fold_carries
fold_carries-Folded s inside = (
  ground (arith, inside),
  (ground (arith, inside), (ground (arith, inside), ground (arith, inside))),
)

-- The complement of what is left of a sum, added to it, leaves all ones.
complement :
    (s f g : ℕ)
    → Folded s f
    → Folded (s + (2 ^ 16 - 1 - f % 2 ^ 16)) g
    → 2 ^ 16 - 1 - g % 2 ^ 16 ≡ 0
complement s f g (short, (same, (positive, below))) (short', (same', (positive', below'))) =
    omega (arith, short, same, below, short', same', below', some_bits)
  where
    some_bits : 0 < g
    some_bits = positive' (elim (Bool-cases (s == 0)) [
      | inl empty ↦ ground (arith, empty, below)
      | inr other ↦ ground (arith, other)
    ])

abbrev pub IsEven : List ℕ → Type 0
IsEven [] = Unit
IsEven (p ∷ []) = zero ≡ suc zero
IsEven (p ∷ q ∷ rest) = IsEven rest

abbrev pub AllBytes : List ℕ → Type 0
AllBytes [] = Unit
AllBytes (p ∷ rest) = (p < 256) × AllBytes rest

sum_words-append :
    (xs : List ℕ) (p q s : ℕ)
    → IsEven xs
    → sum_words (xs ++ p ∷ q ∷ []) s ≡ (sum_words xs s + (p * 256 + q)) % 2 ^ 32
unfolding sum_words
sum_words-append [] p q s even = refl
sum_words-append (a ∷ []) p q s even = absurd (omega (arith, even))
sum_words-append (a ∷ b ∷ xs) p q s even =
    sum_words-append xs p q ((s + (a * 256 + b)) % 2 ^ 32) even

sum_words_bound :
    (xs : List ℕ) (s : ℕ)
    → AllBytes xs
    → s + 2 ^ 16 * length xs < 2 ^ 32
    → sum_words xs s ≤ s + 2 ^ 16 * length xs
unfolding sum_words
sum_words_bound [] s bytes few = omega arith
sum_words_bound (a ∷ []) s (small, bytes) few = omega (arith, small, few)
sum_words_bound (a ∷ b ∷ xs) s (small, (small', bytes)) few = omega (
  arith,
  small,
  small',
  few,
  sum_words_bound xs ((s + (a * 256 + b)) % 2 ^ 32) bytes (omega (arith, small, small', few)),
)

-- Bytes in an even number, with their checksum behind them, have the checksum 0, if there are too few
-- for a sum of 32 bits to overflow.
pub checksum16-append :
    (xs : List ℕ) (start : ℕ)
    → IsEven xs
    → AllBytes xs
    → start + 2 ^ 16 * length xs + 2 ^ 16 < 2 ^ 32
    → checksum16 (xs ++ checksum16 xs start / 256 ∷ checksum16 xs start % 256 ∷ []) start ≡ 0
unfolding checksum16
checksum16-append xs start even bytes few =
    ap (λ t. 2 ^ 16 - 1 - fold_carries 2 t % 2 ^ 16) whole
    ∙ complement (sum_words xs start) (fold_carries 2 (sum_words xs start))
        (fold_carries 2 (sum_words xs start + c)) own last
  where
    c : ℕ
    c = 2 ^ 16 - 1 - fold_carries 2 (sum_words xs start) % 2 ^ 16

    bound : sum_words xs start ≤ start + 2 ^ 16 * length xs
    bound = sum_words_bound xs start bytes (omega (arith, few))

    own : Folded (sum_words xs start) (fold_carries 2 (sum_words xs start))
    own = fold_carries-Folded (sum_words xs start) (omega (arith, bound, few))

    whole : sum_words (xs ++ c / 256 ∷ c % 256 ∷ []) start ≡ sum_words xs start + c
    whole = sum_words-append xs (c / 256) (c % 256) start even ∙ omega (arith, bound, few)

    last : Folded (sum_words xs start + c) (fold_carries 2 (sum_words xs start + c))
    last = fold_carries-Folded (sum_words xs start + c) (omega (arith, bound, few))
