-- ===== src/Pmm/Bits.antt =====
-- One bit of a byte: `byte & (1 << k)`, `byte | (1 << k)` and `byte & ~(1 << k)`. The laws are
-- checked for every byte by evaluation.
use Prim.Native.Nat.{bit_and, bit_or}
use arcade_os.Base.{
  ℕ, zero, suc, ◌-◌, ◌^◌, ◌<◌, ◌≡◌, refl, Bool, true, false, not, ◌&&◌, ◌||◌, arith, ltb, ◌==◌,
  if◌then◌else◌,
}

unfoldable pub test_bit : ℕ → ℕ → Bool
test_bit b k = not (bit_and b (2 ^ k) == 0)

unfoldable pub set_bit : ℕ → ℕ → ℕ
set_bit b k = bit_or b (2 ^ k)

-- `~(1 << k)` is all ones but bit k; only its low byte meets a byte.
unfoldable pub clear_bit : ℕ → ℕ → ℕ
clear_bit b k = bit_and b (255 - 2 ^ k)

-- Whether `p` holds at every number under the bound: a table that is checked by evaluation.
tabulated : (ℕ → Bool) → ℕ → Bool
tabulated p zero = true
tabulated p (suc n) = if p n then tabulated p n else false

tabulated_at : (p : ℕ → Bool) (n k : ℕ) → k < n → tabulated p n ≡ true → p k ≡ true
unfolding tabulated
tabulated_at p zero k under t = absurd (omega arith)
tabulated_at p (suc n) k under t = ground (arith, tabulated_at p n k)

-- At every byte and two bits.
abbrev every : (ℕ → ℕ → ℕ → Bool) → Bool
every p = tabulated (λ b. tabulated (λ k. tabulated (p b k) 8) 8) 256

every_at :
    (p : ℕ → ℕ → ℕ → Bool) (b k j : ℕ) → every p ≡ true → b < 256 → k < 8 → j < 8 → p b k j ≡ true
every_at p b k j t hb hk hj = tabulated_at (p b k) 8 j hj (
    tabulated_at (λ k. tabulated (p b k) 8) 8 k hk
      (tabulated_at (λ b. tabulated (λ k. tabulated (p b k) 8) 8) 256 b hb t))

abbrev same : Bool → Bool → Bool
same true b = b
same false b = not b

same→eq : (a b : Bool) → same a b ≡ true → a ≡ b
same→eq a b h = ground arith

set_table : every (λ b k j. same (test_bit (set_bit b k) j) (k == j || test_bit b j)) ≡ true
unfolding tabulated test_bit set_bit
set_table = refl

clear_table :
    every (λ b k j. same (test_bit (clear_bit b k) j) (not (k == j) && test_bit b j)) ≡ true
unfolding tabulated test_bit clear_bit
clear_table = refl

range_table : every (λ b k _. ltb (set_bit b k) 256 && ltb (clear_bit b k) 256) ≡ true
unfolding tabulated set_bit clear_bit
range_table = refl

pub test_bit-set_bit :
    (b k j : ℕ) → b < 256 → k < 8 → j < 8 → test_bit (set_bit b k) j ≡ (k == j || test_bit b j)
test_bit-set_bit b k j hb hk hj = same→eq _ _ (every_at _ b k j set_table hb hk hj)

pub test_bit-clear_bit :
    (b k j : ℕ)
    → b < 256
    → k < 8
    → j < 8
    → test_bit (clear_bit b k) j ≡ (not (k == j) && test_bit b j)
test_bit-clear_bit b k j hb hk hj = same→eq _ _ (every_at _ b k j clear_table hb hk hj)

pub bits_range : (b k : ℕ) → b < 256 → k < 8 → (set_bit b k < 256) × (clear_bit b k < 256)
bits_range b k hb hk = ground (
  arith,
  every_at (λ b k _. ltb (set_bit b k) 256 && ltb (clear_bit b k) 256) b k 0 range_table hb hk,
)

pub test_bit_ones : (k : ℕ) → k < 8 → test_bit 255 k ≡ true
unfolding tabulated test_bit
test_bit_ones k under = tabulated_at (test_bit 255) 8 k under refl
