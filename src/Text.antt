-- ===== src/Text.antt =====
-- src/string.c: num_to_str. A string is the list of its characters' codes up to the NUL.
pub mod Decimal
mod Tests
use mathlib.Core.Option
use arcade_os.Base.{
  Option, none, some, ltb, ℕ, zero, suc, ◌+◌, ◌-◌, ◌/◌, ◌%◌, List, [], ◌∷◌, ◌++◌, ◌==◌,
  if◌then◌else◌, replicate, length,
}

-- The digits that the loop puts into `temp`, the last one first. The rounds are bounded by the
-- fuel; 10 are enough for a `uint32_t`.
pub digits : ℕ → ℕ → List ℕ
digits zero num = []
digits (suc fuel) num =
    let rest = digits fuel (num / 10) in if num == 0 then [] else (48 + num % 10) ∷ rest

-- What stands in `temp` before the zeros.
pub all_digits : ℕ → List ℕ
unfolding digits
all_digits num = if num == 0 then 48 ∷ [] else digits 10 num

-- The size of `temp`.
abbrev pub temp_size : ℕ
temp_size = 20

-- `temp` with the zeros up to `min_digits`, or `none` where they do not fit.
pub padded : ℕ → List ℕ → Option (List ℕ)
padded min_digits temp =
    if ltb temp_size min_digits
    then none
    else some (temp ++ replicate (min_digits - length temp) 48)

-- The loop that copies `temp` backwards.
pub backwards : List ℕ → List ℕ
backwards [] = []
backwards (c ∷ cs) = backwards cs ++ c ∷ []

pub num_to_str : ℕ → ℕ → Option (List ℕ)
unfolding all_digits padded backwards
num_to_str num min_digits = Option.map backwards (padded min_digits (all_digits num))
