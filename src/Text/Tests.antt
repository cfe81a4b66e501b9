-- ===== src/Text/Tests.antt =====
-- num_to_str at concrete inputs.
use arcade_os.Base.{ℕ, List, some, ◌⊎◌, ◌≤◌, ◌≡◌, arith, length}
use arcade_os.Text.{num_to_str}
use arcade_os.Text.Decimal.{AllDigits, read_decimal, num_to_str-read_decimal}

num_to_str-read_decimal_example :
    (s : List ℕ) × (num_to_str 2026 6 ≡ some s)
    × AllDigits s
    × (read_decimal 0 s ≡ 2026)
    × (6 ≤ length s)
    × ((length s ≤ 6) ⊎ (length s ≤ 10))
num_to_str-read_decimal_example = num_to_str-read_decimal 2026 6 (omega arith) (omega arith)
