-- ===== src/Keyboard/Layout.antt =====
-- The characters of src/keyboard.c against those that a US keyboard has on its keys.
use Prim.Native.String.{String}
use Prim.Native.Char.{code}
use arcade_os.Base.{
  ℕ, zero, suc, ◌-◌, ◌<◌, ◌≡◌, ◌≢◌, refl, sym, subst, Bool, true, false, ◌&&◌, List, [], ◌∷◌, ltb,
  ◌==◌, if◌then◌else◌, get_or, arith, Bool-cases, inl, inr,
}
use arcade_os.Keyboard.{character_of}

-- The codes of a row of keys.
abbrev codes : String → List ℕ
codes String.[] = []
codes (String.◌∷◌ c s) = code c ∷ codes s

-- The character of a key in a row that starts at the code `first`; the rows after it otherwise.
abbrev in_row : ℕ → List ℕ → ℕ → ℕ → ℕ
in_row first row code other = if ltb code first then other else get_or row (code - first) other

-- The keys that give the same character with Shift as without it: Backspace, Tab, Enter, the star
-- of the number block and the space bar.
abbrev plain : ℕ → ℕ
plain code =
    if code == 0x0E
    then 8
    else if code == 0x0F
    then 9
    else if code == 0x1C
    then 10
    else if code == 0x37
    then 42
    else if code == 0x39
    then 32
    else 0

-- The four rows of a US keyboard by their first make codes.
pub us_character : ℕ → Bool → ℕ
us_character key false = in_row 0x2B (codes "\\zxcvbnm,./") key (
    in_row 0x1E (codes "asdfghjkl;'`") key
      (in_row 0x10 (codes "qwertyuiop[]") key (in_row 0x02 (codes "1234567890-=") key (plain key))))
us_character key true = in_row 0x2B (codes "|ZXCVBNM<>?") key (
    in_row 0x1E (codes "ASDFGHJKL:\"~") key
      (in_row 0x10 (codes "QWERTYUIOP{}") key (in_row 0x02 (codes "!@#$%^&*()_+") key (plain key))))

all_below : (ℕ → Bool) → ℕ → Bool
all_below test zero = true
all_below test (suc n) = let rest = all_below test n in rest && test n

all_below_lem : (test : ℕ → Bool) (n key : ℕ) → all_below test n ≡ true → key < n → test key ≡ true
unfolding all_below
all_below_lem test zero key all below = elim below [ ]
all_below_lem test (suc n) key all below = elim (Bool-cases (key == n)) [
  | inl last ↦ subst (λ k. test k ≡ true) (sym (equal last)) (ground (arith, all))
  | inr earlier ↦
      all_below_lem test n key (ground (arith, all)) (omega (arith, below, other earlier))
]
  where
    equal : (key == n) ≡ true → key ≡ n
    equal last = ground (arith, last)

    other : (key == n) ≡ false → key ≢ n
    other earlier = ground (arith, earlier)

agrees : Bool → ℕ → Bool
unfolding character_of
agrees shift key = character_of key shift == us_character key shift

agrees-all_below : (shift : Bool) → all_below (agrees shift) 128 ≡ true
unfolding all_below agrees us_character
agrees-all_below true = refl
agrees-all_below false = refl

-- A make code gives the character that a US keyboard has on its key.
pub character_of-us_character :
    (key : ℕ) (shift : Bool) → key < 128 → character_of key shift ≡ us_character key shift
unfolding agrees
character_of-us_character key shift make =
    equal (character_of key shift) (us_character key shift)
      (all_below_lem (agrees shift) 128 key (agrees-all_below shift) make)
  where
    equal : (a b : ℕ) → (a == b) ≡ true → a ≡ b
    equal a b same = ground (arith, same)
