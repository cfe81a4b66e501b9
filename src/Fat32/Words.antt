-- ===== src/Fat32/Words.antt =====
-- The entries of the table as words of a sector.
use arcade_os.Base.{ℕ, ◌+◌, ◌*◌, ◌/◌, ◌%◌, ◌≤◌, ◌≡◌, ◌≢◌, ◌⊎◌, inl, inr, ◌∙◌, arith, ap, dec_lt}
use arcade_os.Fat32.{Sector, word_at, put_word, new_entry, low_28}

-- What an entry says.
unfoldable pub entry : Sector → ℕ → ℕ
entry s o = word_at s o % low_28

entry_bytes :
    (v : ℕ)
    → (v % 256
          + 256 * (v / 256 % 256)
          + 65536 * (v / 65536 % 256)
          + 16777216 * (v / 16777216 % 256))
        % low_28
      ≡ v % low_28
entry_bytes v = omega arith

new_entry-mod : (cur v : ℕ) → new_entry cur v % low_28 ≡ v % low_28
unfolding new_entry
new_entry-mod cur v = omega arith

put_word-bytes :
    (s : Sector) (o v : ℕ)
    → word_at (put_word s o v) o
      ≡ v % 256
        + 256 * (v / 256 % 256)
        + 65536 * (v / 65536 % 256)
        + 16777216 * (v / 16777216 % 256)
unfolding word_at put_word
put_word-bytes s o v = ground arith

-- An entry that has been set says what it has been set to.
pub entry-put_own :
    (s : Sector) (o cur v : ℕ) → entry (put_word s o (new_entry cur v)) o ≡ v % low_28
unfolding entry
entry-put_own s o cur v =
    ap (λ x. x % low_28) (put_word-bytes s o (new_entry cur v))
    ∙ entry_bytes (new_entry cur v)
    ∙ new_entry-mod cur v

pub word_at-put_other :
    (s : Sector) (o p v : ℕ) → (o + 4 ≤ p) ⊎ (p + 4 ≤ o) → word_at (put_word s o v) p ≡ word_at s p
unfolding word_at put_word
word_at-put_other s o p v apart = ground (arith, apart)

pub entry-put_other :
    (s : Sector) (o p v : ℕ) → (o + 4 ≤ p) ⊎ (p + 4 ≤ o) → entry (put_word s o v) p ≡ entry s p
unfolding entry
entry-put_other s o p v apart = ap (λ x. x % low_28) (word_at-put_other s o p v apart)

-- Two entries of one sector do not overlap.
pub entries_apart :
    (c e : ℕ)
    → c * 4 / 512 ≡ e * 4 / 512
    → c ≢ e
    → (c * 4 % 512 + 4 ≤ e * 4 % 512) ⊎ (e * 4 % 512 + 4 ≤ c * 4 % 512)
entries_apart c e same differ = elim (dec_lt c e) [
  | yes below ↦ inl (omega arith)
  | no above ↦ inr (omega (arith, differ))
]
