-- ===== src/Ring.antt =====
-- The ring buffers of src/pipe.c and src/keyboard.c: what a ring holds, in order, and what a write
-- at its end does to that.
use native.Mathlib.Nat.{mod-eq_of_lt, mod-lt, mod-add-mod}
use mathlib.Core.Path.{ap₂}
use arcade_os.Base.{
  subst, ℕ, zero, suc, ◌+◌, ◌-◌, ◌%◌, ◌<◌, ◌≡◌, ◌≢◌, ◌∙◌, refl, sym, ap, List, [], ◌∷◌, ◌++◌,
  get_or, set, length, get_or-set, arith, dec_lt,
}

pub wraps : (n x y : ℕ) → x < n → y ≡ x + n → y % n ≡ x
wraps n x y h e = rw e (grind arith)

-- Fewer than `n` steps round a ring of `n` places do not come back.
pub no_return : (n x k : ℕ) → x < n → k + 1 < n → (x + 1 + k) % n ≢ x
no_return n x k h inner = elim (dec_lt (x + 1 + k) n) [
  | yes below ↦ λ e. omega (arith, e, mod-eq_of_lt below)
  | no past ↦ λ e. omega (arith, e, wraps n (x + 1 + k - n) (x + 1 + k) (omega arith) (omega arith))
]

add_none : (r : ℕ) → r + 0 ≡ r
add_none r = omega arith

add_one : (r c : ℕ) → r + suc c ≡ r + 1 + c
add_one r c = omega arith

-- One step and then `c` more.
pub mod-step : (n r c : ℕ) → ((r + 1) % n + c) % n ≡ (r + suc c) % n
mod-step n r c = mod-add-mod (r + 1) n c ∙ ap (λ x. x % n) (sym (add_one r c))

module _ {ℓ} {A : Type ℓ} (none_yet : A) (n : ℕ) where
  -- The `count` elements from the place `read` on, round the ring of `n` places.
  abbrev pub contents : List A → ℕ → ℕ → List A
  contents buf read zero = []
  contents buf read (suc count) = get_or buf read none_yet ∷ contents buf ((read + 1) % n) count

module _ {ℓ} {A : Type ℓ} (none_yet : A) (n : ℕ) where
  pub length-contents :
      (buf : List A) (read count : ℕ) → length (contents none_yet n buf read count) ≡ count
  length-contents buf read zero = refl
  length-contents buf read (suc count) = ap suc (length-contents buf ((read + 1) % n) count)

  -- A write to the place after the last element, in a ring that is not full.
  pub contents-set :
      (buf : List A) (v : A) (read count : ℕ)
      → n ≡ length buf
      → read < n
      → count < n
      → contents none_yet n (set buf ((read + count) % n) v) read (suc count)
        ≡ contents none_yet n buf read count ++ v ∷ []
  contents-set buf v read zero same inside space =
      ap (λ x. x ∷ [])
        (ground (
          arith,
          same,
          mod-eq_of_lt inside,
          ap (λ x. x % n) (add_none read),
          get_or-set buf ((read + 0) % n) read v none_yet,
        ))
  contents-set buf v read (suc count) same inside space =
      ap₂ (λ x xs. x ∷ xs)
        (ground (
          arith,
          get_or-set buf ((read + suc count) % n) read v none_yet,
          no_return n read count inside (omega arith),
          ap (λ x. x % n) (add_one read count),
        ))
        (subst
          (λ w.
            contents none_yet n (set buf w v) ((read + 1) % n) (suc count)
            ≡ contents none_yet n buf ((read + 1) % n) count ++ v ∷ [])
          (mod-step n read count)
          (contents-set buf v ((read + 1) % n) count same (mod-lt (read + 1) {m = n} (omega arith))
            (omega arith)))
