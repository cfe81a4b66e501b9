-- ===== src/Base/Options.antt =====
-- What holds of an optional result, if there is one.
use mathlib.Core.Path.{◌≡◌, subst}
use mathlib.Core.Option
use mathlib.Core.Option.{Option, none, some, some-injective}

-- A step that may fail, and the step after it.
infixl 5 ◌>>=◌
abbrev pub ◌>>=◌ {ℓ κ} : {A : Type ℓ} {B : Type κ} → Option A → (A → Option B) → Option B
none >>= f = none
some a >>= f = f a

module _ {ℓ κ} {A : Type ℓ} where
  abbrev pub OnSome : (A → Type κ) → Option A → Type κ
  OnSome P none = Unit
  OnSome P (some a) = P a

  pub OnSome-some : (P : A → Type κ) (o : Option A) (a : A) → OnSome P o → o ≡ some a → P a
  OnSome-some P none a h e = cc
  OnSome-some P (some b) a h e = subst P (some-injective b a e) h

  pub OnSome-imp :
      (P Q : A → Type κ) (o : Option A) → ((a : A) → P a → Q a) → OnSome P o → OnSome Q o
  OnSome-imp P Q none f h = tt
  OnSome-imp P Q (some a) f h = f a h

  pub OnSome-all : (P : A → Type κ) (o : Option A) → ((a : A) → P a) → OnSome P o
  OnSome-all P none f = tt
  OnSome-all P (some a) f = f a

module _ {ℓ κ η} {A : Type ℓ} {B : Type η} where
  pub OnSome-map :
      (P : B → Type κ) (f : A → B) (o : Option A)
      → OnSome (λ a. P (f a)) o
      → OnSome P (Option.map f o)
  OnSome-map P f none h = tt
  OnSome-map P f (some a) h = h
