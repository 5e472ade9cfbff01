-- ===== src/Prelude/Options.antt =====
-- Chains of optional values, and what is known of the value of one that has any.
use mathlib.Core.Path.{◌≡◌, refl, subst}
use mathlib.Core.Option.{Option, none, some}

infixl 10 ◌>>=◌
unfoldable pub ◌>>=◌ {ℓ κ} : {A : Type ℓ} {B : Type κ} → Option A → (A → Option B) → Option B
none >>= f = none
some a >>= f = f a

pub record IfSome {A : Type 0} (P : A → Type 0) (o : Option A) : Type 0 where
  pub at : (a : A) → o ≡ some a → P a

module _ {A B : Type 0} where
  pub IfSome-bind :
      {P : A → Type 0} {Q : B → Type 0} (o : Option A) (k : A → Option B)
      → IfSome P o
      → ((a : A) → P a → IfSome Q (k a))
      → IfSome Q (o >>= k)
  unfolding ◌>>=◌
  IfSome-bind none k h f = record { at = λ b e. cc }
  IfSome-bind (some a) k h f = f a (h.at a refl)

module _ {A : Type 0} where
  pub IfSome-some : {P : A → Type 0} (a : A) → P a → IfSome P (some a)
  IfSome-some {P} a p = record { at = λ b e. let same : a ≡ b = cc in subst P same p }

  pub IfSome-none : {P : A → Type 0} → IfSome P none
  IfSome-none = record { at = λ b e. cc }

  pub IfSome-any : (o : Option A) → IfSome (λ _. Unit {0}) o
  IfSome-any o = record { at = λ a e. tt }
