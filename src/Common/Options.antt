-- ===== src/Common/Options.antt =====
-- A chain of steps that may fail.
use mathlib.Core.Option.{Option, none, some}
use mathlib.Core.Path.{◌≡◌, refl}

infixl 5 ◌>>=◌
abbrev pub ◌>>=◌ {ℓ κ} : {A : Type ℓ} {B : Type κ} → Option A → (A → Option B) → Option B
none >>= f = none
some a >>= f = f a

abbrev pub or_else {ℓ} : {A : Type ℓ} → Option A → A → A
or_else none d = d
or_else (some a) d = a

-- What holds of the fallback and of every result holds of the outcome.
pub or_else_rule {ℓ κ} :
    {A : Type ℓ} (P : A → Type κ) (o : Option A) (d : A)
    → P d
    → ((a : A) → o ≡ some a → P a)
    → P (or_else o d)
or_else_rule P none d p q = p
or_else_rule P (some a) d p q = q a refl
