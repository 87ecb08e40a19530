-- ===== src/Prelude/Options.antt =====
-- Chains of computations that may have no result.
use mathlib.Core.Path.{◌≡◌, refl}
use mathlib.Core.Option.{Option, none, some}
use native.Mathlib.Omega.{arith}

infixl 5 ◌>>=◌ ◌>>◌
abbrev pub ◌>>=◌ : {A B : Type 0} → Option A → (A → Option B) → Option B
some a >>= f = f a
none >>= f = none

abbrev pub ◌>>◌ : {B : Type 0} → Option (Unit {0}) → Option B → Option B
m >> k = m >>= λ _. k

-- A chain that has a result has one at each link.
pub bind-some :
    {A B : Type 0} (o : Option A) (f : A → Option B) {b : B}
    → (o >>= f) ≡ some b
    → (a : A) × (o ≡ some a) × (f a ≡ some b)
bind-some (some a) f e = (a, refl, e)
bind-some none f e = absurd (ground arith)
