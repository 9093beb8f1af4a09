-- ===== src/Prelude/Options.antt =====
-- A value that may be missing, of which a chain goes on while there is one.
use mathlib.Core.Bool.{Bool, true, false}
use hodu.Prelude.Tests.{if◌then◌else◌}
use mathlib.Core.Option.{Option, none, some}
use mathlib.Core.Path.{◌≡◌, refl}
use native.Mathlib.Omega.{arith}

infixl 5 ◌>>=◌
abbrev pub ◌>>=◌ {ℓ} : {A B : Type ℓ} → Option A → (A → Option B) → Option B
none >>= f = none
some a >>= f = f a

-- A chain that gives something has got something in its first step.
pub bind-some {ℓ} :
    {A B : Type ℓ} (o : Option A) {f : A → Option B} {b : B}
    → (o >>= f) ≡ some b
    → (a : A) × (o ≡ some a) × (f a ≡ some b)
bind-some none h = absurd (ground (arith, h))
bind-some (some a) h = (a, refl, h)

-- And its test has held.
pub if-some {ℓ} :
    {A B : Type ℓ} (b : Bool) (o : Option A) (f : A → Option B) {y : B}
    → ((if b then o else none) >>= f) ≡ some y
    → (b ≡ true) × ((o >>= f) ≡ some y)
if-some true o f h = (refl, h)
if-some false o f h = absurd (ground (arith, h))
