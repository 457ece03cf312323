-- ===== src/Base/Options.antt =====
-- Chains of optional results: `?` on an error whose wording is not modelled.
use mathlib.Core.Path.{◌≡◌, refl, ap}
use mathlib.Core.Bool.{Bool, true, false}
use mathlib.Core.Option.{Option, none, some}
use native.Mathlib.Omega.{arith}

infixl 5 ◌>>=◌
abbrev pub ◌>>=◌ {ℓ κ} : {A : Type ℓ} {B : Type κ} → Option A → (A → Option B) → Option B
none >>= f = none
some a >>= f = f a

-- `if !b { bail!(…) }`
abbrev pub ensure : Bool → Option (Unit {0})
ensure true = some tt
ensure false = none

-- What a chain that succeeds went through.
pub >>=-some {ℓ κ} :
    {A : Type ℓ} {B : Type κ} (o : Option A) (f : A → Option B) {b : B}
    → (o >>= f) ≡ some b
    → (a : A) × (o ≡ some a) × (f a ≡ some b)
>>=-some none f h = absurd (ground arith)
>>=-some (some a) f h = (a, refl, h)

pub ensure-some : (b : Bool) {u : Unit {0}} → ensure b ≡ some u → b ≡ true
ensure-some true h = refl
ensure-some false h = absurd (ground arith)

pub some-injective {ℓ} : {A : Type ℓ} {a b : A} → some a ≡ some b → a ≡ b
some-injective {a = a} h = ap (λ o. elim o [ none ↦ a | some x ↦ x ]) h
