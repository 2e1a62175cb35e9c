-- ===== src/Common/Postcondition.antt =====
-- Postconditions on outcomes.
use mathlib.Core.Path.{◌≡◌, refl, subst}
use mathlib.Core.Logic.{◌≢◌}
use mathlib.Core.Bool.{Bool, true, false}
use libholmes_horace.Common.Outcome.{◌>>=◌, throw_if, Error, out_of_fuel, Result, ok, err}
use libholmes_horace.Common.Tests.{if◌then◌else◌}

-- The operation kept within the model's fuel, and `P` holds of the value if it returned one.
pub data Settles {ℓ κ} {A : Type ℓ} (P : A → Type κ) : Result A → Type (ℓ ⊔ κ) where
  returned : {a : A} → P a → Settles P (ok a)
  raised : {e : Error} → e ≢ out_of_fuel → Settles P (err e)

module _ {ℓ κ} {A : Type ℓ} {P : A → Type κ} where
  pub Settles-ok : {r : Result A} {a : A} → Settles P r → r ≡ ok a → P a
  Settles-ok (returned h) e = subst P (cc) h
  Settles-ok (raised h) e = cc

  pub Settles-fuel : {r : Result A} → Settles P r → r ≢ err out_of_fuel
  Settles-fuel (returned h) e = cc
  Settles-fuel (raised h) e = h (cc)

  pub Settles-if :
      (b : Bool) {x y : Result A}
      → (b ≡ true → Settles P x)
      → (b ≡ false → Settles P y)
      → Settles P (if b then x else y)
  Settles-if true h k = h refl
  Settles-if false h k = k refl

  pub Settles-bind {ℓ' κ'} :
      {B : Type ℓ'} {Q : B → Type κ'} {m : Result A} {f : A → Result B}
      → Settles P m
      → ((a : A) → P a → Settles Q (f a))
      → Settles Q (m >>= f)
  Settles-bind (returned {a} h) k = k a h
  Settles-bind (raised h) k = raised h

  pub Settles-map {κ'} :
      {Q : A → Type κ'} {m : Result A} → Settles P m → ((a : A) → P a → Q a) → Settles Q m
  Settles-map (returned {a} h) k = returned (k a h)
  Settles-map (raised h) k = raised h

-- A guard: what follows runs where its test fails.
pub Settles-guard {ℓ κ} :
    {B : Type ℓ} {Q : B → Type κ} (b : Bool) (e : Error) (k : Unit {0} → Result B)
    → e ≢ out_of_fuel
    → (b ≡ false → Settles Q (k tt))
    → Settles Q (throw_if b e >>= k)
Settles-guard true e k h q = raised h
Settles-guard false e k h q = q refl
