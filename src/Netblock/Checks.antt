-- ===== src/Netblock/Checks.antt =====
-- Operations that end with a value or throw `std::invalid_argument`, and nothing else.
use mathlib.Core.Path.{subst}
use libholmes_horace.Common.{
  String, ◌≡◌, refl, Bool, true, false, if◌then◌else◌, throw_if, ◌>>=◌, invalid_argument, Result,
  err, ok,
}

-- `P` holds of the value that is returned; an exception is `std::invalid_argument`.
pub data Checks {ℓ κ} {A : Type ℓ} (P : A → Type κ) : Result A → Type (ℓ ⊔ κ) where
  accepted : {a : A} → P a → Checks P (ok a)
  rejected : (message : String) → Checks P (err (invalid_argument message))

module _ {ℓ κ} {A : Type ℓ} {P : A → Type κ} where
  pub Checks-if :
      (b : Bool) {x y : Result A}
      → (b ≡ true → Checks P x)
      → (b ≡ false → Checks P y)
      → Checks P (if b then x else y)
  Checks-if true h k = h refl
  Checks-if false h k = k refl

  pub Checks-bind {ℓ' κ'} :
      {B : Type ℓ'} {Q : B → Type κ'} {m : Result A} {f : A → Result B}
      → Checks P m
      → ((a : A) → P a → Checks Q (f a))
      → Checks Q (m >>= f)
  Checks-bind (accepted {a} h) k = k a h
  Checks-bind (rejected message) k = rejected message

  -- What follows a check runs where its test fails.
  pub Checks-guard :
      (b : Bool) (message : String) (k : Unit {0} → Result A)
      → (b ≡ false → Checks P (k tt))
      → Checks P (throw_if b (invalid_argument message) >>= k)
  Checks-guard true message k h = rejected message
  Checks-guard false message k h = h refl

  pub Checks-map {κ'} :
      {Q : A → Type κ'} {m : Result A} → Checks P m → ((a : A) → P a → Q a) → Checks Q m
  Checks-map (accepted {a} h) k = accepted (k a h)
  Checks-map (rejected message) k = rejected message

  pub Checks-ok : {r : Result A} {a : A} → Checks P r → r ≡ ok a → P a
  Checks-ok (accepted h) e = subst P (cc) h
  Checks-ok (rejected message) e = cc
