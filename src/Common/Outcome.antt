-- ===== src/Common/Outcome.antt =====
-- Outcomes of the program's operations: a value, or the exception that leaves the operation.
use mathlib.Core.Path.{◌≡◌, refl}
use mathlib.Core.Bool.{Bool, true, false}
use Prim.Native.Nat.{ℕ}
use Prim.Native.String.{String}

infixl 5 ◌>>=◌ ◌>>◌
-- `undefined_behaviour` is a step for which C++ promises nothing, and `out_of_fuel` has no counterpart
-- in the program; the others are its exceptions. `integer_overflow` is
-- `std::runtime_error("integer overflow")`, and `other_exception` any exception of a part that is a
-- parameter, `terminate_exception` apart.
pub data Error : Type 0 where
  eof_error integer_overflow bad_alloc bad_cast undefined_behaviour out_of_fuel : Error
  out_of_range logic_error terminate_exception other_exception : Error
  invalid_argument runtime_error syslog_error endpoint_error : String → Error
  horace_error : String → Error
  horace_error_id : String → ℕ → Error

pub data Result {ℓ} (A : Type ℓ) : Type ℓ where
  err : Error → Result A
  ok : A → Result A

-- `if (c) { throw e; }`
abbrev pub throw_if : Bool → Error → Result (Unit {0})
throw_if false e = ok tt
throw_if true e = err e

-- The rest of an operation runs on the value of its first part; an exception ends it.
abbrev pub ◌>>=◌ {ℓ κ} :
    {A : Type ℓ} {B : Type κ} (first : Result A) (rest : A → Result B) → Result B
err e >>= rest = err e
ok value >>= rest = rest value

abbrev pub ◌>>◌ {κ} : {B : Type κ} (first : Result (Unit {0})) (rest : Result B) → Result B
first >> rest = first >>= λ done. rest

-- An operation returned, so its first part did.
pub bind-eq-ok {ℓ κ} :
    {A : Type ℓ} {B : Type κ} {result : B} (first : Result A) (rest : A → Result B)
    → first >>= rest ≡ ok result
    → (value : A) × (first ≡ ok value) × (rest value ≡ ok result)
bind-eq-ok (err e) rest h = cc
bind-eq-ok (ok value) rest h = (value, refl, h)
