-- ===== src/Common/Decimal.antt =====
-- Decimal numerals of up to three digits, as octets in ASCII.
use Prim.Native.Nat.{ℕ, ◌+◌, ◌-◌, ◌*◌, ◌/◌, ◌%◌, ◌≤◌, ◌<◌}
use mathlib.Core.Path.{◌≡◌}
use mathlib.Core.Logic.{◌≢◌, inl, inr}
use mathlib.Core.Bool.{Bool, ◌&&◌, not, true, false}
use mathlib.Core.List.{List, [], ◌∷◌, ◌++◌}
use native.Mathlib.Omega.{arith}
use libholmes_horace.Common.Tests.{ltb, leb, ◌==◌, if◌then◌else◌, Bool-cases, test→eq}

-- `isdigit`
abbrev pub is_digit : ℕ → Bool
is_digit c = leb 48 c && leb c 57

-- The numeral of a number below 1000 without leading zeros.
unfoldable pub decimal : ℕ → List ℕ
decimal n =
    if ltb n 10
    then (48 + n) ∷ []
    else if ltb n 100
    then (48 + n / 10) ∷ (48 + n % 10) ∷ []
    else (48 + n / 100) ∷ (48 + n / 10 % 10) ∷ (48 + n % 10) ∷ []

-- A digit is appended to a numeral that is not zero.
pub decimal-append :
    (n c : ℕ)
    → n ≢ 0
    → n < 100
    → 48 ≤ c
    → c ≤ 57
    → decimal (n * 10 + (c - 48)) ≡ decimal n ++ (c ∷ [])
unfolding decimal
decimal-append n c h below low high = elim (Bool-cases (ltb n 10)) [
  | inl t ↦ ground arith
  | inr t ↦ ground arith
]

pub decimal-first : (c : ℕ) → 48 ≤ c → c ≤ 57 → decimal (c - 48) ≡ c ∷ []
unfolding decimal
decimal-first c low high = ground arith

pub digit_range : (c : ℕ) → is_digit c ≡ true → (48 ≤ c) × (c ≤ 57)
digit_range c h = (ground (arith, h), ground (arith, h))

-- The text of a number of which some digits have been read.
unfoldable pub numeral : ℕ → ℕ → List ℕ
numeral digits n = if digits == 0 then [] else decimal n

-- A digit that may follow the digits that have been read.
pub numeral-digit :
    (digits n c : ℕ)
    → (digits ≡ 0 → n ≡ 0)
    → (not (digits == 0) && n == 0) ≡ false
    → n < 100
    → 48 ≤ c
    → c ≤ 57
    → numeral (digits + 1) (n * 10 + (c - 48)) ≡ numeral digits n ++ (c ∷ [])
unfolding numeral
numeral-digit digits n c start t below low high = elim (Bool-cases (digits == 0)) [
  | inl z ↦
      let a : n ≡ 0 = start (test→eq digits 0 z) in
      let e : n * 10 + (c - 48) ≡ c - 48 = omega (arith, a) in
      let more : ((digits + 1) == 0) ≡ false = ground arith in
      rw (e, z, more) (decimal-first c low high)
  | inr z ↦
      let more : ((digits + 1) == 0) ≡ false = ground arith in
      let n_pos : n ≢ 0 = ground (arith, t, z) in
      rw (z, more) (decimal-append n c n_pos below low high)
]
