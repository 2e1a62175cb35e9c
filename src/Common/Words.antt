-- ===== src/Common/Words.antt =====
-- Machine words. A uint8_t, uint32_t or uint64_t is a number below 2 ^ 8, 2 ^ 32 or 2 ^ 64; an int
-- or an int64_t is its two's complement pattern, a number below 2 ^ 32 or 2 ^ 64.
use Prim.Native.Nat.{ℕ, suc, ◌+◌, ◌-◌, ◌*◌, ◌/◌, ◌%◌, ◌^◌, ◌≤◌, ◌<◌}
use mathlib.Core.Path.{◌≡◌, ap}
use mathlib.Core.Bool.{Bool, true, false}
use native.Mathlib.Omega.{arith}
use native.Mathlib.Nat.{div-div-eq-div-mul, div-eq_of_lt, div-lt_iff_lt-mul, one-le-pow}
use native.Mathlib.Numerals.{towards_suc}
use libholmes_horace.Common.Tests.{leb, ◌==◌, if◌then◌else◌}
use libholmes_horace.Common.Outcome.{undefined_behaviour, Result, ok, err}

-- `x >> k` on a uint64_t, for a count known to be below 64.
abbrev pub shr : ℕ → ℕ → ℕ
shr x k = x / 2 ^ k

-- `x << k` on a uint64_t, for a count known to be below 64.
abbrev pub shl64 : ℕ → ℕ → ℕ
shl64 x k = x * 2 ^ k % 2 ^ 64

-- `~x` on a uint64_t.
abbrev pub not64 : ℕ → ℕ
not64 x = 2 ^ 64 - 1 - x

-- `x & INT64_MIN`, as a test.
abbrev pub sign64 : ℕ → Bool
sign64 x = leb (2 ^ 63) x

-- `x >> k` on an int64_t: the sign is shifted in.
abbrev pub sar64 : ℕ → ℕ → ℕ
sar64 x k = if sign64 x then not64 (not64 x / 2 ^ k) else x / 2 ^ k

-- `x >> k` on a uint64_t, for any count: undefined from 64 on.
unfoldable pub shift_right : ℕ → ℕ → Result ℕ
shift_right x k = if leb 64 k then err undefined_behaviour else ok (x / 2 ^ k)

-- An int64_t or uint64_t stored in an int, and an int widened to 64 bits.
abbrev pub to_int : ℕ → ℕ
to_int x = x % 2 ^ 32

abbrev pub sign32 : ℕ → Bool
sign32 x = leb (2 ^ 31) x

abbrev pub extend : ℕ → ℕ
extend x = if sign32 x then x + (2 ^ 64 - 2 ^ 32) else x

abbrev pub IsByte : ℕ → Type 0
IsByte b = b < 256

abbrev pub IsInt : ℕ → Type 0
IsInt x = x < 2 ^ 32

abbrev pub IsWord64 : ℕ → Type 0
IsWord64 x = x < 2 ^ 64

-- Powers of two by groups of seven bits and by octets.
pub pow_seven : (k : ℕ) → 2 ^ (7 * suc k) ≡ 128 * 2 ^ (7 * k)
pow_seven k = let e : 7 * suc k ≡ 7 * k + 7 = omega arith in rw e (simp towards_suc (omega arith))

pub pow_eight : (k : ℕ) → 2 ^ (8 * suc k) ≡ 256 * 2 ^ (8 * k)
pow_eight k = let e : 8 * suc k ≡ 8 * k + 8 = omega arith in rw e (simp towards_suc (omega arith))

pub div_seven : (v k : ℕ) → v / 2 ^ (7 * suc k) ≡ v / 2 ^ (7 * k) / 128
div_seven v k = rw (pow_seven k, div-div-eq-div-mul) (ap (λ t. v / t) (omega arith))

pub div_eight : (v k : ℕ) → v / 2 ^ (8 * suc k) ≡ v / 2 ^ (8 * k) / 256
div_eight v k = rw (pow_eight k, div-div-eq-div-mul) (ap (λ t. v / t) (omega arith))

pub pow-pos : (k : ℕ) → 1 ≤ 2 ^ k
pow-pos k = one-le-pow k 2 (omega arith)

pub div-lt : (v m k : ℕ) → v < m * 2 ^ k → v / 2 ^ k < m
div-lt v m k h = (div-lt_iff_lt-mul (pow-pos k)).1 h

pub div-eq-zero : (v d : ℕ) → 1 ≤ d → (v / d == 0) ≡ true → v < d
div-eq-zero v d h e = grind arith

pub div-ne-zero : (v d : ℕ) → 1 ≤ d → (v / d == 0) ≡ false → d ≤ v
div-ne-zero v d h e = grind (arith, div-eq_of_lt)
