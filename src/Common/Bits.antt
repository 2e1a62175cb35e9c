-- ===== src/Common/Bits.antt =====
-- `&`, `|` and `^` as arithmetic, for the masks and shifted fields that the code uses.
use Prim.Native.Nat.{
  ℕ, zero, suc, ◌+◌, ◌*◌, ◌/◌, ◌%◌, ◌^◌, ◌≤◌, ◌<◌, min, max, bit_and, bit_or, bit_xor, digits,
  differ,
}
use Prim.Native.Nat.{bit_and-bitwise, bit_or-bitwise, bit_xor-bitwise}
use mathlib.Core.Path.{◌≡◌, refl}
use native.Mathlib.Nat.{pow-suc}
use native.Mathlib.Omega.{arith}

-- The native operations recurse on binary digits with a count of digits to go: any count above
-- the first number gives the same result.
module _ (last : ℕ → ℕ) (digit : ℕ → ℕ → ℕ) where
  digits_enough : (n m a b : ℕ) → a ≤ n → a ≤ m → digits last digit n a b ≡ digits last digit m a b
  digits_enough zero zero a b h k = refl
  digits_enough (suc n) zero zero b h k = refl
  digits_enough zero (suc m) zero b h k = refl
  digits_enough (suc n) (suc m) zero b h k = refl
  digits_enough zero m (suc a) b h k = absurd (omega arith)
  digits_enough (suc n) zero (suc a) b h k = absurd (omega arith)
  digits_enough (suc n) (suc m) (suc a) b h k =
      omega (arith, digits_enough n m (suc a / 2) (b / 2) (omega arith) (omega arith))

-- One equation for the lowest digit.
pub or_step : (a b : ℕ) → max (a % 2) (b % 2) + 2 * bit_or (a / 2) (b / 2) ≡ bit_or a b
or_step zero b = omega (arith, bit_or-bitwise 0 b, bit_or-bitwise 0 (b / 2))
or_step (suc a) b = omega (
  arith,
  bit_or-bitwise (suc a) b,
  bit_or-bitwise (suc a / 2) (b / 2),
  digits_enough (λ y. y) max a (suc a / 2) (suc a / 2) (b / 2) (omega arith) (omega arith),
)

pub and_step : (a b : ℕ) → min (a % 2) (b % 2) + 2 * bit_and (a / 2) (b / 2) ≡ bit_and a b
and_step zero b = omega (arith, bit_and-bitwise 0 b, bit_and-bitwise 0 (b / 2))
and_step (suc a) b = omega (
  arith,
  bit_and-bitwise (suc a) b,
  bit_and-bitwise (suc a / 2) (b / 2),
  digits_enough (λ y. 0) min a (suc a / 2) (suc a / 2) (b / 2) (omega arith) (omega arith),
)

-- A zero on the right.
or-zero_below : (n a : ℕ) → a ≤ n → bit_or a 0 ≡ a
or-zero_below n zero h = refl
or-zero_below zero (suc a) h = absurd (omega arith)
or-zero_below (suc n) (suc a) h =
    omega (arith, or_step (suc a) 0, or-zero_below n (suc a / 2) (omega arith))

and-zero_below : (n a : ℕ) → a ≤ n → bit_and a 0 ≡ 0
and-zero_below n zero h = refl
and-zero_below zero (suc a) h = absurd (omega arith)
and-zero_below (suc n) (suc a) h =
    omega (arith, and_step (suc a) 0, and-zero_below n (suc a / 2) (omega arith))

-- `a & m` for the masks of 1 to 8 ones.
and_1 : (a : ℕ) → bit_and a 1 ≡ a % 2
and_1 a = omega (arith, and_step a 1, and-zero_below (a / 2) (a / 2) (omega arith))

and_3 : (a : ℕ) → bit_and a 3 ≡ a % 4
and_3 a = omega (arith, and_step a 3, and_1 (a / 2))

and_7 : (a : ℕ) → bit_and a 7 ≡ a % 8
and_7 a = omega (arith, and_step a 7, and_3 (a / 2))

and_15 : (a : ℕ) → bit_and a 15 ≡ a % 16
and_15 a = omega (arith, and_step a 15, and_7 (a / 2))

and_31 : (a : ℕ) → bit_and a 31 ≡ a % 32
and_31 a = omega (arith, and_step a 31, and_15 (a / 2))

pub and_63 : (a : ℕ) → bit_and a 63 ≡ a % 64
and_63 a = omega (arith, and_step a 63, and_31 (a / 2))

pub and_127 : (a : ℕ) → bit_and a 127 ≡ a % 128
and_127 a = omega (arith, and_step a 127, and_63 (a / 2))

pub and_255 : (a : ℕ) → bit_and a 255 ≡ a % 256
and_255 a = omega (arith, and_step a 255, and_127 (a / 2))

pub and_254 : (a : ℕ) → bit_and a 254 + a % 2 ≡ a % 256
and_254 a = omega (arith, and_step a 254, and_127 (a / 2))

-- `a & b` for a single bit `b`.
and_2 : (a : ℕ) → bit_and a 2 ≡ a / 2 % 2 * 2
and_2 a = omega (arith, and_step a 2, and_1 (a / 2))

and_4 : (a : ℕ) → bit_and a 4 ≡ a / 4 % 2 * 4
and_4 a = omega (arith, and_step a 4, and_2 (a / 2))

and_8 : (a : ℕ) → bit_and a 8 ≡ a / 8 % 2 * 8
and_8 a = omega (arith, and_step a 8, and_4 (a / 2))

and_16 : (a : ℕ) → bit_and a 16 ≡ a / 16 % 2 * 16
and_16 a = omega (arith, and_step a 16, and_8 (a / 2))

and_32 : (a : ℕ) → bit_and a 32 ≡ a / 32 % 2 * 32
and_32 a = omega (arith, and_step a 32, and_16 (a / 2))

pub and_64 : (a : ℕ) → bit_and a 64 ≡ a / 64 % 2 * 64
and_64 a = omega (arith, and_step a 64, and_32 (a / 2))

pub and_128 : (a : ℕ) → bit_and a 128 ≡ a / 128 % 2 * 128
and_128 a = omega (arith, and_step a 128, and_64 (a / 2))

-- `(x << k) | y` where `y` fits the k bits.
or_2 : (x y : ℕ) → y < 2 → bit_or (x * 2) y ≡ x * 2 + y
or_2 x y h = ground (arith, or_step (x * 2) y, or-zero_below x x)

or_4 : (x y : ℕ) → y < 4 → bit_or (x * 4) y ≡ x * 4 + y
or_4 x y h = ground (arith, or_step (x * 4) y, or_2 x (y / 2))

or_8 : (x y : ℕ) → y < 8 → bit_or (x * 8) y ≡ x * 8 + y
or_8 x y h = ground (arith, or_step (x * 8) y, or_4 x (y / 2))

or_16 : (x y : ℕ) → y < 16 → bit_or (x * 16) y ≡ x * 16 + y
or_16 x y h = ground (arith, or_step (x * 16) y, or_8 x (y / 2))

or_32 : (x y : ℕ) → y < 32 → bit_or (x * 32) y ≡ x * 32 + y
or_32 x y h = ground (arith, or_step (x * 32) y, or_16 x (y / 2))

or_64 : (x y : ℕ) → y < 64 → bit_or (x * 64) y ≡ x * 64 + y
or_64 x y h = ground (arith, or_step (x * 64) y, or_32 x (y / 2))

pub or_128 : (x y : ℕ) → y < 128 → bit_or (x * 128) y ≡ x * 128 + y
or_128 x y h = ground (arith, or_step (x * 128) y, or_64 x (y / 2))

pub or_256 : (x y : ℕ) → y < 256 → bit_or (x * 256) y ≡ x * 256 + y
or_256 x y h = ground (arith, or_step (x * 256) y, or_128 x (y / 2))

xor_step : (a b : ℕ) → differ (a % 2) (b % 2) + 2 * bit_xor (a / 2) (b / 2) ≡ bit_xor a b
xor_step zero b = omega (arith, bit_xor-bitwise 0 b, bit_xor-bitwise 0 (b / 2))
xor_step (suc a) b = omega (
  arith,
  bit_xor-bitwise (suc a) b,
  bit_xor-bitwise (suc a / 2) (b / 2),
  digits_enough (λ y. y) differ a (suc a / 2) (suc a / 2) (b / 2) (omega arith) (omega arith),
)

differ_zero : (d : ℕ) → differ d 0 ≡ d
differ_zero zero = refl
differ_zero (suc d) = refl

differ_one : (d : ℕ) → d < 2 → differ d 1 + d ≡ 1
differ_one zero h = refl
differ_one (suc zero) h = refl
differ_one (suc (suc d)) h = absurd (omega arith)

xor-zero_below : (n a : ℕ) → a ≤ n → bit_xor a 0 ≡ a
xor-zero_below n zero h = refl
xor-zero_below zero (suc a) h = absurd (omega arith)
xor-zero_below (suc n) (suc a) h =
    omega (
      arith,
      xor_step (suc a) 0,
      differ_zero (suc a % 2),
      xor-zero_below n (suc a / 2) (omega arith),
    )

pub xor-zero : (a : ℕ) → bit_xor a 0 ≡ a
xor-zero a = xor-zero_below a a (omega arith)

-- `a ^ m` for a mask of ones that covers `a` is the complement.
pub xor_ones : (k a m : ℕ) → m + 1 ≡ 2 ^ k → a ≤ m → bit_xor a m + a ≡ m
xor_ones zero a m e h = let em : m ≡ 0 = omega arith in let ea : a ≡ 0 = omega arith in rw (em, ea)
xor_ones (suc k) a m e h =
    let odd : m % 2 ≡ 1 = omega (arith, pow-suc 2 k) in
    ground (
      arith,
      xor_step a m,
      rw odd at (xor_step a m),
      differ_one (a % 2) (omega arith),
      xor_ones k (a / 2) (m / 2) (omega (arith, pow-suc 2 k)) (omega arith),
    )
