-- ===== src/Wire/Fixed/Signed.antt =====
-- `read_signed` on what `write_signed` puts out.
use native.Mathlib.Nat.{div-le_self}
use native.Mathlib.Numerals.{towards_suc}
use libholmes_horace.Wire.Octets.{read}
use libholmes_horace.Wire.Fixed.Unsigned.{octets, length-octets, write_signed-octets}
use libholmes_horace.Wire.Signed.{dvalue}
use libholmes_horace.Common.{
  ℕ, zero, suc, ◌+◌, ◌-◌, ◌*◌, ◌/◌, ◌%◌, ◌^◌, ◌≤◌, ◌<◌, bit_and, bit_or, ◌≡◌, ap, ◌⊎◌, true, List,
  ◌++◌, arith, ◌==◌, length, ok,
}
use libholmes_horace.Common.Words.{shl64, not64, sar64, div_eight, div-lt}
use libholmes_horace.Common.Bits.{and_127, and_255, and_128, or_256}
use libholmes_horace.Wire.Fixed.{read_signed_loop, first, read_signed, write_signed}

-- The value shifted down to its upper octets, with the sign shifted in.
upper : ℕ → ℕ → ℕ
upper v n = sar64 v (8 * n)

upper-lt : (v n : ℕ) → v < 2 ^ 64 → upper v n < 2 ^ 64
unfolding upper
upper-lt v n h = ground (arith, div-le_self v (2 ^ (8 * n)))

upper-suc : (v n : ℕ) → v < 2 ^ 64 → upper v (suc n) ≡ sar64 (upper v n) 8
unfolding upper
upper-suc v n h =
    let p = 2 ^ (8 * n) in
    ground (arith, div_eight v n, div_eight (not64 v) n, div-le_self v p, div-le_self (not64 v) p)

upper_octet : (v n : ℕ) → v < 2 ^ 64 → n ≤ 7 → v / 2 ^ (8 * n) % 256 ≡ upper v n % 256
unfolding upper
upper_octet v zero h h7 = ground arith
upper_octet v (suc zero) h h7 = ground arith
upper_octet v (suc (suc zero)) h h7 = ground arith
upper_octet v (suc (suc (suc zero))) h h7 = ground arith
upper_octet v (suc (suc (suc (suc zero)))) h h7 = ground arith
upper_octet v (suc (suc (suc (suc (suc zero))))) h h7 = ground arith
upper_octet v (suc (suc (suc (suc (suc (suc zero)))))) h h7 = ground arith
upper_octet v (suc (suc (suc (suc (suc (suc (suc zero))))))) h h7 = ground arith
upper_octet v (suc (suc (suc (suc (suc (suc (suc (suc n)))))))) h h7 = absurd (omega arith)

upper_zero : (v : ℕ) → v < 2 ^ 64 → upper v 0 ≡ v
unfolding upper
upper_zero v h = ground arith

join_octet :
    (p b : ℕ) → p < 2 ^ 64 → b % 256 ≡ p % 256 → bit_or (shl64 (sar64 p 8) 8) (bit_and b 0xff) ≡ p
join_octet p b h e =
    let up : shl64 (sar64 p 8) 8 ≡ p / 256 * 256 = ground arith in
    rw (up, and_255 b, e, or_256 (p / 256) (p % 256) (omega arith)) (omega arith)

room : (p : ℕ) → p < 2 ^ 64 → (sar64 ((sar64 (sar64 p 8) 55 + 1) % 2 ^ 64) 1 == 0) ≡ true
room p h = ground arith

read_signed_loop-octets :
    (n v : ℕ) (rest : List ℕ)
    → v < 2 ^ 64
    → n ≤ 8
    → read_signed_loop n (upper v n) (octets n v ++ rest) ≡ ok (v, rest)
unfolding read_signed_loop octets read
read_signed_loop-octets zero v rest h h8 = ap (λ x. ok (x, rest)) (upper_zero v h)
read_signed_loop-octets (suc n) v rest h h8 =
    let p = upper v n in
    let p64 = upper-lt v n h in
    let same = upper_octet v n h (omega arith) in
    rw (upper-suc v n h, room p p64, join_octet p (v / 2 ^ (8 * n) % 256) p64 (omega (arith, same)))
      (read_signed_loop-octets n v rest h (omega arith))

-- A number of eight bits, sign included.
abbrev IsSmall : ℕ → Type 0
IsSmall u = (u < 128) ⊎ ((2 ^ 64 - 128 ≤ u) × (u < 2 ^ 64))

first_at : (b u : ℕ) → IsSmall u → b % 256 ≡ u % 256 → first b ≡ u
unfolding first
first_at b u h e = ground (arith, and_127 b, and_128 b)

seven_more : (k : ℕ) → 2 ^ (8 * k + 7) ≡ 128 * 2 ^ (8 * k)
seven_more k = simp towards_suc (omega arith)

upper-IsSmall : (v k : ℕ) → v < 2 ^ 64 → dvalue v < 2 ^ (8 * k + 7) → IsSmall (upper v k)
unfolding upper dvalue
upper-IsSmall v k h fits =
    let below = div-lt (dvalue v) 128 (8 * k) (omega (arith, seven_more k)) in ground (arith, below)

-- An int64_t whose bits below the sign fit `n` octets less one bit is written in `n` octets and
-- read back from them; `n` is eight at most.
pub read_signed-write_signed :
    (n v : ℕ)
    → v < 2 ^ 64
    → n ≤ 7
    → dvalue v < 2 ^ (8 * n + 7)
    → (written : List ℕ) × (write_signed v (suc n) ≡ ok written)
      × (length written ≡ suc n)
      × ((rest : List ℕ) → read_signed (suc n) (written ++ rest) ≡ ok (v, rest))
unfolding read_signed read octets
read_signed-write_signed n v h h7 fits =
    let b = v / 2 ^ (8 * n) % 256 in
    let same = upper_octet v n h (omega arith) in
    let e : first b ≡ upper v n =
      first_at b (upper v n) (upper-IsSmall v n h fits) (omega (arith, same)) in
    (
      octets (suc n) v,
      write_signed-octets (suc n) v (omega arith),
      length-octets (suc n) v,
      λ rest. rw e (read_signed_loop-octets n v rest h (omega arith)),
    )
