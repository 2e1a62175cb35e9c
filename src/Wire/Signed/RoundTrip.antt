-- ===== src/Wire/Signed/RoundTrip.antt =====
-- What `write` puts out for a signed base-128 integer, and that the decoders read it back.
use native.Mathlib.Numerals.{towards_suc}
use native.Mathlib.Nat.{div-le_self}
use libholmes_horace.Wire.Unsigned.RoundTrip.{
  encoding, length-encoding, write_loop-encoding, top_bit, no_top_bit,
}
use libholmes_horace.Common.{
  ℕ, zero, suc, ◌+◌, ◌-◌, ◌*◌, ◌/◌, ◌%◌, ◌^◌, ◌≤◌, ◌<◌, bit_and, bit_or, ◌≡◌, ap, ◌∙◌, ◌⊎◌, true,
  false, List, [], ◌∷◌, ◌++◌, arith, ◌==◌, length, ok,
}
use libholmes_horace.Common.Words.{shr, shl64, not64, sar64, div_seven, div-lt}
use libholmes_horace.Common.Bits.{and_63, and_127, and_254, and_64, or_128}
use libholmes_horace.Wire.Signed.Length.{of_value_fits}
use libholmes_horace.Wire.Signed.{
  dvalue, of_value, first, step, overflows, parse_loop, parse, high_loop, write, write_value,
}

high_loop_none :
    (fuel value size : ℕ) → 1 ≤ fuel → size ≤ 63 → high_loop fuel value size ≡ ok ([], size)
unfolding high_loop
high_loop_none zero value size h h63 = absurd (omega arith)
high_loop_none (suc fuel) value size h h63 = ground arith

size_of : (k : ℕ) → (k + 1) * 7 ≡ 7 * suc k
size_of k = omega arith

write-encoding :
    (k value : ℕ)
    → k ≤ 8
    → write (record { tcvalue = value; length = k + 1 }) ≡ ok (encoding k value)
unfolding write
write-encoding k value h = rw (
  high_loop_none (k + 1 + 1) value ((k + 1) * 7) (omega arith) (omega arith),
  size_of k,
  write_loop-encoding k (k + 1 + 1) value (omega arith) (omega arith),
)

-- The value shifted down to its upper groups, with the sign shifted in.
upper : ℕ → ℕ → ℕ
upper v k = sar64 v (7 * k)

upper-lt : (v k : ℕ) → v < 2 ^ 64 → upper v k < 2 ^ 64
unfolding upper
upper-lt v k h = ground (arith, div-le_self v (2 ^ (7 * k)))

join_group : (p : ℕ) → p < 2 ^ 64 → bit_or (shl64 (sar64 p 7) 7) (p % 128) ≡ p
join_group p h =
    let e : shl64 (sar64 p 7) 7 ≡ p / 128 * 128 = ground arith in
    rw (e, or_128 (p / 128) (p % 128) (omega arith)) (omega arith)

upper-suc : (v k : ℕ) → v < 2 ^ 64 → upper v (suc k) ≡ sar64 (upper v k) 7
unfolding upper
upper-suc v k h =
    let p = 2 ^ (7 * k) in
    ground (arith, div_seven v k, div_seven (not64 v) k, div-le_self v p, div-le_self (not64 v) p)

upper_group : (v k : ℕ) → v < 2 ^ 64 → k ≤ 8 → v / 2 ^ (7 * k) % 128 ≡ upper v k % 128
unfolding upper
upper_group v zero h h8 = ground arith
upper_group v (suc zero) h h8 = ground arith
upper_group v (suc (suc zero)) h h8 = ground arith
upper_group v (suc (suc (suc zero))) h h8 = ground arith
upper_group v (suc (suc (suc (suc zero)))) h h8 = ground arith
upper_group v (suc (suc (suc (suc (suc zero))))) h h8 = ground arith
upper_group v (suc (suc (suc (suc (suc (suc zero)))))) h h8 = ground arith
upper_group v (suc (suc (suc (suc (suc (suc (suc zero))))))) h h8 = ground arith
upper_group v (suc (suc (suc (suc (suc (suc (suc (suc zero)))))))) h h8 = ground arith
upper_group v (suc (suc (suc (suc (suc (suc (suc (suc (suc k))))))))) h h8 = absurd (omega arith)

step-upper :
    (v k b : ℕ)
    → v < 2 ^ 64
    → k ≤ 8
    → b % 128 ≡ v / 2 ^ (7 * k) % 128
    → step (upper v (suc k)) b ≡ upper v k
unfolding step
step-upper v k b h h8 e =
    rw (upper-suc v k h, and_127 b, e, upper_group v k h h8)
      (join_group (upper v k) (upper-lt v k h))

room_at : (p : ℕ) → p < 2 ^ 64 → overflows (sar64 p 7) ≡ false
unfolding overflows
room_at p h = ground (arith, and_254 (shr (sar64 p 7) 56 + 1))

-- The upper part below the top group has room for another group.
room : (v k : ℕ) → v < 2 ^ 64 → overflows (upper v (suc k)) ≡ false
room v k h = rw (upper-suc v k h) (room_at (upper v k) (upper-lt v k h))

-- A number of seven bits, sign included.
abbrev IsSmall : ℕ → Type 0
IsSmall u = (u < 64) ⊎ ((2 ^ 64 - 64 ≤ u) × (u < 2 ^ 64))

first_at : (b u : ℕ) → IsSmall u → b % 128 ≡ u % 128 → first b ≡ u
unfolding first
first_at b u h e = ground (arith, and_63 b, and_64 b)

six_more : (k : ℕ) → 2 ^ (7 * k + 6) ≡ 64 * 2 ^ (7 * k)
six_more k = simp towards_suc (omega arith)

upper-IsSmall : (v k : ℕ) → v < 2 ^ 64 → dvalue v < 2 ^ (7 * k + 6) → IsSmall (upper v k)
unfolding upper dvalue
upper-IsSmall v k h fits =
    let below = div-lt (dvalue v) 64 (7 * k) (omega (arith, six_more k)) in ground (arith, below)

-- The first octet holds the sign and the top group.
first-upper :
    (v k b : ℕ)
    → v < 2 ^ 64
    → k ≤ 8
    → dvalue v < 2 ^ (7 * k + 6)
    → b % 128 ≡ v / 2 ^ (7 * k) % 128
    → first b ≡ upper v k
first-upper v k b h h8 fits e =
    first_at b (upper v k) (upper-IsSmall v k h fits) (e ∙ upper_group v k h h8)

-- The two ends of a round of the loop.
parse_loop_more :
    (b v len b' : ℕ) (s : List ℕ)
    → (bit_and b 0x80 == 0) ≡ false
    → overflows v ≡ false
    → parse_loop b v len (b' ∷ s) ≡ parse_loop b' (step v b') (len + 1) s
unfolding parse_loop
parse_loop_more b v len b' s c r = rw (c, r)

parse_loop_done :
    (b v len : ℕ) (s : List ℕ)
    → (bit_and b 0x80 == 0) ≡ true
    → parse_loop b v len s ≡ ok (record { tcvalue = v; length = len }, s)
unfolding parse_loop
parse_loop_done b v len [] c = rw c
parse_loop_done b v len (b' ∷ s) c = rw c

upper_zero : (v : ℕ) → v < 2 ^ 64 → upper v 0 ≡ v
unfolding upper
upper_zero v h = ground arith

parse_loop-encoding :
    (k v b len : ℕ) (rest : List ℕ)
    → v < 2 ^ 64
    → k ≤ 7
    → (bit_and b 0x80 == 0) ≡ false
    → parse_loop b (upper v (suc k)) len (encoding k v ++ rest)
      ≡ ok (record { tcvalue = v; length = len + suc k }, rest)
unfolding encoding
parse_loop-encoding zero v b len rest h h7 c =
    parse_loop_more b _ len (v % 128) rest c (room v 0 h)
    ∙ parse_loop_done (v % 128) _ (len + 1) rest (no_top_bit (v % 128) (omega arith))
    ∙ ap (λ x. ok (record { tcvalue = x; length = len + 1 }, rest))
        (step-upper v 0 (v % 128) h (omega arith) (omega arith) ∙ upper_zero v h)
parse_loop-encoding (suc k) v b len rest h h7 c =
    let b' = 128 + v / 2 ^ (7 * suc k) % 128 in
    parse_loop_more b _ len b' (encoding k v ++ rest) c (room v (suc k) h)
    ∙ rw (step-upper v (suc k) b' h (omega arith) (omega arith)) (
        parse_loop-encoding k v b' (len + 1) rest h (omega arith) (top_bit _ (omega arith))
        ∙ ap (λ n. ok (record { tcvalue = v; length = n }, rest)) (omega arith))

parse-encoding :
    (k v : ℕ) (rest : List ℕ)
    → v < 2 ^ 64
    → k ≤ 8
    → dvalue v < 2 ^ (7 * k + 6)
    → parse (encoding k v ++ rest) ≡ ok (record { tcvalue = v; length = k + 1 }, rest)
unfolding encoding parse
parse-encoding zero v rest h h8 fits =
    ap (λ x. parse_loop (v % 128) x 1 rest)
      (first-upper v 0 (v % 128) h h8 fits (omega arith) ∙ upper_zero v h)
    ∙ parse_loop_done (v % 128) v 1 rest (no_top_bit (v % 128) (omega arith))
parse-encoding (suc k) v rest h h8 fits =
    let b = 128 + v / 2 ^ (7 * suc k) % 128 in
    ap (λ x. parse_loop b x 1 (encoding k v ++ rest))
      (first-upper v (suc k) b h h8 fits (omega arith))
    ∙ parse_loop-encoding k v b 1 rest h (omega arith) (top_bit _ (omega arith))
    ∙ ap (λ n. ok (record { tcvalue = v; length = n }, rest)) (omega arith)

-- A value in -2^62 ≤ value < 2^62 is written in at most nine octets, as many as the constructor
-- found, and from these the constructor from a reader gets the value and the count of octets, and
-- leaves whatever follows.
pub parse_signed-write_value :
    (v : ℕ)
    → v < 2 ^ 64
    → dvalue v < 2 ^ 62
    → (octets : List ℕ) × (of_value v ≡ ok (record { tcvalue = v; length = length octets }))
      × (write_value v ≡ ok octets)
      × (1 ≤ length octets)
      × (length octets ≤ 9)
      × ((rest : List ℕ)
          → parse (octets ++ rest) ≡ ok (record { tcvalue = v; length = length octets }, rest))
unfolding write_value
parse_signed-write_value v h fits =
    let (k, e, h8, l) = of_value_fits v fits in
    let count : length (encoding k v) ≡ k + 1 = omega (arith, length-encoding k v) in
    (
      encoding k v,
      rw count e,
      rw e (write-encoding k v h8),
      omega (arith, count),
      omega (arith, count),
      λ rest. rw count (parse-encoding k v rest h h8 l),
    )
