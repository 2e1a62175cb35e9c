-- ===== src/Wire/Unsigned/RoundTrip.antt =====
-- What `write` puts out for an unsigned base-128 integer, and that the decoders read it back.
use mathlib.Core.Path.{subst}
use native.Mathlib.Nat.{div-le_self, mul_comm}
use libholmes_horace.Common.{
  ℕ, zero, suc, ◌+◌, ◌-◌, ◌*◌, ◌/◌, ◌%◌, ◌^◌, ◌≤◌, ◌<◌, bit_and, bit_or, ◌≡◌, refl, sym, ap, ◌∙◌,
  true, false, List, [], ◌∷◌, ◌++◌, arith, ◌==◌, length, ok,
}
use libholmes_horace.Common.Bits.{and_127, and_128, or_128}
use libholmes_horace.Common.Words.{shr, shl64, shift_right, pow_seven, div_seven, div-lt}
use libholmes_horace.Wire.Unsigned.Length.{of_value_fits, IsLength}
use libholmes_horace.Wire.Unsigned.{
  of_value, step, parse_loop, parse, write_loop, write, write_value,
}

-- The groups of seven bits of `v`, highest first: `k` with the continuation bit, and a last one.
unfoldable pub encoding : ℕ → ℕ → List ℕ
encoding zero v = (v % 128) ∷ []
encoding (suc k) v = (128 + v / 2 ^ (7 * suc k) % 128) ∷ encoding k v

pub length-encoding : (k v : ℕ) → length (encoding k v) ≡ suc k
unfolding encoding
length-encoding zero v = refl
length-encoding (suc k) v = ap suc (length-encoding k v)

continued : (x : ℕ) → bit_or 0x80 (bit_and x 0x7f) ≡ 128 + x % 128
continued x = rw and_127 (or_128 1 (x % 128) (omega arith))

pub write_loop-encoding :
    (k fuel v : ℕ) → k < fuel → k ≤ 9 → write_loop fuel v (7 * suc k) ≡ ok (encoding k v)
unfolding write_loop encoding shift_right
write_loop-encoding k zero v h h9 = absurd (omega arith)
write_loop-encoding zero (suc fuel) v h h9 = ground (arith, and_127 v)
write_loop-encoding (suc k) (suc fuel) v h h9 =
    ground (arith, continued (v / 2 ^ (7 * suc k)), write_loop-encoding k fuel v)

-- One step of a decoder moves the value on by a group.
join_group : (p : ℕ) → p < 2 ^ 64 → bit_or (shl64 (p / 128) 7) (p % 128) ≡ p
join_group p h =
    let e : shl64 (p / 128) 7 ≡ p / 128 * 128 = omega arith in
    rw (e, or_128 (p / 128) (p % 128) (omega arith)) (omega arith)

step-groups :
    (v k b : ℕ)
    → v < 2 ^ 64
    → b % 128 ≡ v / 2 ^ (7 * k) % 128
    → step (v / 2 ^ (7 * suc k)) b ≡ v / 2 ^ (7 * k)
unfolding step
step-groups v k b h e =
    rw (div_seven v k, and_127 b, e)
      (join_group (v / 2 ^ (7 * k)) (omega (arith, div-le_self v (2 ^ (7 * k)))))

pub top_bit : (g : ℕ) → g < 128 → (bit_and (128 + g) 0x80 == 0) ≡ false
top_bit g h = ground (arith, and_128 (128 + g))

pub no_top_bit : (g : ℕ) → g < 128 → (bit_and g 0x80 == 0) ≡ true
no_top_bit g h = ground (arith, and_128 g)

room : (v k : ℕ) → v < 2 ^ 64 → (shr (v / 2 ^ (7 * suc k)) 57 == 0) ≡ true
room v k h = ground (arith, div_seven v k, div-le_self v (2 ^ (7 * k)))

-- The two ends of a round of the loop.
parse_loop_more :
    (b v len b' : ℕ) (s : List ℕ)
    → (bit_and b 0x80 == 0) ≡ false
    → (shr v 57 == 0) ≡ true
    → parse_loop b v len (b' ∷ s) ≡ parse_loop b' (step v b') (len + 1) s
unfolding parse_loop
parse_loop_more b v len b' s c r = rw (c, r)

parse_loop_done :
    (b v len : ℕ) (s : List ℕ)
    → (bit_and b 0x80 == 0) ≡ true
    → parse_loop b v len s ≡ ok (record { value = v; length = len }, s)
unfolding parse_loop
parse_loop_done b v len [] c = rw c
parse_loop_done b v len (b' ∷ s) c = rw c

-- After a continued octet, with the higher groups of `v` read, the loop reads the groups below.
parse_loop-encoding :
    (k v b len : ℕ) (rest : List ℕ)
    → v < 2 ^ 64
    → (bit_and b 0x80 == 0) ≡ false
    → parse_loop b (v / 2 ^ (7 * suc k)) len (encoding k v ++ rest)
      ≡ ok (record { value = v; length = len + suc k }, rest)
unfolding encoding
parse_loop-encoding zero v b len rest h c =
    parse_loop_more b _ len (v % 128) rest c (room v 0 h)
    ∙ parse_loop_done (v % 128) _ (len + 1) rest (no_top_bit (v % 128) (omega arith))
    ∙ ap (λ x. ok (record { value = x; length = len + 1 }, rest))
        (step-groups v 0 (v % 128) h (omega arith) ∙ omega arith)
parse_loop-encoding (suc k) v b len rest h c =
    let b' = 128 + v / 2 ^ (7 * suc k) % 128 in
    parse_loop_more b _ len b' (encoding k v ++ rest) c (room v (suc k) h)
    ∙ rw (step-groups v (suc k) b' h (omega arith)) (
        parse_loop-encoding k v b' (len + 1) rest h (top_bit _ (omega arith))
        ∙ ap (λ n. ok (record { value = v; length = n }, rest)) (omega arith))

parse-encoding :
    (k v : ℕ) (rest : List ℕ)
    → v < 2 ^ 64
    → v < 2 ^ (7 * suc k)
    → parse (encoding k v ++ rest) ≡ ok (record { value = v; length = suc k }, rest)
unfolding encoding parse
parse-encoding zero v rest h fits =
    let e : bit_and (v % 128) 0x7f ≡ v = omega (arith, and_127 (v % 128)) in
    ap (λ x. parse_loop (v % 128) x 1 rest) e
    ∙ parse_loop_done (v % 128) v 1 rest (no_top_bit (v % 128) (omega arith))
parse-encoding (suc k) v rest h fits =
    let q = v / 2 ^ (7 * suc k) in
    let below : q < 128 = div-lt v 128 (7 * suc k) (omega (arith, pow_seven (suc k))) in
    let e : bit_and (128 + q % 128) 0x7f ≡ q = omega (arith, and_127 (128 + q % 128)) in
    ap (λ x. parse_loop (128 + q % 128) x 1 (encoding k v ++ rest)) e
    ∙ parse_loop-encoding k v (128 + q % 128) 1 rest h (top_bit _ (omega arith))
    ∙ ap (λ n. ok (record { value = v; length = n }, rest)) (omega arith)

write-encoding :
    (v n : ℕ) → 1 ≤ n → n ≤ 10 → write (record { value = v; length = n }) ≡ ok (encoding (n - 1) v)
unfolding write
write-encoding v zero h h10 = absurd (omega arith)
write-encoding v (suc k) h h10 = rw (mul_comm (suc k) 7) (
    write_loop-encoding k (suc k + 1) v (omega arith) (omega arith)
    ∙ ap (λ j. ok (encoding j v)) (omega arith))

-- What is written for a value below 2 ^ 63: at most nine octets, by the value's own length.
pub write_value-encoding :
    (v : ℕ)
    → v < 2 ^ 63
    → (k : ℕ) × (of_value v ≡ ok (record { value = v; length = suc k }))
      × (write_value v ≡ ok (encoding k v))
      × (k < 9)
      × IsLength v (suc k)
unfolding write_value
write_value-encoding v h =
    let (n, e, h9, l) = of_value_fits v h in
    let pred_n : suc (n - 1) ≡ n = omega (arith, l.positive) in
    (
      n - 1,
      rw pred_n e,
      rw e (write-encoding v n l.positive (omega arith)),
      omega (arith, l.positive),
      subst (IsLength v) (sym pred_n) l,
    )

-- A value below 2 ^ 63 is written in at most nine octets, as many as the constructor found, and
-- from these the constructor from a reader gets the value and the count of octets, and leaves
-- whatever follows.
pub parse_unsigned-write_value :
    (v : ℕ)
    → v < 2 ^ 63
    → (octets : List ℕ) × (of_value v ≡ ok (record { value = v; length = length octets }))
      × (write_value v ≡ ok octets)
      × (1 ≤ length octets)
      × (length octets ≤ 9)
      × ((rest : List ℕ)
          → parse (octets ++ rest) ≡ ok (record { value = v; length = length octets }, rest))
parse_unsigned-write_value v h =
    let (k, c, e, h9, l) = write_value-encoding v h in
    (
      encoding k v,
      rw (length-encoding k v) c,
      e,
      omega (arith, length-encoding k v),
      omega (arith, length-encoding k v),
      λ rest. rw (length-encoding k v) (parse-encoding k v rest (omega arith) l.enough),
    )
