-- ===== src/Wire/Signed/Decode.antt =====
-- The decoders of signed base-128 integers on any input, canonical or not.
use libholmes_horace.Wire.Signed.RoundTrip.{parse_signed-write_value}
use libholmes_horace.Common.{
  ℕ, ◌+◌, ◌*◌, ◌%◌, ◌^◌, ◌<◌, bit_and, bit_or, ◌≡◌, ◌∙◌, List, [], ◌∷◌, ◌++◌, arith, length, ◌>>=◌,
  ok,
}
use libholmes_horace.Common.Words.{shr, shl64}
use libholmes_horace.Common.Bits.{and_127, and_254, or_128}
use libholmes_horace.Wire.Signed.{
  dvalue, first, step, overflows, parse_loop, parse, to_int64, write_value, result_overflows,
  read_loop, read_signed_base128, count_loop, read_signed_base128_count, SignedBase128Integer,
}

-- The two tests for overflow, on a uint64_t and on an int64_t, agree: the top eight bits are all
-- zeros or all ones.
overflow_tests : (v : ℕ) → v < 2 ^ 64 → result_overflows v ≡ overflows v
unfolding overflows result_overflows
overflow_tests v h = ground (arith, and_254 (shr v 56 + 1))

step-lt : (v b : ℕ) → step v b < 2 ^ 64
unfolding step
step-lt v b =
    let e : shl64 v 7 ≡ v % 2 ^ 57 * 128 = omega arith in
    rw (and_127 b, e, or_128 (v % 2 ^ 57) (b % 128) (omega arith)) (omega arith)

loops_agree :
    (c b v len : ℕ) (s : List ℕ)
    → v < 2 ^ 64
    → (read_loop b v s ≡ (parse_loop b v len s >>= λ p. ok (p.0.tcvalue, p.1)))
      × (count_loop b v (c + len) s
          ≡ (parse_loop b v len s >>= λ p. ok ((p.0.tcvalue, c + p.0.length), p.1)))
unfolding read_loop count_loop parse_loop step
loops_agree c b v len [] h = ground (arith, overflow_tests v)
loops_agree c b v len (b' ∷ s) h = ground (
  arith,
  overflow_tests v,
  step-lt v b',
  loops_agree c b' (bit_or (shl64 v 7) (bit_and b' 0x7f)) (len + 1) s,
)

-- The three decoders of signed base-128 integers agree on every input, failures included:
-- `read_signed_base128` gives the value alone, and its counting form adds the length to the count.
pub signed_decoders_agree :
    (count : ℕ) (s : List ℕ)
    → (read_signed_base128 s ≡ (parse s >>= λ p. ok (p.0.tcvalue, p.1)))
      × (read_signed_base128_count count s
          ≡ (parse s >>= λ p. ok ((p.0.tcvalue, count + p.0.length), p.1)))
unfolding read_signed_base128 read_signed_base128_count parse first
signed_decoders_agree count [] = ground arith
signed_decoders_agree count (b ∷ s) = loops_agree count b (first b) 1 s (omega arith)

-- The plain and the counting decoder on what was written for a value.
pub read_signed-write_value :
    (v count : ℕ) (octets rest : List ℕ)
    → v < 2 ^ 64
    → dvalue v < 2 ^ 62
    → write_value v ≡ ok octets
    → (read_signed_base128 (octets ++ rest) ≡ ok (v, rest))
      × (read_signed_base128_count count (octets ++ rest) ≡ ok ((v, count + length octets), rest))
read_signed-write_value v count octets rest h fits w =
    let (o, _, e, _, _, r) = parse_signed-write_value v h fits in
    let same : o ≡ octets = cc in
    let p = rw same at r rest in
    let (one, two) = signed_decoders_agree count (octets ++ rest) in (one ∙ rw p, two ∙ rw p)

-- The conversion to int64_t gives the pattern back.
to_int64-tcvalue : (i : SignedBase128Integer) → i.tcvalue < 2 ^ 64 → to_int64 i ≡ i.tcvalue
unfolding to_int64
to_int64-tcvalue i h = ground arith
