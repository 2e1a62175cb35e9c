-- ===== src/Wire/Unsigned/Decode.antt =====
-- The decoders of unsigned base-128 integers on any input, canonical or not.
use libholmes_horace.Common.{
  ℕ, ◌+◌, ◌*◌, ◌%◌, ◌^◌, ◌<◌, bit_and, bit_or, ◌≡◌, refl, ap, ◌∙◌, ◌≢◌, inl, inr, true, false, not,
  List, [], ◌∷◌, ◌++◌, arith, ◌==◌, Bool-cases, length, ◌>>=◌, ok,
}
use libholmes_horace.Common.Bits.{and_127, or_128}
use libholmes_horace.Common.Words.{shr, shl64}
use libholmes_horace.Wire.Unsigned.RoundTrip.{parse_unsigned-write_value}
use libholmes_horace.Wire.Unsigned.{
  step, parse_loop, parse, write_value, read_loop, read_unsigned_base128, count_loop,
  read_unsigned_base128_count, UnsignedBase128Integer,
}

-- The number that octets stand for after `acc`: seven bits each, highest first.
unfoldable pub numeral : ℕ → List ℕ → ℕ
numeral acc [] = acc
numeral acc (b ∷ s) = numeral (acc * 128 + b % 128) s

step_exact : (v b : ℕ) → (not (shr v 57 == 0)) ≡ false → step v b ≡ v * 128 + b % 128
unfolding step
step_exact v b h =
    let e : shl64 v 7 ≡ v * 128 = ground arith in
    rw (and_127 b, e) (or_128 v (b % 128) (omega arith))

-- A successful decode used up a front part of the input: the value is the number that the front
-- stands for, with no bit lost, and the length counts it.
abbrev Decoded : ℕ → ℕ → List ℕ → UnsignedBase128Integer → List ℕ → Type 0
Decoded acc len s i rest =
    (front : List ℕ) × (s ≡ front ++ rest)
    × (i.value ≡ numeral acc front)
    × (i.length ≡ len + length front)
    × (i.value < 2 ^ 64)

stopped :
    (b v len : ℕ) (s : List ℕ) (i : UnsignedBase128Integer) (rest : List ℕ)
    → v < 2 ^ 64
    → (bit_and b 0x80 == 0) ≡ true
    → parse_loop b v len s ≡ ok (i, rest)
    → Decoded v len s i rest
unfolding parse_loop numeral
stopped b v len [] i rest h c e = ([], ground arith, ground arith, ground arith, ground arith)
stopped b v len (b' ∷ s) i rest h c e = ([], ground arith, ground arith, ground arith, ground arith)

continues :
    (b v len b' : ℕ) (s : List ℕ) (i : UnsignedBase128Integer) (rest : List ℕ)
    → (bit_and b 0x80 == 0) ≡ false
    → parse_loop b v len (b' ∷ s) ≡ ok (i, rest)
    → ((not (shr v 57 == 0)) ≡ false) × (parse_loop b' (step v b') (len + 1) s ≡ ok (i, rest))
unfolding parse_loop
continues b v len b' s i rest c e = ground arith

cut_off :
    (b v len : ℕ) (i : UnsignedBase128Integer) (rest : List ℕ)
    → (bit_and b 0x80 == 0) ≡ false
    → parse_loop b v len [] ≢ ok (i, rest)
unfolding parse_loop
cut_off b v len i rest c e = ground arith

parse_loop_sound :
    (b v len : ℕ) (s : List ℕ) (i : UnsignedBase128Integer) (rest : List ℕ)
    → v < 2 ^ 64
    → parse_loop b v len s ≡ ok (i, rest)
    → Decoded v len s i rest
unfolding numeral
parse_loop_sound b v len [] i rest h e = elim (Bool-cases (bit_and b 0x80 == 0)) [
  | inl c ↦ stopped b v len [] i rest h c e
  | inr c ↦ absurd (cut_off b v len i rest c e)
]
parse_loop_sound b v len (b' ∷ s) i rest h e = elim (Bool-cases (bit_and b 0x80 == 0)) [
  | inl c ↦ stopped b v len (b' ∷ s) i rest h c e
  | inr c ↦
      let (r, e') = continues b v len b' s i rest c e in
      let x = step_exact v b' r in
      let (front, p, q, l, w) =
        parse_loop_sound b' (step v b') (len + 1) s i rest (ground (arith, x)) e' in
      (b' ∷ front, ap (λ t. b' ∷ t) p, rw x at q, omega (arith, l), w)
]

-- What the constructor accepts is the number that the octets taken stand for, with no bit lost;
-- the length is the count of these octets; and the value is a uint64_t.
pub parse_sound :
    (s : List ℕ) (i : UnsignedBase128Integer) (rest : List ℕ)
    → parse s ≡ ok (i, rest)
    → (front : List ℕ) × (s ≡ front ++ rest)
      × (i.value ≡ numeral 0 front)
      × (i.length ≡ length front)
      × (i.value < 2 ^ 64)
unfolding parse numeral
parse_sound [] i rest e = cc
parse_sound (b ∷ s) i rest e =
    let x = and_127 b in
    let (front, p, q, l, w) = parse_loop_sound b (bit_and b 0x7f) 1 s i rest (omega (arith, x)) e in
    (
      b ∷ front,
      ap (λ t. b ∷ t) p,
      q ∙ ap (λ t. numeral t front) (omega (arith, x)),
      omega (arith, l),
      w,
    )

loops_agree :
    (c b v len : ℕ) (s : List ℕ)
    → (read_loop b v s ≡ (parse_loop b v len s >>= λ p. ok (p.0.value, p.1)))
      × (count_loop b v (c + len) s
          ≡ (parse_loop b v len s >>= λ p. ok ((p.0.value, c + p.0.length), p.1)))
unfolding read_loop count_loop parse_loop step
loops_agree c b v len [] = ground arith
loops_agree c b v len (b' ∷ s) =
    ground (arith, loops_agree c b' (bit_or (shl64 v 7) (bit_and b' 0x7f)) (len + 1) s)

-- The three decoders of unsigned base-128 integers agree on every input, failures included:
-- `read_unsigned_base128` gives the value alone, and its counting form adds the length to the
-- count.
pub unsigned_decoders_agree :
    (count : ℕ) (s : List ℕ)
    → (read_unsigned_base128 s ≡ (parse s >>= λ p. ok (p.0.value, p.1)))
      × (read_unsigned_base128_count count s
          ≡ (parse s >>= λ p. ok ((p.0.value, count + p.0.length), p.1)))
unfolding read_unsigned_base128 read_unsigned_base128_count parse
unsigned_decoders_agree count [] = ground arith
unsigned_decoders_agree count (b ∷ s) = loops_agree count b (bit_and b 0x7f) 1 s

-- Both readers of `octet_reader` give back a value below 2^63 from the octets written for it, and
-- leave what follows; the counting one adds the number of these octets to its count.
pub read_unsigned-write_value :
    (v count : ℕ) (octets rest : List ℕ)
    → v < 2 ^ 63
    → write_value v ≡ ok octets
    → (read_unsigned_base128 (octets ++ rest) ≡ ok (v, rest))
      × (read_unsigned_base128_count count (octets ++ rest) ≡ ok ((v, count + length octets), rest))
read_unsigned-write_value v count octets rest h w =
    let (o, _, e, _, _, r) = parse_unsigned-write_value v h in
    let same : o ≡ octets = cc in
    let (plain, counting) = unsigned_decoders_agree count (octets ++ rest) in
    (plain ∙ rw (rw same at r rest) refl, counting ∙ rw (rw same at r rest) refl)
