-- ===== src/Wire/Signed.antt =====
-- horace/signed_base128_integer.{h,cc}, and the signed base-128 reads of horace/octet_reader.cc.
-- An int64_t is its two's complement pattern.
pub mod Length
pub mod RoundTrip
pub mod Decode
use libholmes_horace.Common.{
  ℕ, zero, suc, ◌+◌, ◌-◌, ◌*◌, ◌%◌, ◌^◌, bit_and, bit_or, Bool, not, List, [], ◌∷◌, ◌++◌, ltb, ◌==◌,
  if◌then◌else◌, ◌>>=◌, ◌>>◌, throw_if, eof_error, integer_overflow, out_of_fuel, Result, ok, err,
}
use libholmes_horace.Common.Words.{shr, shl64, not64, sign64, sar64}
use libholmes_horace.Wire.Octets.{Reader}
use libholmes_horace.Wire.Unsigned.{length_loop, write_loop}

pub record SignedBase128Integer : Type 0 where
  pub tcvalue : ℕ
  pub length : ℕ

-- The bits that differ from the sign bit.
unfoldable pub dvalue : ℕ → ℕ
dvalue value = if sign64 value then not64 value else value

-- The loop over `size`, from 6 on, is that of the unsigned constructor.
unfoldable pub of_value : ℕ → Result SignedBase128Integer
unfolding dvalue
of_value value = do
  len ← length_loop 10 (dvalue value) 6 1
  ok (record { tcvalue = value; length = len })

-- `_tcvalue = byte & 0x3f; _tcvalue -= byte & 0x40;`
unfoldable pub first : ℕ → ℕ
first byte = (bit_and byte 0x3f + 2 ^ 64 - bit_and byte 0x40) % 2 ^ 64

-- `_tcvalue <<= 7; _tcvalue |= byte & 0x7f;`
unfoldable pub step : ℕ → ℕ → ℕ
step value byte = bit_or (shl64 value 7) (bit_and byte 0x7f)

-- `((_tcvalue >> 56) + 1) & 0xfe`
unfoldable pub overflows : ℕ → Bool
overflows value = not (bit_and (shr value 56 + 1) 0xfe == 0)

-- The loop of the constructor from a reader.
unfoldable pub parse_loop : ℕ → ℕ → ℕ → Reader SignedBase128Integer
parse_loop byte value len [] =
    if bit_and byte 0x80 == 0
    then ok (record { tcvalue = value; length = len }, [])
    else (do throw_if (overflows value) integer_overflow; err eof_error)
parse_loop byte value len (b ∷ s) =
    let more = parse_loop b (step value b) (len + 1) s in
    if bit_and byte 0x80 == 0
    then ok (record { tcvalue = value; length = len }, b ∷ s)
    else (do throw_if (overflows value) integer_overflow; more)

unfoldable pub parse : Reader SignedBase128Integer
parse [] = err eof_error
parse (b ∷ s) = parse_loop b (first b) 1 s

-- `operator int64_t`: the value without its sign bit, plus INT64_MIN if the sign bit is set.
unfoldable pub to_int64 : SignedBase128Integer → ℕ
to_int64 i =
    let value = i.tcvalue % 2 ^ 63 in if sign64 i.tcvalue then (value + 2 ^ 63) % 2 ^ 64 else value

-- `while (size > 63) { … }`: the octets and the size that is left.
unfoldable pub high_loop : ℕ → ℕ → ℕ → Result (List ℕ × ℕ)
high_loop zero value size = err out_of_fuel
high_loop (suc fuel) value size =
    let more = do
      (octets, left) ← high_loop fuel value (size - 7)
      ok ((if sign64 value then 0xff else 0x80) ∷ octets, left)
    in if ltb 63 size then more else ok ([], size)

-- The second loop and the final octet are those of the unsigned writer.
unfoldable pub write : SignedBase128Integer → Result (List ℕ)
write i = do
  (high, size) ← high_loop (i.length + 1) i.tcvalue (i.length * 7)
  low ← write_loop (i.length + 1) i.tcvalue size
  ok (high ++ low)

-- `signed_base128_integer(value).write(out)`
unfoldable pub write_value : ℕ → Result (List ℕ)
write_value value = do i ← of_value value; write i

-- `((result >> 56) + 1) >> 1`, on an int64_t
unfoldable pub result_overflows : ℕ → Bool
result_overflows result = not (sar64 ((sar64 result 56 + 1) % 2 ^ 64) 1 == 0)

-- `octet_reader::read_signed_base128()`
unfoldable pub read_loop : ℕ → ℕ → Reader ℕ
read_loop byte result [] =
    if bit_and byte 0x80 == 0
    then ok (result, [])
    else (do throw_if (result_overflows result) integer_overflow; err eof_error)
read_loop byte result (b ∷ s) =
    let more = read_loop b (bit_or (shl64 result 7) (bit_and b 0x7f)) s in
    if bit_and byte 0x80 == 0
    then ok (result, b ∷ s)
    else (do throw_if (result_overflows result) integer_overflow; more)

unfoldable pub read_signed_base128 : Reader ℕ
read_signed_base128 [] = err eof_error
read_signed_base128 (b ∷ s) = read_loop b ((bit_and b 0x3f + 2 ^ 64 - bit_and b 0x40) % 2 ^ 64) s

-- `octet_reader::read_signed_base128(size_t& count)`: the value and the new count.
unfoldable pub count_loop : ℕ → ℕ → ℕ → Reader (ℕ × ℕ)
count_loop byte result count [] =
    if bit_and byte 0x80 == 0
    then ok ((result, count), [])
    else (do throw_if (result_overflows result) integer_overflow; err eof_error)
count_loop byte result count (b ∷ s) =
    let more = count_loop b (bit_or (shl64 result 7) (bit_and b 0x7f)) (count + 1) s in
    if bit_and byte 0x80 == 0
    then ok ((result, count), b ∷ s)
    else (do throw_if (result_overflows result) integer_overflow; more)

unfoldable pub read_signed_base128_count : ℕ → Reader (ℕ × ℕ)
read_signed_base128_count count [] = err eof_error
read_signed_base128_count count (b ∷ s) =
    count_loop b ((bit_and b 0x3f + 2 ^ 64 - bit_and b 0x40) % 2 ^ 64) (count + 1) s
