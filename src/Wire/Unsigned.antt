-- ===== src/Wire/Unsigned.antt =====
-- horace/unsigned_base128_integer.{h,cc}, and the unsigned base-128 reads of
-- horace/octet_reader.cc.
pub mod Length
pub mod RoundTrip
pub mod Decode
use libholmes_horace.Common.{
  ℕ, zero, suc, ◌+◌, ◌-◌, ◌*◌, bit_and, bit_or, not, List, [], ◌∷◌, ltb, ◌==◌, if◌then◌else◌, ◌>>=◌,
  ◌>>◌, throw_if, eof_error, integer_overflow, out_of_fuel, Result, ok, err,
}
use libholmes_horace.Common.Words.{shr, shl64, shift_right}
use libholmes_horace.Wire.Octets.{Reader}

pub record UnsignedBase128Integer : Type 0 where
  pub value : ℕ
  pub length : ℕ

-- `while ((_value >> size) != 0) { size += 7; _length += 1; }`
unfoldable pub length_loop : ℕ → ℕ → ℕ → ℕ → Result ℕ
length_loop zero value size len = err out_of_fuel
length_loop (suc fuel) value size len = do
  rest ← shift_right value size
  let more = length_loop fuel value (size + 7) (len + 1)
  if rest == 0 then ok len else more

-- Ten rounds are enough: the count of the tenth shift is 70.
unfoldable pub of_value : ℕ → Result UnsignedBase128Integer
of_value value = do len ← length_loop 10 value 7 1; ok (record { value = value; length = len })

-- The state of a decoder between two octets: the octet just read, the value and the length.
unfoldable pub step : ℕ → ℕ → ℕ
step value byte = bit_or (shl64 value 7) (bit_and byte 0x7f)

-- The loop of the constructor from a reader.
unfoldable pub parse_loop : ℕ → ℕ → ℕ → Reader UnsignedBase128Integer
parse_loop byte value len [] =
    if bit_and byte 0x80 == 0
    then ok (record { value = value; length = len }, [])
    else (do throw_if (not (shr value 57 == 0)) integer_overflow; err eof_error)
parse_loop byte value len (b ∷ s) =
    let more = parse_loop b (step value b) (len + 1) s in
    if bit_and byte 0x80 == 0
    then ok (record { value = value; length = len }, b ∷ s)
    else (do throw_if (not (shr value 57 == 0)) integer_overflow; more)

unfoldable pub parse : Reader UnsignedBase128Integer
parse [] = err eof_error
parse (b ∷ s) = parse_loop b (bit_and b 0x7f) 1 s

-- `while (size > 7) { size -= 7; writer.write(0x80 | ((_value >> size) & 0x7f)); }`, and the final
-- octet.
unfoldable pub write_loop : ℕ → ℕ → ℕ → Result (List ℕ)
write_loop zero value size = err out_of_fuel
write_loop (suc fuel) value size =
    let more = do
      group ← shift_right value (size - 7)
      rest ← write_loop fuel value (size - 7)
      ok (bit_or 0x80 (bit_and group 0x7f) ∷ rest)
    in if ltb 7 size then more else ok (bit_and value 0x7f ∷ [])

-- The size falls by seven in each round, so as many rounds as there are octets are enough.
unfoldable pub write : UnsignedBase128Integer → Result (List ℕ)
write i = write_loop (i.length + 1) i.value (i.length * 7)

-- `unsigned_base128_integer(value).write(out)`, as every writer of a length has it.
unfoldable pub write_value : ℕ → Result (List ℕ)
write_value value = do i ← of_value value; write i

-- `octet_reader::read_unsigned_base128()`
unfoldable pub read_loop : ℕ → ℕ → Reader ℕ
read_loop byte result [] =
    if bit_and byte 0x80 == 0
    then ok (result, [])
    else (do throw_if (not (shr result 57 == 0)) integer_overflow; err eof_error)
read_loop byte result (b ∷ s) =
    let more = read_loop b (bit_or (shl64 result 7) (bit_and b 0x7f)) s in
    if bit_and byte 0x80 == 0
    then ok (result, b ∷ s)
    else (do throw_if (not (shr result 57 == 0)) integer_overflow; more)

unfoldable pub read_unsigned_base128 : Reader ℕ
read_unsigned_base128 [] = err eof_error
read_unsigned_base128 (b ∷ s) = read_loop b (bit_and b 0x7f) s

-- `octet_reader::read_unsigned_base128(size_t& count)`: the value and the new count.
unfoldable pub count_loop : ℕ → ℕ → ℕ → Reader (ℕ × ℕ)
count_loop byte result count [] =
    if bit_and byte 0x80 == 0
    then ok ((result, count), [])
    else (do throw_if (not (shr result 57 == 0)) integer_overflow; err eof_error)
count_loop byte result count (b ∷ s) =
    let more = count_loop b (bit_or (shl64 result 7) (bit_and b 0x7f)) (count + 1) s in
    if bit_and byte 0x80 == 0
    then ok ((result, count), b ∷ s)
    else (do throw_if (not (shr result 57 == 0)) integer_overflow; more)

unfoldable pub read_unsigned_base128_count : ℕ → Reader (ℕ × ℕ)
read_unsigned_base128_count count [] = err eof_error
read_unsigned_base128_count count (b ∷ s) = count_loop b (bit_and b 0x7f) (count + 1) s
