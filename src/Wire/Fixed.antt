-- ===== src/Wire/Fixed.antt =====
-- The fixed-width integers of horace/octet_reader.cc and horace/octet_writer.cc, high octet first.
pub mod Unsigned
pub mod Signed
use libholmes_horace.Wire.Octets.{Reader, read}
use libholmes_horace.Common.{
  ℕ, zero, suc, ◌+◌, ◌-◌, ◌*◌, ◌%◌, ◌^◌, bit_and, bit_or, not, List, [], ◌∷◌, ◌==◌, ◌>>=◌, ◌>>◌,
  throw_if, integer_overflow, Result, ok,
}
use libholmes_horace.Common.Words.{shr, shl64, sar64, shift_right}

-- `while (width--) { … }` of `read_unsigned`.
unfoldable pub read_unsigned_loop : ℕ → ℕ → Reader ℕ
read_unsigned_loop zero result s = ok (result, s)
read_unsigned_loop (suc width) result s = do
  throw_if (not (shr result 56 == 0)) integer_overflow
  (b, s') ← read s
  read_unsigned_loop width (bit_or (shl64 result 8) (bit_and b 0xff)) s'

unfoldable pub read_unsigned : ℕ → Reader ℕ
read_unsigned width s = read_unsigned_loop width 0 s

-- `while (width--) { … }` of `read_signed`, on the pattern of an int64_t.
unfoldable pub read_signed_loop : ℕ → ℕ → Reader ℕ
read_signed_loop zero result s = ok (result, s)
read_signed_loop (suc width) result s = do
  throw_if (not (sar64 ((sar64 result 55 + 1) % 2 ^ 64) 1 == 0)) integer_overflow
  (b, s') ← read s
  read_signed_loop width (bit_or (shl64 result 8) (bit_and b 0xff)) s'

-- `(byte & 0x7f) - (byte & 0x80)`
unfoldable pub first : ℕ → ℕ
first b = (bit_and b 0x7f + 2 ^ 64 - bit_and b 0x80) % 2 ^ 64

unfoldable pub read_signed : ℕ → Reader ℕ
unfolding first
read_signed zero s = ok (0, s)
read_signed (suc width) s = do (b, s') ← read s; read_signed_loop width (first b) s'

-- `for (size_t i = 0, j = (width - 1) * 8; i != width; i += 1, j -= 8)`: the rounds left, and `j`.
unfoldable pub write_loop : ℕ → ℕ → ℕ → Result (List ℕ)
write_loop zero value j = ok []
write_loop (suc rounds) value j = do
  group ← shift_right value j
  rest ← write_loop rounds value ((j + 2 ^ 64 - 8) % 2 ^ 64)
  ok (bit_and group 0xff ∷ rest)

unfoldable pub write_unsigned : ℕ → ℕ → Result (List ℕ)
write_unsigned value width = write_loop width value ((width + 2 ^ 64 - 1) % 2 ^ 64 * 8 % 2 ^ 64)

-- The int64_t is stored in a uint64_t, which leaves its pattern.
unfoldable pub write_signed : ℕ → ℕ → Result (List ℕ)
write_signed value width = write_loop width value ((width + 2 ^ 64 - 1) % 2 ^ 64 * 8 % 2 ^ 64)
