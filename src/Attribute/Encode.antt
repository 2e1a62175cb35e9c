-- ===== src/Attribute/Encode.antt =====
-- `length` and `write` of the attribute classes and of horace/attribute_list.cc.
pub mod Sizes
use libholmes_horace.Wire.Unsigned
use libholmes_horace.Wire.Signed
use libholmes_horace.Wire.Fixed.{first, write_unsigned, write_signed}
use libholmes_horace.Common.{
  ℕ, zero, suc, ◌+◌, ◌-◌, ◌%◌, ◌^◌, Bool, true, false, List, [], ◌∷◌, ◌++◌, leb, ◌==◌,
  if◌then◌else◌, length, ◌>>=◌, undefined_behaviour, out_of_fuel, Result, ok, err,
}
use libholmes_horace.Common.Words.{shr, sign64, sar64, to_int, extend}
use libholmes_horace.Attribute.{
  attrid, size, Attribute, compound, unsigned_integer, signed_integer, binary, string, timestamp,
  boolean, unrecognised, AttributeList, nil, cons,
}

-- `while (rem) { len += 1; rem >>= 8; }`; nine rounds are enough for a uint64_t.
unfoldable pub octet_loop : ℕ → ℕ → ℕ → Result ℕ
octet_loop zero rem len = err out_of_fuel
octet_loop (suc fuel) rem len =
    let more = octet_loop fuel (shr rem 8) (len + 1) in if rem == 0 then ok len else more

-- `_content >> size` on an int64_t: undefined from 64 on.
unfoldable pub shift_right_signed : ℕ → ℕ → Result ℕ
shift_right_signed x k = if leb 64 k then err undefined_behaviour else ok (sar64 x k)

-- `while ((_content >> size) != term) { size += 8; count += 1; }`
unfoldable pub signed_loop : ℕ → ℕ → ℕ → ℕ → ℕ → Result ℕ
signed_loop zero content term size count = err out_of_fuel
signed_loop (suc fuel) content term size count = do
  rest ← shift_right_signed content size
  let more = signed_loop fuel content term (size + 8) (count + 1)
  if rest == term then ok count else more

unfoldable pub signed_length : ℕ → Result ℕ
signed_length content =
    let term = if sign64 content then 2 ^ 64 - 1 else 0 in
    let count = signed_loop 8 content term 7 1 in if content == 0 then ok 0 else count

-- `length()`: the content of an attribute in octets, and `attribute_list::length()`, whose loop
-- carries `len`.
unfoldable mutual
  unfolding octet_loop signed_length

  pub content_length : Attribute → Result ℕ
  content_length (compound id l) = length_loop 0 l
  content_length (unsigned_integer id content) = octet_loop 9 content 0
  content_length (signed_integer id content) = signed_length content
  content_length (binary id content) = ok (length content)
  content_length (string id content) = ok (length content)
  content_length (timestamp id sec nsec) = octet_loop 9 sec 4
  content_length (boolean id content) = ok 1
  content_length (unrecognised id content) = ok (length content)

  pub length_loop : ℕ → AttributeList → Result ℕ
  length_loop len nil = ok len
  length_loop len (cons a l) = do
    attr_len ← content_length a
    i ← Signed.of_value (extend (attrid a))
    j ← Unsigned.of_value attr_len
    length_loop ((len + i.length + j.length + attr_len) % 2 ^ 64) l

unfoldable pub list_length : AttributeList → Result ℕ
list_length l = length_loop 0 l

-- `signed_base128_integer(attrid()).write(out); unsigned_base128_integer(len).write(out);`
unfoldable pub write_header : ℕ → ℕ → Result (List ℕ)
write_header id len = do
  i ← Signed.write_value (extend id)
  n ← Unsigned.write_value len
  ok (i ++ n)

-- `int len = length();`, used as a 64-bit number again.
abbrev pub through_int : ℕ → ℕ
through_int len = extend (to_int len)

unfoldable pub octet_of_bool : Bool → ℕ
octet_of_bool false = 0
octet_of_bool true = 1

-- `write(octet_writer&)` of each class, and of an attribute list.
unfoldable mutual
  unfolding content_length write_header octet_of_bool

  pub write : Attribute → Result (List ℕ)
  write (compound id l) = do
    len ← list_length l
    h ← write_header id len
    body ← write_list l
    ok (h ++ body)
  write (unsigned_integer id content) = do
    len ← octet_loop 9 content 0
    h ← write_header id (through_int len)
    body ← write_unsigned content (through_int len)
    ok (h ++ body)
  write (signed_integer id content) = do
    len ← signed_length content
    h ← write_header id (through_int len)
    body ← write_signed content (through_int len)
    ok (h ++ body)
  write (binary id content) = do h ← write_header id (length content); ok (h ++ content)
  write (string id content) = do h ← write_header id (length content); ok (h ++ content)
  write (timestamp id sec nsec) = do
    len ← octet_loop 9 sec 4
    h ← write_header id (through_int len)
    high ← write_unsigned sec (extend ((to_int len + 2 ^ 32 - 4) % 2 ^ 32))
    low ← write_unsigned nsec 4
    ok (h ++ (high ++ low))
  write (boolean id content) = do
    h ← write_header id (through_int 1)
    ok (h ++ (octet_of_bool content ∷ []))
  write (unrecognised id content) = do h ← write_header id (length content); ok (h ++ content)

  pub write_list : AttributeList → Result (List ℕ)
  write_list nil = ok []
  write_list (cons a l) = do first ← write a; rest ← write_list l; ok (first ++ rest)
