-- ===== src/Parse.antt =====
-- `attribute::parse` (horace/attribute.cc), the constructors of the attribute classes from a
-- reader, and that of horace/attribute_list.cc.
pub mod Fuel
pub mod RoundTrip
use libholmes_horace.Wire.Octets.{Reader, read, read_octets}
use libholmes_horace.Wire.Fixed.{read_unsigned, read_signed}
use libholmes_horace.Wire.Signed.{read_signed_base128_count}
use libholmes_horace.Wire.Unsigned.{read_unsigned_base128_count}
use libholmes_horace.Attribute.{
  Attribute, compound, unsigned_integer, signed_integer, binary, string, timestamp, boolean,
  unrecognised, AttributeList, nil,
}
use libholmes_horace.Attribute.Ids
use libholmes_horace.Attribute.Order.{insert}
use libholmes_horace.Session.{get_attr_type, SessionContext}
use libholmes_horace.Common.{
  ℕ, zero, suc, ◌+◌, ◌-◌, ◌%◌, ◌^◌, not, ◌&&◌, ◌||◌, ltb, leb, ◌==◌, if◌then◌else◌, length, ◌>>=◌,
  ◌>>◌, throw_if, bad_alloc, out_of_fuel, horace_error, Result, ok, err,
}
use libholmes_horace.Common.Words.{to_int, extend}

-- `new char[length]`: no object is larger than PTRDIFF_MAX. Smaller blocks are taken to be there.
unfoldable pub allocate : ℕ → Result (Unit {0})
allocate length = throw_if (leb (2 ^ 63) length) bad_alloc

unfoldable pub parse_unsigned_integer : ℕ → ℕ → Reader Attribute
parse_unsigned_integer id length s = do
  throw_if (ltb 8 length) (horace_error "invalid length for unsigned integer attribute")
  (content, s') ← read_unsigned length s
  ok (unsigned_integer id content, s')

unfoldable pub parse_signed_integer : ℕ → ℕ → Reader Attribute
parse_signed_integer id length s = do
  throw_if (ltb 8 length) (horace_error "invalid length for signed integer attribute")
  (content, s') ← read_signed length s
  ok (signed_integer id content, s')

unfoldable pub parse_binary : ℕ → ℕ → Reader Attribute
unfolding allocate
parse_binary id length s = do
  allocate length
  (content, s') ← read_octets length s
  ok (binary id content, s')

unfoldable pub parse_string : ℕ → ℕ → Reader Attribute
unfolding allocate
parse_string id length s = do
  allocate length
  (content, s') ← read_octets length s
  ok (string id content, s')

unfoldable pub parse_unrecognised : ℕ → ℕ → Reader Attribute
unfolding allocate
parse_unrecognised id length s = do
  allocate length
  (content, s') ← read_octets length s
  ok (unrecognised id content, s')

-- `nsec` is a uint32_t; the greatest time_t is 2^63 - 1.
unfoldable pub parse_timestamp : ℕ → ℕ → Reader Attribute
parse_timestamp id length s = do
  throw_if (ltb length 5 || ltb 12 length) (horace_error "invalid length for timestamp attribute")
  (sec, s₁) ← read_unsigned (length - 4) s
  (nsec, s₂) ← read_unsigned 4 s₁
  throw_if (ltb (2 ^ 63 - 1) sec) (horace_error "invalid sec field in timestamp attribute")
  throw_if (leb 2_000_000_000 (nsec % 2 ^ 32))
      (horace_error "invalid nsec field in timestamp attribute")
  ok (timestamp id sec (nsec % 2 ^ 32), s₂)

unfoldable pub parse_boolean : ℕ → ℕ → Reader Attribute
parse_boolean id length s = do
  throw_if (not (length == 1)) (horace_error "invalid length for boolean attribute")
  (octet, s') ← read s
  throw_if (not (octet == 0) && not (octet == 1))
      (horace_error "invalid content for boolean attribute")
  ok (boolean id (not (octet == 0)), s')

-- The `switch` over the content type, but for compound attributes.
unfoldable pub parse_simple : ℕ → ℕ → ℕ → Reader Attribute
parse_simple type id length s =
    if type == Ids.type_unsigned_integer
    then parse_unsigned_integer id length s
    else if type == Ids.type_signed_integer
    then parse_signed_integer id length s
    else if type == Ids.type_binary
    then parse_binary id length s
    else if type == Ids.type_string
    then parse_string id length s
    else if type == Ids.type_timestamp
    then parse_timestamp id length s
    else if type == Ids.type_boolean
    then parse_boolean id length s
    else parse_unrecognised id length s

-- The header of a member of a list: the ID and the length, each stored in an int, and `hdr_len`.
pub record Header : Type 0 where
  pub id : ℕ
  pub attr_len : ℕ
  pub hdr_len : ℕ

unfoldable pub read_header : Reader Header
read_header s = do
  ((id, count), s₁) ← read_signed_base128_count 0 s
  ((len, hdr_len), s₂) ← read_unsigned_base128_count count s₁
  ok (record { id = to_int id; attr_len = to_int len; hdr_len = hdr_len }, s₂)

-- `size_t length = hdr_len + attr_len`, where the int is widened first.
unfoldable pub total_length : Header → ℕ
total_length h = (h.hdr_len + extend h.attr_len) % 2 ^ 64

-- A compound attribute holds a list and a list holds attributes; each call costs a unit of fuel.
unfoldable mutual
  pub parse_attribute : ℕ → SessionContext → ℕ → ℕ → Reader Attribute
  parse_attribute zero session id length s = err out_of_fuel
  parse_attribute (suc fuel) session id length s = do
    type ← get_attr_type session id
    let list = do (l, s') ← parse_list fuel session nil length s; ok (compound id l, s')
    if type == Ids.type_compound then list else parse_simple type id length s

  -- `while (remaining) { … }`, with the attributes inserted so far.
  pub parse_list : ℕ → SessionContext → AttributeList → ℕ → Reader AttributeList
  parse_list zero session attrs remaining s = err out_of_fuel
  parse_list (suc fuel) session attrs remaining s =
      let member = do
        (h, s₁) ← read_header s
        (attr, s₂) ← parse_attribute fuel session h.id (extend h.attr_len) s₁
        throw_if (ltb remaining (total_length h))
            (horace_error "overrun while parsing attribute list")
        parse_list fuel session (insert attr attrs) (remaining - total_length h) s₂
      in if remaining == 0 then ok (attrs, s) else member
