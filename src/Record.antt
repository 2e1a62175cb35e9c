-- ===== src/Record.antt =====
-- horace/record.{h,cc}: records, read from and written to a stream of octets.
pub mod Fuel
pub mod RoundTrip
pub mod Consistent
use libholmes_horace.Wire.Octets.{Reader}
use libholmes_horace.Wire.Signed
use libholmes_horace.Wire.Unsigned
use libholmes_horace.Attribute.{attrid, Attribute, compound, AttributeList, nil}
use libholmes_horace.Attribute.Ids
use libholmes_horace.Attribute.Order.{insert}
use libholmes_horace.Attribute.Equal.{list_eq, list_le}
use libholmes_horace.Attribute.Encode.{list_length, write_list}
use libholmes_horace.Session.{handle_attr_def, handle_channel_def, SessionContext}
use libholmes_horace.Parse.{read_header, total_length, parse_attribute}
use libholmes_horace.Common.{
  ℕ, zero, suc, ◌+◌, ◌-◌, ◌*◌, Bool, not, ◌&&◌, ◌||◌, List, ◌++◌, ltb, ◌==◌, if◌then◌else◌, length,
  ◌>>=◌, ◌>>◌, throw_if, bad_cast, out_of_fuel, horace_error, Result, ok, err,
}
use libholmes_horace.Common.Words.{to_int, sign32, extend}

-- The channel, an int, and the attributes.
pub record Record : Type 0 where
  pub channel : ℕ
  pub attributes : AttributeList

-- The `switch` over the ID of a parsed attribute. A definition that is not a compound attribute
-- fails the cast.
unfoldable pub handle_definition : SessionContext → Attribute → Result SessionContext
handle_definition session (compound id l) =
    if id == Ids.attrid_attr_def
    then handle_attr_def session l
    else if id == Ids.attrid_chan_def
    then handle_channel_def session l
    else ok session
handle_definition session a =
    if attrid a == Ids.attrid_attr_def || attrid a == Ids.attrid_chan_def
    then err bad_cast
    else ok session

-- `while (remaining) { … }` of the constructor from a reader, with the session as it stands.
unfoldable pub parse_members :
    ℕ → SessionContext → AttributeList → ℕ → Reader (AttributeList × SessionContext)
unfolding handle_definition
parse_members zero session attrs remaining s = err out_of_fuel
parse_members (suc fuel) session attrs remaining s =
    let member = do
      (h, s₁) ← read_header s
      (attr, s₂) ← parse_attribute fuel session h.id (extend h.attr_len) s₁
      session' ← handle_definition session attr
      throw_if (ltb remaining (total_length h))
          (horace_error "attribute extends beyond length of record")
      parse_members fuel session' (insert attr attrs) (remaining - total_length h) s₂
    in if remaining == 0 then ok ((attrs, session), s) else member

-- Each attribute takes two octets at least, and each call a unit of fuel.
unfoldable pub parse : SessionContext → Reader (Record × SessionContext)
unfolding parse_members
parse session s = do
  (channel, s₁) ← Signed.read_signed_base128 s
  (remaining, s₂) ← Unsigned.read_unsigned_base128 s₁
  ((attrs, session'), s₃) ← parse_members (2 * length s₂ + 1) session nil remaining s₂
  ok ((record { channel = to_int channel; attributes = attrs }, session'), s₃)

unfoldable pub write : Record → Result (List ℕ)
write r = do
  channel ← Signed.write_value (extend r.channel)
  len ← list_length r.attributes
  n ← Unsigned.write_value len
  body ← write_list r.attributes
  ok (channel ++ (n ++ body))

unfoldable pub is_event : Record → Bool
is_event r = not (sign32 r.channel)

unfoldable pub record_eq : Record → Record → Bool
record_eq l r = l.channel == r.channel && list_eq l.attributes r.attributes

unfoldable pub record_le : Record → Record → Bool
record_le l r = l.channel == r.channel && list_le l.attributes r.attributes
