-- ===== src/Tests/Records.antt =====
-- Records and the attributes in them, at concrete values.
use libholmes_horace.Wire.Unsigned
use libholmes_horace.Wire.Signed
use libholmes_horace.Attribute
use libholmes_horace.Attribute.{Attribute, compound, string, AttributeList, nil, cons}
use libholmes_horace.Attribute.Ids
use libholmes_horace.Attribute.Order
use libholmes_horace.Attribute.Encode
use libholmes_horace.Session
use libholmes_horace.Parse
use libholmes_horace.Record
use libholmes_horace.Tests.Sessions.{attr_def, defined, handle_attr_def-attr_def}
use libholmes_horace.Common.{
  ℕ, ◌+◌, ◌*◌, ◌^◌, ◌≤◌, ◌<◌, ◌≡◌, refl, ◌≢◌, List, [], ◌∷◌, ◌++◌, arith, length, ◌>>=◌,
  out_of_fuel, Result, err, ok,
}
use libholmes_horace.Session.{empty_session, SessionContext}

-- A session record: the definition of the attribute 0, and the attribute.
abbrev definition : Attribute.Attribute
definition = compound Ids.attrid_attr_def attr_def

abbrev greeting : Attribute.Attribute
greeting = string 0 (0x68 ∷ 0x69 ∷ [])

abbrev attributes : AttributeList
attributes = cons definition (cons greeting nil)

abbrev session_record : Record.Record
session_record = record { channel = Ids.negative 1; attributes = attributes }

abbrev body : List ℕ
body =
    0x7e ∷ 0x09 ∷ 0x7d ∷ 0x00 ∷ 0x7c ∷ 0x02 ∷ 0x68 ∷ 0x69 ∷ 0x78 ∷ 0x01 ∷ 0x04 ∷ 0x00 ∷ 0x02 ∷ 0x68
    ∷ 0x69 ∷ []

write_body : Encode.write_list attributes ≡ ok body
unfolding Encode.write_list Encode.list_length libholmes_horace.Wire.Signed.of_value
    libholmes_horace.Wire.Unsigned.length_loop libholmes_horace.Common.Words.shift_right
    libholmes_horace.Wire.Unsigned.of_value libholmes_horace.Wire.Signed.write_value
    libholmes_horace.Wire.Signed.write libholmes_horace.Wire.Signed.high_loop
    libholmes_horace.Wire.Unsigned.write_loop libholmes_horace.Wire.Unsigned.write_value
    libholmes_horace.Wire.Unsigned.write libholmes_horace.Wire.Fixed.write_signed
    libholmes_horace.Wire.Fixed.write_loop libholmes_horace.Wire.Fixed.write_unsigned
write_body = refl

written_attr_def :
    (octets : List ℕ) × (Encode.write_list attr_def ≡ ok octets) × (length octets < 2 ^ 31)
unfolding Encode.write_list libholmes_horace.Wire.Signed.write_value
    libholmes_horace.Wire.Signed.of_value libholmes_horace.Wire.Unsigned.length_loop
    libholmes_horace.Common.Words.shift_right libholmes_horace.Wire.Signed.write
    libholmes_horace.Wire.Signed.high_loop libholmes_horace.Wire.Unsigned.write_loop
    libholmes_horace.Wire.Unsigned.write_value libholmes_horace.Wire.Unsigned.of_value
    libholmes_horace.Wire.Unsigned.write libholmes_horace.Wire.Fixed.write_signed
    libholmes_horace.Wire.Fixed.write_loop libholmes_horace.Wire.Fixed.write_unsigned
written_attr_def =
    (0x7d ∷ 0x00 ∷ 0x7c ∷ 0x02 ∷ 0x68 ∷ 0x69 ∷ 0x78 ∷ 0x01 ∷ 0x04 ∷ [], refl, omega arith)

attr_def-IsSorted : Order.IsSorted attr_def
unfolding Order.order
attr_def-IsSorted = (omega arith, (omega arith, (omega arith, tt)))

attributes-IsSorted : Order.IsSorted attributes
unfolding Order.order
attributes-IsSorted = (omega arith, (omega arith, tt))

attr_def-AreValid : Parse.RoundTrip.Valid.AreValid empty_session attr_def
unfolding Session.get_attr_type
attr_def-AreValid = (
  (omega arith, refl, omega arith),
  ((omega arith, refl, omega arith), ((omega arith, refl, omega arith), tt)),
)

definition-IsValid : Parse.RoundTrip.Valid.IsValid empty_session definition
unfolding Session.get_attr_type
definition-IsValid = (omega arith, refl, attr_def-IsSorted, attr_def-AreValid, written_attr_def)

greeting-IsValid : Parse.RoundTrip.Valid.IsValid defined greeting
unfolding Session.get_attr_type
greeting-IsValid = (omega arith, refl, omega arith)

defines : Record.handle_definition empty_session definition ≡ ok defined
unfolding Record.handle_definition
defines = handle_attr_def-attr_def

carried : Record.RoundTrip.Carried empty_session attributes defined
unfolding Record.handle_definition
carried = (definition-IsValid, (defined, defines, (greeting-IsValid, (defined, refl, refl))))

parse-write_example :
    (octets : List ℕ) × (Record.write session_record ≡ ok octets)
    × (Record.parse empty_session (octets ++ (7 ∷ [])) ≡ ok ((session_record, defined), 7 ∷ []))
parse-write_example =
    Record.RoundTrip.parse-write empty_session defined session_record body (7 ∷ []) (omega arith)
      carried attributes-IsSorted write_body (omega arith)

abbrev octets : List ℕ
octets = 0x7f ∷ 0x0f ∷ body

parse_terminates_example :
    (Record.parse empty_session octets ≢ err out_of_fuel)
    × ((r : Record.Record) (session' : SessionContext) (rest : List ℕ)
        → Record.parse empty_session octets ≡ ok ((r, session'), rest)
        → 2 + length rest ≤ length octets)
parse_terminates_example = Record.Fuel.parse_terminates empty_session octets (omega arith)

write_octets : Record.write session_record ≡ ok octets
unfolding Record.write Signed.write_value Signed.of_value Unsigned.length_loop
    libholmes_horace.Common.Words.shift_right Signed.write Signed.high_loop Unsigned.write_loop
    Encode.list_length Encode.length_loop Unsigned.of_value Unsigned.write_value Unsigned.write
    Encode.write_list libholmes_horace.Wire.Fixed.write_signed
    libholmes_horace.Wire.Fixed.write_loop libholmes_horace.Wire.Fixed.write_unsigned
write_octets = refl

parse_octets : Record.parse empty_session octets ≡ ok ((session_record, defined), [])
parse_octets =
    let (o, w, p) =
      Record.RoundTrip.parse-write empty_session defined session_record body [] (omega arith)
        carried attributes-IsSorted write_body (omega arith) in
    let same : o ≡ octets = cc (w, write_octets) in rw same at p

members_of :
    (m : Result ((AttributeList × SessionContext) × List ℕ)) (channel : ℕ)
    → ◌>>=◌ {B = (Record.Record × SessionContext) × List ℕ} m
        (λ p. ok ((record { channel = channel; attributes = p.0.0 }, p.0.1), p.1))
      ≡ ok ((session_record, defined), [])
    → m ≡ ok ((attributes, defined), [])
members_of (ok p) channel e = cc
members_of (err x) channel e = cc

parse_body :
    Record.parse_members (2 * length body + 1) empty_session nil 15 body
    ≡ ok ((attributes, defined), [])
unfolding Record.parse Signed.read_signed_base128 Signed.read_loop Unsigned.read_unsigned_base128
    Unsigned.read_loop
parse_body =
    members_of (Record.parse_members (2 * length body + 1) empty_session nil 15 body) _ parse_octets

parse-IsConsistent_example : Session.Consistent.IsConsistent defined
parse-IsConsistent_example =
    Record.Consistent.parse-IsConsistent empty_session defined octets [] session_record parse_octets
      refl

parse_attribute-write_example :
    (header : List ℕ) × (content : List ℕ) × (Encode.write definition ≡ ok (header ++ content))
    × (Encode.content_length definition ≡ ok (length content))
    × (Parse.read_header ((header ++ content) ++ [])
        ≡ ok (
          record { id = Ids.attrid_attr_def; attr_len = length content; hdr_len = length header },
          content ++ [],
        ))
    × (Parse.parse_attribute
          (2 * length content + 2)
          empty_session
          Ids.attrid_attr_def
          (length content)
          (content ++ [])
        ≡ ok (definition, []))
parse_attribute-write_example =
    Parse.RoundTrip.Lists.parse_attribute-write empty_session definition [] definition-IsValid

parse_list-write_list_example :
    (octets : List ℕ) × (Encode.write_list attr_def ≡ ok octets)
    × (length octets < 2 ^ 63 → Encode.list_length attr_def ≡ ok (length octets))
    × (Parse.parse_list (2 * length octets + 1) empty_session nil (length octets) (octets ++ [])
        ≡ ok (attr_def, []))
parse_list-write_list_example =
    Parse.RoundTrip.Lists.parse_list-write_list empty_session attr_def [] attr_def-AreValid
      attr_def-IsSorted
