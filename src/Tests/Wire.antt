-- ===== src/Tests/Wire.antt =====
-- Integers on the wire, at concrete values.
use libholmes_horace.Wire.Unsigned
use libholmes_horace.Wire.Signed
use libholmes_horace.Common.{
  ℕ, ◌-◌, ◌^◌, ◌≤◌, ◌≡◌, List, ◌++◌, arith, length, undefined_behaviour, err, ok,
}

-- -300 as an int64_t, in two octets.
abbrev minus_three_hundred : ℕ
minus_three_hundred = 2 ^ 64 - 300

parse_unsigned-write_value_example :
    (octets : List ℕ) × (Unsigned.of_value 300
      ≡ ok (record { value = 300; length = length octets }))
    × (Unsigned.write_value 300 ≡ ok octets)
    × (1 ≤ length octets)
    × (length octets ≤ 9)
    × ((rest : List ℕ)
        → Unsigned.parse (octets ++ rest)
          ≡ ok (record { value = 300; length = length octets }, rest))
parse_unsigned-write_value_example = Unsigned.RoundTrip.parse_unsigned-write_value 300 (omega arith)

parse_signed-write_value_example :
    (octets : List ℕ) × (Signed.of_value minus_three_hundred
      ≡ ok (record { tcvalue = minus_three_hundred; length = length octets }))
    × (Signed.write_value minus_three_hundred ≡ ok octets)
    × (1 ≤ length octets)
    × (length octets ≤ 9)
    × ((rest : List ℕ)
        → Signed.parse (octets ++ rest)
          ≡ ok (record { tcvalue = minus_three_hundred; length = length octets }, rest))
unfolding Signed.dvalue
parse_signed-write_value_example =
    Signed.RoundTrip.parse_signed-write_value minus_three_hundred (omega arith) (ground arith)

of_value_undefined_example : Unsigned.of_value (2 ^ 63) ≡ err undefined_behaviour
of_value_undefined_example = Unsigned.Length.of_value_undefined (2 ^ 63) (omega arith) (omega arith)

of_value_out_of_range_example : Signed.of_value (2 ^ 62) ≡ err undefined_behaviour
unfolding Signed.dvalue
of_value_out_of_range_example =
    Signed.Length.of_value_out_of_range (2 ^ 62) (omega arith) (ground arith)
