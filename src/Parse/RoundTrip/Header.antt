-- ===== src/Parse/RoundTrip/Header.antt =====
-- The header in front of an attribute's content, written and read back.
use libholmes_horace.Wire.Unsigned
use libholmes_horace.Wire.Signed
use libholmes_horace.Attribute.Encode.{write_header}
use libholmes_horace.Parse.{read_header}
use libholmes_horace.Common.{
  ℕ, ◌+◌, ◌^◌, ◌≤◌, ◌<◌, ◌≡◌, ap, List, ◌++◌, append_assoc, arith, length, length-append, ok,
}
use libholmes_horace.Common.Words.{to_int, extend, IsInt}

pub extend-fits : (id : ℕ) → IsInt id → (extend id < 2 ^ 64) × (Signed.dvalue (extend id) < 2 ^ 62)
unfolding Signed.dvalue
extend-fits id h = ground arith

pub to_int-extend : (id : ℕ) → IsInt id → to_int (extend id) ≡ id
to_int-extend id h = ground arith

to_int_small : (n : ℕ) → n < 2 ^ 31 → to_int n ≡ n
to_int_small n h = omega arith

-- The header of `n` octets of content under an ID, with the lengths that its parts are given.
pub record HeaderWritten (id n : ℕ) : Type 0 where
  pub octets : List ℕ
  pub id_length : ℕ
  pub len_length : ℕ
  pub written : write_header id n ≡ ok octets
  pub id_value :
      Signed.of_value (extend id) ≡ ok (record { tcvalue = extend id; length = id_length })
  pub len_value : Unsigned.of_value n ≡ ok (record { value = n; length = len_length })
  pub lengths : length octets ≡ id_length + len_length
  pub least : 2 ≤ length octets
  pub most : length octets ≤ 18
  pub reads :
      (rest : List ℕ)
      → read_header (octets ++ rest)
        ≡ ok (record { id = id; attr_len = n; hdr_len = length octets }, rest)

pub header_written : (id n : ℕ) → IsInt id → n < 2 ^ 31 → HeaderWritten id n
unfolding write_header read_header
header_written id n h small =
    let (x64, x62) = extend-fits id h in
    let (i, ci, wi, li, ui, _) = Signed.RoundTrip.parse_signed-write_value (extend id) x64 x62 in
    let (j, cj, wj, lj, uj, _) = Unsigned.RoundTrip.parse_unsigned-write_value n (omega arith) in
    record {
      octets = i ++ j;
      id_length = length i;
      len_length = length j;
      written = rw (wi, wj);
      id_value = ci;
      len_value = cj;
      lengths = length-append i j;
      least = omega (arith, length-append i j);
      most = omega (arith, length-append i j);
      reads = λ rest.
          rw
            (
              append_assoc i j rest,
              (Signed.Decode.read_signed-write_value (extend id) 0 i (j ++ rest) x64 x62 wi).1,
              (Unsigned.Decode.read_unsigned-write_value n (0 + length i) j rest (omega arith)
                  wj).1,
              to_int-extend id h,
              to_int_small n small,
              length-append i j,
            )
            (ap (λ c. ok (record { id = id; attr_len = n; hdr_len = c }, rest)) (omega arith));
    }
