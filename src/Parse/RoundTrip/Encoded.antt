-- ===== src/Parse/RoundTrip/Encoded.antt =====
-- What is written for a list, and what the length computation counts for it.
use libholmes_horace.Attribute.{Attribute, AttributeList, nil, cons}
use libholmes_horace.Attribute.Encode.{length_loop, write_list}
use libholmes_horace.Session.{SessionContext}
use libholmes_horace.Parse.RoundTrip.Simple.{Written}
use libholmes_horace.Common.{
  ℕ, ◌+◌, ◌%◌, ◌^◌, ◌<◌, ◌≡◌, refl, ap, ◌∙◌, List, [], ◌++◌, arith, length, length-append, ok,
}

-- The list is written as octets whose number the length counts.
pub record Encoded (l : AttributeList) : Type 0 where
  pub octets : List ℕ
  pub written : write_list l ≡ ok octets
  pub counted :
      (len : ℕ) → len + length octets < 2 ^ 63 → length_loop len l ≡ ok (len + length octets)

pub written_nil : write_list nil ≡ ok []
unfolding write_list
written_nil = refl

pub counted_nil : (len : ℕ) → len + 0 < 2 ^ 63 → length_loop len nil ≡ ok (len + 0)
unfolding length_loop
counted_nil len h = ap ok (omega arith)

abbrev pub encoded_nil : Encoded nil
encoded_nil = record { octets = []; written = written_nil; counted = counted_nil }

module _ {s : SessionContext} {a : Attribute} {l : AttributeList} (w : Written s a)
    (v : Encoded l) where
  abbrev pub octets_cons : List ℕ
  octets_cons = (w.header.octets ++ w.content) ++ v.octets

  pub length-octets_cons : length octets_cons ≡ length w.header.octets + w.n + length v.octets
  length-octets_cons = omega (
    arith,
    length-append (w.header.octets ++ w.content) v.octets,
    length-append w.header.octets w.content,
    w.length_content,
  )

  pub counted_cons :
      (len : ℕ)
      → len + length octets_cons < 2 ^ 63
      → length_loop len (cons a l) ≡ ok (len + length octets_cons)
  unfolding length_loop
  counted_cons len h =
      let total = w.header.lengths in
      let total_octets = length-octets_cons in
      let sum : (len + w.header.id_length + w.header.len_length + w.n) % 2 ^ 64
          ≡ len + length w.header.octets + w.n =
        omega arith in
      rw (w.counted, w.header.id_value, w.header.len_value, sum)
        (v.counted (len + length w.header.octets + w.n) (omega arith) ∙ ap ok (omega arith))

  pub written_cons : write_list (cons a l) ≡ ok octets_cons
  unfolding write_list
  written_cons = rw (w.written, v.written)

  abbrev pub encoded_cons : Encoded (cons a l)
  encoded_cons = record { octets = octets_cons; written = written_cons; counted = counted_cons }
