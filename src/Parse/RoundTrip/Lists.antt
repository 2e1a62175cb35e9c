-- ===== src/Parse/RoundTrip/Lists.antt =====
-- `attribute::write` and `attribute_list::write` against the parsers.
use libholmes_horace.Attribute.{attrid, Attribute, AttributeList, nil}
use libholmes_horace.Attribute.Order.{IsSorted}
use libholmes_horace.Attribute.Encode.{content_length, list_length, write, write_list}
use libholmes_horace.Session.{SessionContext}
use libholmes_horace.Parse.{read_header, parse_attribute, parse_list}
use libholmes_horace.Parse.RoundTrip.Valid.{IsValid, AreValid}
use libholmes_horace.Parse.RoundTrip.Members.{attribute-Written, members_written}
use libholmes_horace.Common.{
  ℕ, ◌+◌, ◌*◌, ◌^◌, ◌<◌, ◌≡◌, ap, ◌∙◌, List, ◌++◌, append_assoc, arith, length, ok,
}

-- A valid attribute is written, as a header and a content whose length `length` predicts; the
-- header is read back from what is written, and `attribute::parse` gives the attribute back from
-- the content and leaves what follows.
pub parse_attribute-write :
    (s : SessionContext) (a : Attribute) (rest : List ℕ)
    → IsValid s a
    → (header : List ℕ) × (content : List ℕ) × (write a ≡ ok (header ++ content))
      × (content_length a ≡ ok (length content))
      × (read_header ((header ++ content) ++ rest)
          ≡ ok (
            record { id = attrid a; attr_len = length content; hdr_len = length header },
            content ++ rest,
          ))
      × (parse_attribute (2 * length content + 2) s (attrid a) (length content) (content ++ rest)
          ≡ ok (a, rest))
parse_attribute-write s a rest v =
    let w = attribute-Written s a v in
    (
      w.header.octets,
      w.content,
      w.written,
      rw (w.length_content) w.counted,
      rw (append_assoc w.header.octets w.content rest, w.length_content)
          (w.header.reads (w.content ++ rest)),
      rw (w.length_content) (w.parsed (2 * w.n + 2) rest (omega arith)),
    )

-- A list of valid attributes in canonical order is written, `length` is the number of octets
-- while this is below 2^63, and the parser of lists gives the list back and leaves what follows.
pub parse_list-write_list :
    (s : SessionContext) (l : AttributeList) (rest : List ℕ)
    → AreValid s l
    → IsSorted l
    → (octets : List ℕ) × (write_list l ≡ ok octets)
      × (length octets < 2 ^ 63 → list_length l ≡ ok (length octets))
      × (parse_list (2 * length octets + 1) s nil (length octets) (octets ++ rest) ≡ ok (l, rest))
unfolding list_length
parse_list-write_list s l rest v sorted =
    let w = members_written s l v in
    (
      w.encoded.octets,
      w.encoded.written,
      (λ h. w.encoded.counted 0 (omega arith) ∙ ap ok (omega arith)),
      w.parsed (2 * length w.encoded.octets + 1) 0 nil rest (omega arith) tt sorted,
    )
