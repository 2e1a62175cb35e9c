-- ===== src/FileStore/Output/Lengths.antt =====
-- The length that horace+file counts for a record is that of the octets that are written for it.
use libholmes_horace.Wire.Signed
use libholmes_horace.Wire.Unsigned
use libholmes_horace.Attribute.Encode.{length_loop, list_length, write_list}
use libholmes_horace.Record
use libholmes_horace.Record.{Record}
use libholmes_horace.Session.{SessionContext}
use libholmes_horace.Parse.RoundTrip.Valid.{AreValid}
use libholmes_horace.Parse.RoundTrip.Header.{extend-fits}
use libholmes_horace.Parse.RoundTrip.Members.{members_written}
use libholmes_horace.FileStore.Output.{full_length}
use libholmes_horace.Common.Words.{extend, IsInt}
use libholmes_horace.Common.{
  ℕ, ◌+◌, ◌%◌, ◌^◌, ◌<◌, ◌≡◌, refl, ap, ◌∙◌, List, ◌++◌, arith, length, length-append, ok,
}

-- A record with an int for its channel, attributes that are valid in some session, and fewer than
-- 2 ^ 62 octets of them.
pub record IsStorable (r : Record) : Type 0 where
  pub channel : IsInt r.channel
  pub session : SessionContext
  pub valid : AreValid session r.attributes
  pub short : (body : List ℕ) → write_list r.attributes ≡ ok body → length body < 2 ^ 62

pub full_length-write :
    (r : Record)
    → IsStorable r
    → (octets : List ℕ) × (Record.write r ≡ ok octets)
      × (full_length r ≡ ok (length octets))
      × (length octets < 2 ^ 62 + 20)
unfolding full_length Record.write list_length
full_length-write r h =
    let w = (members_written h.session r.attributes h.valid).encoded in
    let short = h.short w.octets w.written in
    let counted : length_loop 0 r.attributes ≡ ok (length w.octets) =
      w.counted 0 (omega (arith, short)) ∙ ap ok (omega arith) in
    let (in_range, no_wrap) = extend-fits r.channel h.channel in
    let (c, oc, wc, _, lc, _) =
      Signed.RoundTrip.parse_signed-write_value (extend r.channel) in_range no_wrap in
    let (n, on, wn, _, ln, _) =
      Unsigned.RoundTrip.parse_unsigned-write_value (length w.octets) (omega (arith, short)) in
    let total : length (c ++ (n ++ w.octets)) ≡ length c + (length n + length w.octets) =
      length-append c (n ++ w.octets) ∙ ap (λ k. length c + k) (length-append n w.octets) in
    let same : (length c + length n + length w.octets) % 2 ^ 64 ≡ length (c ++ (n ++ w.octets)) =
      omega (arith, total, lc, ln, short) in
    (
      c ++ (n ++ w.octets),
      rw (wc, counted, wn, w.written) refl,
      rw (counted, oc, on) (ap ok same),
      omega (arith, total, lc, ln, short),
    )
