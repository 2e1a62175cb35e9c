-- ===== src/Record/RoundTrip.antt =====
-- Records: what `write` gives for one is parsed back, with the definitions that it carries handled.
use mathlib.Core.Path.{subst}
use libholmes_horace.Wire.Unsigned
use libholmes_horace.Wire.Signed
use libholmes_horace.Attribute.{attrid, append, Attribute, AttributeList, nil, cons}
use libholmes_horace.Attribute.Order.{order, insert, IsSortedFrom, IsSorted, AllUpTo, insert_last}
use libholmes_horace.Session.{SessionContext}
use libholmes_horace.Parse.RoundTrip.Header.{extend-fits, to_int-extend}
use libholmes_horace.Parse.RoundTrip.Valid.{IsValid}
use libholmes_horace.Parse.RoundTrip.Simple.{Written}
use libholmes_horace.Parse.RoundTrip.Encoded.{
  encoded_nil, length-octets_cons, encoded_cons, Encoded,
}
use libholmes_horace.Parse.RoundTrip.Members.{
  total_length-header, extend-small, AllUpTo-mono, AllUpTo-append, append-cons, append-nil_list,
  attribute-Written,
}
use libholmes_horace.Record.{handle_definition, parse_members, parse, write, Record}
use libholmes_horace.Common.{
  ℕ, zero, suc, ◌+◌, ◌-◌, ◌*◌, ◌^◌, ◌≤◌, ◌<◌, ◌≡◌, refl, ap, ◌∙◌, false, List, ◌++◌, append_assoc,
  arith, ltb, ◌==◌, length, length-append, ok,
}
use libholmes_horace.Common.Words.{extend, IsInt}
use libholmes_horace.Attribute.Encode.{length_loop, list_length, write_list}

-- The attributes of a record are valid one after the other, and the definitions among them take the
-- session from `s` to `s'`.
abbrev pub Carried : SessionContext → AttributeList → SessionContext → Type 0
Carried s nil s' = s ≡ s'
Carried s (cons a l) s' =
    IsValid s a × ((σ : SessionContext) × (handle_definition s a ≡ ok σ) × Carried σ l s')

record WrittenMembers (s : SessionContext) (l : AttributeList) (s' : SessionContext) : Type 0 where
  encoded : Encoded l
  parsed :
      (fuel n : ℕ) (attrs : AttributeList) (rest : List ℕ)
      → 2 * length encoded.octets + 1 ≤ fuel
      → AllUpTo n attrs
      → IsSortedFrom n l
      → parse_members fuel s attrs (length encoded.octets) (encoded.octets ++ rest)
        ≡ ok ((append attrs l, s'), rest)

-- One round of the loop takes one written attribute off the input.
parse_members-Written :
    (s σ : SessionContext) (a : Attribute) (w : Written s a) (fuel r : ℕ) (attrs : AttributeList)
    (more : List ℕ)
    → handle_definition s a ≡ ok σ
    → 2 * w.n + 2 ≤ fuel
    → parse_members
        (suc fuel)
        s
        attrs
        (length w.header.octets + w.n + r)
        ((w.header.octets ++ w.content) ++ more)
      ≡ parse_members fuel σ (insert a attrs) r more
unfolding parse_members
parse_members-Written s σ a w fuel r attrs more handled enough =
    let h = w.header in
    let some_left : (length h.octets + w.n + r == 0) ≡ false = ground (arith, h.least) in
    let no_overrun : ltb (length h.octets + w.n + r) (length h.octets + w.n) ≡ false =
      ground arith in
    let left : length h.octets + w.n + r - (length h.octets + w.n) ≡ r = omega arith in
    rw (
      append_assoc h.octets w.content more,
      some_left,
      h.reads (w.content ++ more),
      extend-small w.n w.small,
      w.parsed fuel more enough,
      handled,
      total_length-header (attrid a) w.n (length h.octets) w.small h.most,
      no_overrun,
      left,
    )

parse_members-done :
    (fuel : ℕ) (s s' : SessionContext) (attrs : AttributeList) (rest : List ℕ)
    → s ≡ s'
    → 1 ≤ fuel
    → parse_members fuel s attrs 0 rest ≡ ok ((append attrs nil, s'), rest)
unfolding parse_members
parse_members-done zero s s' attrs rest e h = absurd (omega arith)
parse_members-done (suc fuel) s s' attrs rest e h = cc (e, append-nil_list attrs)

module _ {s σ s' : SessionContext} {a : Attribute} {l : AttributeList} (w : Written s a)
    (handled : handle_definition s a ≡ ok σ) (v : WrittenMembers σ l s') where
  parsed_cons :
      (fuel n : ℕ) (attrs : AttributeList) (rest : List ℕ)
      → 2 * length (encoded_cons w v.encoded).octets + 1 ≤ fuel
      → AllUpTo n attrs
      → IsSortedFrom n (cons a l)
      → parse_members fuel s attrs
          (length (encoded_cons w v.encoded).octets)
          ((encoded_cons w v.encoded).octets ++ rest)
        ≡ ok ((append attrs (cons a l), s'), rest)
  parsed_cons zero n attrs rest enough up sorted = absurd (omega arith)
  parsed_cons (suc fuel) n attrs rest enough up (later, sorted) =
      let total_octets = length-octets_cons w v.encoded in
      let least = w.header.least in
      let spot = order (attrid a) in
      let up' = AllUpTo-mono n spot attrs later up in
      rw (total_octets, append_assoc (w.header.octets ++ w.content) v.encoded.octets rest)
        (parse_members-Written s σ a w fuel (length v.encoded.octets) attrs
            (v.encoded.octets ++ rest) handled (omega arith)
          ∙ rw (insert_last a attrs up') (
              v.parsed fuel spot (append attrs (cons a nil)) rest (omega arith)
                (AllUpTo-append spot attrs a up' (omega arith)) sorted)
          ∙ ap (λ t. ok ((t, s'), rest)) (append-cons attrs a l))

Carried-WrittenMembers :
    (s : SessionContext) (l : AttributeList) (s' : SessionContext)
    → Carried s l s'
    → WrittenMembers s l s'
Carried-WrittenMembers s nil s' c = record {
  encoded = encoded_nil;
  parsed = λ fuel n attrs rest enough up sorted. parse_members-done fuel s s' attrs rest c enough;
}
Carried-WrittenMembers s (cons a l) s' (valid, (σ, handled, c)) =
    let w = attribute-Written s a valid in
    let v = Carried-WrittenMembers σ l s' c in
    record { encoded = encoded_cons w v.encoded; parsed = parsed_cons w handled v }

-- A record with an int for its channel, attributes in canonical order that the session can carry,
-- and fewer than 2^63 octets of them is written; parsing what is written gives the record back,
-- takes the session through the definitions in the record, and leaves what follows.
pub parse-write :
    (s s' : SessionContext) (r : Record) (body rest : List ℕ)
    → IsInt r.channel
    → Carried s r.attributes s'
    → IsSorted r.attributes
    → write_list r.attributes ≡ ok body
    → length body < 2 ^ 63
    → (octets : List ℕ) × (write r ≡ ok octets) × (parse s (octets ++ rest) ≡ ok ((r, s'), rest))
unfolding write parse list_length
parse-write s s' r body rest channel carried sorted e small =
    let w = Carried-WrittenMembers s r.attributes s' carried in
    let same : body ≡ w.encoded.octets = cc (e, w.encoded.written) in
    let fits : length w.encoded.octets < 2 ^ 63 = subst (λ x. length x < 2 ^ 63) same small in
    let counted : length_loop 0 r.attributes ≡ ok (length w.encoded.octets) =
      w.encoded.counted 0 (omega arith) ∙ ap ok (omega arith) in
    let (in_range, no_wrap) = extend-fits r.channel channel in
    let (c, _, wc, _, _, _) =
      Signed.RoundTrip.parse_signed-write_value (extend r.channel) in_range no_wrap in
    let (n, _, wn, _, _, _) =
      Unsigned.RoundTrip.parse_unsigned-write_value (length w.encoded.octets) fits in
    let rc : Signed.read_signed_base128 (c ++ (n ++ (w.encoded.octets ++ rest)))
        ≡ ok (extend r.channel, n ++ (w.encoded.octets ++ rest)) =
      (Signed.Decode.read_signed-write_value (extend r.channel) 0 c _ in_range no_wrap wc).0 in
    let rn : Unsigned.read_unsigned_base128 (n ++ (w.encoded.octets ++ rest))
        ≡ ok (length w.encoded.octets, w.encoded.octets ++ rest) =
      (Unsigned.Decode.read_unsigned-write_value (length w.encoded.octets) 0 n _ fits wn).0 in
    let members : parse_members (2 * length (w.encoded.octets ++ rest) + 1) s nil
          (length w.encoded.octets) (w.encoded.octets ++ rest)
        ≡ ok ((r.attributes, s'), rest) =
      w.parsed _ 0 nil rest (omega (arith, length-append w.encoded.octets rest)) tt sorted in
    (
      c ++ (n ++ w.encoded.octets),
      rw (wc, counted, wn, w.encoded.written) refl,
      rw
          (
            append_assoc c (n ++ w.encoded.octets) rest,
            append_assoc n w.encoded.octets rest,
            rc,
            rn,
            members,
            to_int-extend r.channel channel,
          )
          refl,
    )
