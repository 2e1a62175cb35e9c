-- ===== src/Parse/RoundTrip/Members.antt =====
-- Compound attributes and attribute lists: what is written for one is parsed back.
use mathlib.Core.Path.{subst}
use libholmes_horace.Attribute.Ids.{type_compound}
use libholmes_horace.Attribute.{
  attrid, append, Attribute, compound, unsigned_integer, signed_integer, binary, string, timestamp,
  boolean, unrecognised, AttributeList, nil, cons,
}
use libholmes_horace.Attribute.Order.{order, insert, IsSortedFrom, IsSorted, AllUpTo, insert_last}
use libholmes_horace.Attribute.Encode.{length_loop, list_length, write}
use libholmes_horace.Session.{get_attr_type, SessionContext}
use libholmes_horace.Parse.{total_length, parse_attribute, parse_list}
use libholmes_horace.Parse.RoundTrip.Valid.{IsValid, AreValid}
use libholmes_horace.Parse.RoundTrip.Simple.{
  string-Written, binary-Written, unrecognised-Written, unsigned_integer-Written,
  signed_integer-Written, timestamp-Written, boolean-Written, Written,
}
use libholmes_horace.Common.{
  ℕ, zero, suc, ◌+◌, ◌-◌, ◌*◌, ◌^◌, ◌≤◌, ◌<◌, ◌≡◌, refl, ap, ◌∙◌, false, List, ◌++◌, append_assoc,
  arith, ltb, ◌==◌, length, ok,
}
use libholmes_horace.Common.Words.{extend, IsInt}
use libholmes_horace.Parse.RoundTrip.Encoded.{
  encoded_nil, length-octets_cons, encoded_cons, Encoded,
}
use libholmes_horace.Parse.RoundTrip.Header.{header_written}

-- The list is written, and parsed back behind members that come no later.
pub record WrittenList (s : SessionContext) (l : AttributeList) : Type 0 where
  pub encoded : Encoded l
  pub parsed :
      (fuel n : ℕ) (attrs : AttributeList) (rest : List ℕ)
      → 2 * length encoded.octets + 1 ≤ fuel
      → AllUpTo n attrs
      → IsSortedFrom n l
      → parse_list fuel s attrs (length encoded.octets) (encoded.octets ++ rest)
        ≡ ok (append attrs l, rest)

pub total_length-header :
    (id n hdr : ℕ)
    → n < 2 ^ 31
    → hdr ≤ 18
    → total_length (record { id = id; attr_len = n; hdr_len = hdr }) ≡ hdr + n
unfolding total_length
total_length-header id n hdr small most = ground arith

pub extend-small : (n : ℕ) → n < 2 ^ 31 → extend n ≡ n
extend-small n h = ground arith

pub AllUpTo-mono : (m n : ℕ) (l : AttributeList) → m ≤ n → AllUpTo m l → AllUpTo n l
AllUpTo-mono m n nil h u = tt
AllUpTo-mono m n (cons a l) h (k, u) = (omega arith, AllUpTo-mono m n l h u)

pub AllUpTo-append :
    (n : ℕ) (l : AttributeList) (a : Attribute)
    → AllUpTo n l
    → order (attrid a) ≤ n
    → AllUpTo n (append l (cons a nil))
AllUpTo-append n nil a u h = (h, tt)
AllUpTo-append n (cons b l) a (k, u) h = (k, AllUpTo-append n l a u h)

pub append-cons :
    (l : AttributeList) (a : Attribute) (m : AttributeList)
    → append (append l (cons a nil)) m ≡ append l (cons a m)
append-cons nil a m = refl
append-cons (cons b l) a m = ap (λ t. cons b t) (append-cons l a m)

pub append-nil_list : (l : AttributeList) → l ≡ append l nil
append-nil_list nil = refl
append-nil_list (cons a l) = ap (λ t. cons a t) (append-nil_list l)

-- One round of the loop takes one written attribute off the input.
pub parse_list-Written :
    (s : SessionContext) (a : Attribute) (w : Written s a) (fuel r : ℕ) (attrs : AttributeList)
    (more : List ℕ)
    → 2 * w.n + 2 ≤ fuel
    → parse_list
        (suc fuel)
        s
        attrs
        (length w.header.octets + w.n + r)
        ((w.header.octets ++ w.content) ++ more)
      ≡ parse_list fuel s (insert a attrs) r more
unfolding parse_list
parse_list-Written s a w fuel r attrs more enough =
    let h = w.header in
    let some_left : (length h.octets + w.n + r == 0) ≡ false = ground (arith, h.least) in
    let no_overrun : ltb (length h.octets + w.n + r) (length h.octets + w.n) ≡ false =
      ground arith in
    let left : length h.octets + w.n + r - (length h.octets + w.n) ≡ r = omega arith in
    rw (
      append_assoc h.octets w.content more,
      some_left,
      h.reads (w.content ++ more),
      extend-small w.n w.small,
      w.parsed fuel more enough,
      total_length-header (attrid a) w.n (length h.octets) w.small h.most,
      no_overrun,
      left,
    )

parse_list-done :
    (fuel : ℕ) (s : SessionContext) (attrs : AttributeList) (rest : List ℕ)
    → 1 ≤ fuel
    → parse_list fuel s attrs 0 rest ≡ ok (append attrs nil, rest)
unfolding parse_list
parse_list-done zero s attrs rest h = absurd (omega arith)
parse_list-done (suc fuel) s attrs rest h = ap (λ t. ok (t, rest)) (append-nil_list attrs)

pub nil_written : (s : SessionContext) → WrittenList s nil
nil_written s = record {
  encoded = encoded_nil;
  parsed = λ fuel n attrs rest enough up sorted. parse_list-done fuel s attrs rest enough;
}

module _ {s : SessionContext} {a : Attribute} {l : AttributeList} (w : Written s a)
    (v : WrittenList s l) where
  parsed_cons :
      (fuel n : ℕ) (attrs : AttributeList) (rest : List ℕ)
      → 2 * length (encoded_cons w v.encoded).octets + 1 ≤ fuel
      → AllUpTo n attrs
      → IsSortedFrom n (cons a l)
      → parse_list fuel s attrs
          (length (encoded_cons w v.encoded).octets)
          ((encoded_cons w v.encoded).octets ++ rest)
        ≡ ok (append attrs (cons a l), rest)
  parsed_cons zero n attrs rest enough up sorted = absurd (omega arith)
  parsed_cons (suc fuel) n attrs rest enough up (later, sorted) =
      let total_octets = length-octets_cons w v.encoded in
      let least = w.header.least in
      let spot = order (attrid a) in
      let up' = AllUpTo-mono n spot attrs later up in
      rw (total_octets, append_assoc (w.header.octets ++ w.content) v.encoded.octets rest)
        (parse_list-Written s a w fuel (length v.encoded.octets) attrs (v.encoded.octets ++ rest)
            (omega arith)
          ∙ rw (insert_last a attrs up') (
              v.parsed fuel spot (append attrs (cons a nil)) rest (omega arith)
                (AllUpTo-append spot attrs a up' (omega arith)) sorted)
          ∙ ap (λ t. ok (t, rest)) (append-cons attrs a l))

  pub cons_written : WrittenList s (cons a l)
  cons_written = record { encoded = encoded_cons w v.encoded; parsed = parsed_cons }

module _ (s : SessionContext) (id : ℕ) (l : AttributeList) (w : WrittenList s l) where
  compound_parsed :
      (fuel : ℕ) (rest : List ℕ)
      → get_attr_type s id ≡ ok type_compound
      → IsSorted l
      → 2 * length w.encoded.octets + 2 ≤ fuel
      → parse_attribute fuel s id (length w.encoded.octets) (w.encoded.octets ++ rest)
        ≡ ok (compound id l, rest)
  unfolding parse_attribute
  compound_parsed zero rest t sorted enough = absurd (omega arith)
  compound_parsed (suc fuel) rest t sorted enough =
      rw (t, w.parsed fuel 0 nil rest (omega arith) tt sorted)

  compound_fits :
      IsInt id
      → get_attr_type s id ≡ ok type_compound
      → IsSorted l
      → length w.encoded.octets < 2 ^ 31
      → Written s (compound id l)
  unfolding write list_length
  compound_fits h t sorted fits =
      let header = header_written id (length w.encoded.octets) h fits in
      let counted : length_loop 0 l ≡ ok (length w.encoded.octets) =
        w.encoded.counted 0 (omega arith) ∙ ap ok (omega arith) in
      record {
        n = length w.encoded.octets;
        content = w.encoded.octets;
        small = fits;
        header = header;
        counted = counted;
        written = rw (counted, header.written, w.encoded.written);
        length_content = refl;
        parsed = λ fuel rest enough. compound_parsed fuel rest t sorted enough;
      }

  compound-Written : IsValid s (compound id l) → Written s (compound id l)
  compound-Written (h, t, sorted, valid, (o, wo, small)) =
      let same : o ≡ w.encoded.octets = cc (wo, w.encoded.written) in
      compound_fits h t sorted (subst (λ x. length x < 2 ^ 31) same small)

-- Every valid attribute and list is written, and parsed back from what is written.
mutual
  pub attribute-Written : (s : SessionContext) (a : Attribute) → IsValid s a → Written s a
  attribute-Written s (compound id l) v = compound-Written s id l (members_written s l v.3) v
  attribute-Written s (unsigned_integer id content) v = unsigned_integer-Written s id content v
  attribute-Written s (signed_integer id content) v = signed_integer-Written s id content v
  attribute-Written s (binary id content) v = binary-Written s id content v
  attribute-Written s (string id content) v = string-Written s id content v
  attribute-Written s (timestamp id sec nsec) v = timestamp-Written s id sec nsec v
  attribute-Written s (boolean id content) v = boolean-Written s id content v
  attribute-Written s (unrecognised id content) v = unrecognised-Written s id content v

  pub members_written : (s : SessionContext) (l : AttributeList) → AreValid s l → WrittenList s l
  members_written s nil v = nil_written s
  members_written s (cons a l) v =
      cons_written (attribute-Written s a v.0) (members_written s l v.1)
