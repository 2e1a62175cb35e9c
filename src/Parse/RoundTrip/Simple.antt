-- ===== src/Parse/RoundTrip/Simple.antt =====
-- The attributes with no members: what is written for one is parsed back.
use mathlib.Core.Path.{subst}
use libholmes_horace.Wire.Signed.{dvalue}
use libholmes_horace.Wire.Fixed.{read_unsigned, read_signed, write_loop, write_signed}
use libholmes_horace.Wire.Octets.{read, read_octets}
use libholmes_horace.Wire.Fixed.Unsigned.{octets, read_unsigned-write_unsigned}
use libholmes_horace.Attribute.{
  attrid, Attribute, unsigned_integer, signed_integer, binary, string, timestamp, boolean,
  unrecognised,
}
use libholmes_horace.Attribute.Ids
use libholmes_horace.Attribute.Encode.{
  octet_loop, signed_length, content_length, through_int, write,
}
use libholmes_horace.Session.{get_attr_type, SessionContext}
use libholmes_horace.Parse.{
  allocate, parse_unsigned_integer, parse_signed_integer, parse_binary, parse_string,
  parse_unrecognised, parse_timestamp, parse_boolean, parse_simple, parse_attribute,
}
use libholmes_horace.Parse.RoundTrip.Header.{header_written, HeaderWritten}
use libholmes_horace.Common.{
  ℕ, zero, suc, ◌+◌, ◌-◌, ◌*◌, ◌%◌, ◌^◌, ◌≤◌, ◌<◌, ◌≡◌, refl, sym, ap, ◌∙◌, inl, inr, Bool, true,
  false, ◌||◌, List, [], ◌∷◌, ◌++◌, append_assoc, arith, ltb, leb, ◌==◌, ltb-false, length,
  length-append, take-append_length, drop-append_length, ok,
}
use libholmes_horace.Parse.RoundTrip.Valid.{IsValid}
use libholmes_horace.Attribute.Encode.Sizes.{octet_loop_fits, signed_length_fits}
use libholmes_horace.Common.Words.{to_int, extend}
use libholmes_horace.Wire.Fixed.Signed.{read_signed-write_signed}

-- The attribute is written as a header and `n` octets of content, and these are parsed back with
-- fuel for the members that they may hold.
pub record Written (s : SessionContext) (a : Attribute) : Type 0 where
  pub n : ℕ
  pub content : List ℕ
  pub small : n < 2 ^ 31
  pub header : HeaderWritten (attrid a) n
  pub counted : content_length a ≡ ok n
  pub written : write a ≡ ok (header.octets ++ content)
  pub length_content : length content ≡ n
  pub parsed :
      (fuel : ℕ) (rest : List ℕ)
      → 2 * n + 2 ≤ fuel
      → parse_attribute fuel s (attrid a) n (content ++ rest) ≡ ok (a, rest)

read_octets-append : (xs rest : List ℕ) → read_octets (length xs) (xs ++ rest) ≡ ok (xs, rest)
unfolding read_octets
read_octets-append xs rest =
    let enough : leb (length xs) (length (xs ++ rest)) ≡ true =
      ground (arith, length-append xs rest) in
    rw (enough, take-append_length xs rest, drop-append_length xs rest)

allocate-small : (n : ℕ) → n < 2 ^ 31 → allocate n ≡ ok tt
unfolding allocate
allocate-small n h = ground arith

through_int-small : (n : ℕ) → n < 2 ^ 31 → through_int n ≡ n
through_int-small n h = ground arith

eight : (n : ℕ) → n ≤ 7 → ltb 8 (suc n) ≡ false
eight n h = ground arith

without_nsec : (n : ℕ) → n ≤ 8 → extend ((to_int (4 + n) + 2 ^ 32 - 4) % 2 ^ 32) ≡ n
without_nsec n h = ground arith

some_octets : (n v : ℕ) → v < 2 ^ (8 * n) → 1 ≤ v → 1 ≤ n
some_octets zero v h k = absurd (omega arith)
some_octets (suc n) v h k = omega arith

parse_timestamp-parts :
    (id n sec nsec : ℕ) (high low rest : List ℕ)
    → 1 ≤ n
    → n ≤ 8
    → sec < 2 ^ 63
    → nsec < 2_000_000_000
    → ((more : List ℕ) → read_unsigned n (high ++ more) ≡ ok (sec, more))
    → ((more : List ℕ) → read_unsigned 4 (low ++ more) ≡ ok (nsec, more))
    → parse_timestamp id (4 + n) ((high ++ low) ++ rest) ≡ ok (timestamp id sec nsec, rest)
unfolding parse_timestamp
parse_timestamp-parts id n sec nsec high low rest h1 h8 hs hn rh rl =
    let in_range : (ltb (4 + n) 5 || ltb 12 (4 + n)) ≡ false = ground arith in
    let left : 4 + n - 4 ≡ n = omega arith in
    let word : nsec % 2 ^ 32 ≡ nsec = omega arith in
    let sec_fits : ltb (2 ^ 63 - 1) sec ≡ false = ground arith in
    let nsec_fits : leb 2_000_000_000 nsec ≡ false = ground arith in
    rw (
      append_assoc high low rest,
      in_range,
      left,
      rh (low ++ rest),
      rl rest,
      sec_fits,
      word,
      nsec_fits,
    )

-- With some fuel, `parse_attribute` of a simple attribute is `parse_simple`.
parse_attribute-simple :
    (type id n fuel : ℕ) (s : SessionContext) (octets : List ℕ)
    → 2 * n + 2 ≤ fuel
    → get_attr_type s id ≡ ok type
    → (type == Ids.type_compound) ≡ false
    → parse_attribute fuel s id n octets ≡ parse_simple type id n octets
unfolding parse_attribute
parse_attribute-simple type id n zero s octets enough t e = absurd (omega arith)
parse_attribute-simple type id n (suc fuel) s octets enough t e = rw (t, e)

later : (a b : ℕ) → b < a → (a == b) ≡ false
later a b h = ground arith

parse_simple-other :
    (type id n : ℕ) (octets : List ℕ)
    → Ids.type_boolean < type
    → parse_simple type id n octets ≡ parse_unrecognised id n octets
unfolding parse_simple
parse_simple-other type id n octets h = rw (
  later type 1 (omega arith),
  later type 2 (omega arith),
  later type 3 (omega arith),
  later type 4 (omega arith),
  later type 5 (omega arith),
  later type 6 (omega arith),
)

module _ (s : SessionContext) (id : ℕ) where
  pub string-Written :
      (content : List ℕ) → IsValid s (string id content) → Written s (string id content)
  unfolding write parse_simple parse_string
  string-Written content (h, t, small) =
      let header = header_written id (length content) h small in
      record {
        n = length content;
        content = content;
        small = small;
        header = header;
        counted = refl;
        written = rw header.written;
        length_content = refl;
        parsed = λ fuel rest enough.
            parse_attribute-simple 4 id _ fuel s _ enough t refl
            ∙ rw (allocate-small (length content) small, read_octets-append content rest);
      }

  pub binary-Written :
      (content : List ℕ) → IsValid s (binary id content) → Written s (binary id content)
  unfolding write parse_simple parse_binary
  binary-Written content (h, t, small) =
      let header = header_written id (length content) h small in
      record {
        n = length content;
        content = content;
        small = small;
        header = header;
        counted = refl;
        written = rw header.written;
        length_content = refl;
        parsed = λ fuel rest enough.
            parse_attribute-simple 3 id _ fuel s _ enough t refl
            ∙ rw (allocate-small (length content) small, read_octets-append content rest);
      }

  pub unrecognised-Written :
      (content : List ℕ) → IsValid s (unrecognised id content) → Written s (unrecognised id content)
  unfolding write parse_unrecognised
  unrecognised-Written content (h, (type, t, high), small) =
      let header = header_written id (length content) h small in
      record {
        n = length content;
        content = content;
        small = small;
        header = header;
        counted = refl;
        written = rw header.written;
        length_content = refl;
        parsed = λ fuel rest enough.
            parse_attribute-simple type id _ fuel s _ enough t (ground arith)
            ∙ parse_simple-other type id _ _ high
            ∙ rw (allocate-small (length content) small, read_octets-append content rest);
      }

  pub unsigned_integer-Written :
      (content : ℕ)
      → IsValid s (unsigned_integer id content)
      → Written s (unsigned_integer id content)
  unfolding write parse_simple parse_unsigned_integer
  unsigned_integer-Written content (h, t, fits) =
      let (n, c, n8, below) = octet_loop_fits 8 9 content 0 (omega arith) fits in
      let counted : octet_loop 9 content 0 ≡ ok n = c ∙ ap ok (omega arith) in
      let (octets, written, len, reads) = read_unsigned-write_unsigned n content n8 below in
      let header = header_written id n h (omega arith) in
      record {
        n = n;
        content = octets;
        small = omega arith;
        header = header;
        counted = counted;
        written = rw (counted, through_int-small n (omega arith), header.written, written);
        length_content = len;
        parsed = λ fuel rest enough.
            parse_attribute-simple 1 id _ fuel s _ enough t refl ∙ rw (ltb-false n8, reads rest);
      }

  zero-Written : IsValid s (signed_integer id 0) → Written s (signed_integer id 0)
  unfolding write parse_simple parse_signed_integer write_signed read_signed write_loop
  zero-Written (h, t, fits) =
      let header = header_written id 0 h (omega arith) in
      record {
        n = 0;
        content = [];
        small = omega arith;
        header = header;
        counted = refl;
        written = rw header.written;
        length_content = refl;
        parsed = λ fuel rest enough. parse_attribute-simple 2 id _ fuel s _ enough t refl;
      }

  nonzero-Written :
      (content n : ℕ)
      → IsValid s (signed_integer id content)
      → signed_length content ≡ ok (suc n)
      → n ≤ 7
      → dvalue content < 2 ^ (8 * n + 7)
      → Written s (signed_integer id content)
  unfolding write parse_simple parse_signed_integer
  nonzero-Written content n (h, t, fits) counted n7 below =
      let (octets, written, len, reads) = read_signed-write_signed n content fits n7 below in
      let header = header_written id (suc n) h (omega arith) in
      record {
        n = suc n;
        content = octets;
        small = omega arith;
        header = header;
        counted = counted;
        written = rw (counted, through_int-small (suc n) (omega arith), header.written, written);
        length_content = len;
        parsed = λ fuel rest enough.
            parse_attribute-simple 2 id _ fuel s _ enough t refl ∙ rw (eight n n7, reads rest);
      }

  pub signed_integer-Written :
      (content : ℕ) → IsValid s (signed_integer id content) → Written s (signed_integer id content)
  signed_integer-Written content v = elim (signed_length_fits content v.2) [
    | inl (e, c) ↦
        subst (λ x. Written s (signed_integer id x)) (sym e)
          (zero-Written (subst (λ x. IsValid s (signed_integer id x)) e v))
    | inr (n, c, n7, below) ↦ nonzero-Written content n v c n7 below
  ]

  pub timestamp-Written :
      (sec nsec : ℕ) → IsValid s (timestamp id sec nsec) → Written s (timestamp id sec nsec)
  unfolding write parse_simple parse_timestamp
  timestamp-Written sec nsec (h, t, late, sec63, nsec31) =
      let (n, counted, n8, below) = octet_loop_fits 8 9 sec 4 (omega arith) (omega arith) in
      let (high, wh, lh, rh) = read_unsigned-write_unsigned n sec n8 below in
      let (low, wl, ll, rl) = read_unsigned-write_unsigned 4 nsec (omega arith) (omega arith) in
      let header = header_written id (4 + n) h (omega arith) in
      record {
        n = 4 + n;
        content = high ++ low;
        small = omega arith;
        header = header;
        counted = counted;
        written = rw (
          counted,
          through_int-small (4 + n) (omega arith),
          without_nsec n n8,
          header.written,
          wh,
          wl,
        );
        length_content = omega (arith, length-append high low);
        parsed = λ fuel rest enough.
            parse_attribute-simple 5 id _ fuel s _ enough t refl
            ∙ parse_timestamp-parts id n sec nsec high low rest (some_octets n sec below late) n8
                sec63 nsec31 rh rl;
      }

  pub boolean-Written :
      (content : Bool) → IsValid s (boolean id content) → Written s (boolean id content)
  unfolding write parse_simple parse_boolean read
  boolean-Written true (h, t) =
      let header = header_written id 1 h (omega arith) in
      record {
        n = 1;
        content = 1 ∷ [];
        small = omega arith;
        header = header;
        counted = refl;
        written = rw header.written;
        length_content = refl;
        parsed = λ fuel rest enough. parse_attribute-simple 6 id _ fuel s _ enough t refl;
      }
  boolean-Written false (h, t) =
      let header = header_written id 1 h (omega arith) in
      record {
        n = 1;
        content = 0 ∷ [];
        small = omega arith;
        header = header;
        counted = refl;
        written = rw header.written;
        length_content = refl;
        parsed = λ fuel rest enough. parse_attribute-simple 6 id _ fuel s _ enough t refl;
      }
