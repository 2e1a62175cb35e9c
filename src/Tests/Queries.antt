-- ===== src/Tests/Queries.antt =====
-- Query strings, at concrete values.
use libholmes_horace.Common.Text.{Octets, octets_of}
use libholmes_horace.QueryString.Decode
use libholmes_horace.QueryString.Found
use libholmes_horace.QueryString.RoundTrip
use libholmes_horace.QueryString.{decode, Parameters, query_string, find_text}
use libholmes_horace.QueryString.Encode.{IsLiteral}
use libholmes_horace.Common.{
  ℕ, ◌≡◌, refl, Bool, true, ◌&&◌, none, List, [], ◌∷◌, arith, ltb, leb, and_parts, ok,
}

abbrev letters : ℕ → Bool
letters c = leb 0x61 c && leb c 0x7a

abbrev three_parameters : Parameters
three_parameters =
    (octets_of "name", octets_of "a b")
    ∷ (octets_of "file", octets_of "x&y=50%")
    ∷ (octets_of "name", octets_of "c")
    ∷ []

encode_three :
    RoundTrip.encode_query letters three_parameters
    ≡ octets_of "name=a+b&file=x%26y%3D%35%30%25&name=c"
unfolding octets_of RoundTrip.encode_query libholmes_horace.QueryString.Pairs.encode_pair
encode_three = refl

read_ill_formed :
    query_string (octets_of "&a=%4&&%zz=%41%")
    ≡ ok ((octets_of "a", octets_of "%4") ∷ (octets_of "%zz", octets_of "A%") ∷ [])
unfolding query_string octets_of libholmes_horace.Common.Text.substr
    libholmes_horace.Common.Text.find_if libholmes_horace.Common.Text.char_at
read_ill_formed = refl

letters-IsLiteral : IsLiteral letters
letters-IsLiteral = record {
  no_percent = refl;
  no_plus = refl;
  no_ampersand = refl;
  no_equals = refl;
}

all_below : List ℕ → Bool
all_below [] = true
all_below (c ∷ s) = ltb c 256 && all_below s

all_below-Octets : (s : List ℕ) → all_below s ≡ true → Octets s
unfolding all_below
all_below-Octets [] h = tt
all_below-Octets (c ∷ s) h =
    let (first, others) = and_parts (ltb c 256) (all_below s) h in
    (ground (arith, first), all_below-Octets s others)

three_parameters-AreOctets : RoundTrip.AreOctets three_parameters
unfolding all_below octets_of
three_parameters-AreOctets = (
  (all_below-Octets (octets_of "name") refl, all_below-Octets (octets_of "a b") refl),
  (
    (all_below-Octets (octets_of "file") refl, all_below-Octets (octets_of "x&y=50%") refl),
    ((all_below-Octets (octets_of "name") refl, all_below-Octets (octets_of "c") refl), tt),
  ),
)

decode_lem_example :
    decode (octets_of "100%25%2") ≡ ok (Decode.percent_decode (octets_of "100%25%2"))
decode_lem_example = Decode.decode_lem (octets_of "100%25%2")

query_string-encode_example :
    (ps : Parameters) × (query_string (RoundTrip.encode_query letters three_parameters) ≡ ok ps)
    × ((name : List ℕ) → find_text name ps ≡ Found.last_value name three_parameters none)
query_string-encode_example =
    RoundTrip.query_string-encode letters three_parameters letters-IsLiteral
      three_parameters-AreOctets
