-- ===== src/QueryString/RoundTrip.antt =====
-- The constructor of horace/query_string.cc reads the names and values that a query string was made
-- from.
use libholmes_horace.Common.Text.{Octets, find_if, or_length, substr, substr-eq, Lacks}
use libholmes_horace.QueryString.{Parameters, assign, query_loop, query_string, find_text}
use libholmes_horace.QueryString.Encode.{ampersand-IsMark, Lacks-append, encode-Lacks, IsLiteral}
use libholmes_horace.QueryString.Found.{last_value, assigned, find_text-assigned}
use libholmes_horace.QueryString.Pairs.{
  find_if-here, find_if-nowhere, drop_behind, encode_pair, length-encode_pair,
  add_param-encode_pair,
}
use libholmes_horace.Common.{
  ℕ, zero, suc, ◌+◌, ◌-◌, ◌≤◌, ◌<◌, ◌≡◌, refl, sym, ap, ◌∙◌, Bool, true, false, none, some, List,
  [], ◌∷◌, ◌++◌, append-nil, arith, ◌==◌, if◌then◌else◌, length, drop, All, length-append,
  take-append_length, length-drop, drop-drop, ok,
}

-- The parameters behind the first.
unfoldable pub encode_others : (ℕ → Bool) → Parameters → List ℕ
encode_others literal [] = []
encode_others literal ((name, value) ∷ qs) =
    0x26 ∷ (encode_pair literal name value ++ encode_others literal qs)

-- `name=value`, with an ampersand between any two.
unfoldable pub encode_query : (ℕ → Bool) → Parameters → List ℕ
unfolding encode_others
encode_query literal [] = []
encode_query literal ((name, value) ∷ qs) =
    encode_pair literal name value ++ encode_others literal qs

abbrev pub AreOctets : Parameters → Type 0
AreOctets qs = All (λ q. Octets q.0 × Octets q.1) qs

encode_pair-Lacks :
    (literal : ℕ → Bool) (name value : List ℕ)
    → IsLiteral literal
    → Octets name
    → Octets value
    → Lacks (λ c. c == 0x26) (encode_pair literal name value)
unfolding encode_pair
encode_pair-Lacks literal name value h k l =
    Lacks-append (λ c. c == 0x26) _ _
      (encode-Lacks literal 0x26 name (ampersand-IsMark literal h) k)
      (refl, encode-Lacks literal 0x26 value (ampersand-IsMark literal h) l)

-- A round at a parameter.
query_loop-pair :
    (literal : ℕ → Bool) (fuel : ℕ) (query : List ℕ) (index param_end : ℕ) (ps : Parameters)
    (name value rest : List ℕ)
    → IsLiteral literal
    → Octets name
    → Octets value
    → index < length query
    → drop index query ≡ encode_pair literal name value ++ rest
    → or_length query (find_if (λ c. c == 0x26) query index) ≡ param_end
    → param_end ≡ index + length (encode_pair literal name value)
    → query_loop (suc fuel) query index ps
      ≡ query_loop fuel query
          (if param_end == length query then param_end else param_end + 1)
          (assign name value ps)
unfolding query_loop
query_loop-pair literal fuel query index param_end ps name value rest h k l low e f g =
    let p : List ℕ = encode_pair literal name value in
    let not_there : (index == length query) ≡ false = ground (arith, low) in
    let count : param_end - index ≡ length p = omega (arith, g) in
    let param : substr query index (param_end - index) ≡ ok p =
      substr-eq query index (param_end - index) (omega (arith, low))
      ∙ rw (count, e) (ap ok (take-append_length p rest)) in
    rw (not_there, f, param, add_param-encode_pair literal name value ps h k l) refl

query_loop-end :
    (fuel : ℕ) (query : List ℕ) (index : ℕ) (ps : Parameters)
    → 1 ≤ fuel
    → index ≡ length query
    → query_loop fuel query index ps ≡ ok ps
unfolding query_loop
query_loop-end zero query index ps some_left e = absurd (omega (arith, some_left))
query_loop-end (suc fuel) query index ps some_left e =
    let there : (index == length query) ≡ true = ground (arith, e) in rw (there) refl

-- What is left has at least the octets of the first parameter.
long_enough :
    (literal : ℕ → Bool) (query : List ℕ) (index : ℕ) (name value rest : List ℕ)
    → drop index query ≡ encode_pair literal name value ++ rest
    → (index < length query)
      × (length query ≡ index + length (encode_pair literal name value) + length rest)
long_enough literal query index name value rest e =
    let total : length query - index ≡ length (encode_pair literal name value) + length rest =
      sym (length-drop index query)
      ∙ ap length e
      ∙ length-append (encode_pair literal name value) rest in
    let some_there = length-encode_pair literal name value in
    (omega (arith, total, some_there), omega (arith, total, some_there))

query_loop-encode :
    (literal : ℕ → Bool) (fuel : ℕ) (query : List ℕ) (index : ℕ) (ps : Parameters)
    (name value : List ℕ) (qs : Parameters)
    → IsLiteral literal
    → Octets name
    → Octets value
    → AreOctets qs
    → drop index query ≡ encode_pair literal name value ++ encode_others literal qs
    → length query - index < fuel
    → query_loop fuel query index ps ≡ ok (assigned ((name, value) ∷ qs) ps)
unfolding assigned encode_others
query_loop-encode literal zero query index ps name value qs h k l m e enough =
    absurd (omega (arith, enough))
query_loop-encode literal (suc fuel) query index ps name value [] h k l m e enough =
    let (low, total) = long_enough literal query index name value [] e in
    let nowhere : find_if (λ c. c == 0x26) query index ≡ none =
      find_if-nowhere (λ c. c == 0x26) query (encode_pair literal name value) index
        (e ∙ append-nil (encode_pair literal name value))
        (encode_pair-Lacks literal name value h k l) in
    let there : (length query == length query) ≡ true = ground arith in
    query_loop-pair literal fuel query index (length query) ps name value [] h k l low e
      (rw (nowhere) refl) (omega (arith, total))
    ∙ rw (there) (
        query_loop-end fuel query (length query) (assign name value ps) (omega (arith, enough, low))
          refl)
query_loop-encode literal (suc fuel) query index ps name value ((n, v) ∷ qs) h k l m e enough =
    let p : List ℕ = encode_pair literal name value in
    let others : List ℕ = encode_pair literal n v ++ encode_others literal qs in
    let (low, total) = long_enough literal query index name value (0x26 ∷ others) e in
    let here : find_if (λ c. c == 0x26) query index ≡ some (index + length p) =
      find_if-here (λ c. c == 0x26) query p others index 0x26 e
        (encode_pair-Lacks literal name value h k l) refl in
    let before : (index + length p == length query) ≡ false = ground (arith, total) in
    let one : index + length p + 1 - index ≡ length p + 1 = omega arith in
    let next : drop (index + length p + 1) query ≡ others =
      sym (drop-drop (index + length p + 1) index query (omega arith))
      ∙ rw (one, e) (drop_behind p others 0x26) in
    query_loop-pair literal fuel query index (index + length p) ps name value (0x26 ∷ others) h k l
      low e (rw (here) refl) refl
    ∙ rw (before) (
        query_loop-encode literal fuel query (index + length p + 1) (assign name value ps) n v qs h
          m.0.0 m.0.1 m.1 next (omega (arith, enough, low)))

-- A query string that is made of names and values, of any octets, is read without an exception, and
-- the value found under a name is the last one that was given to it, if any was. The condition is
-- that percent and plus signs, ampersands and equals signs are not left as they are.
pub query_string-encode :
    (literal : ℕ → Bool) (qs : Parameters)
    → IsLiteral literal
    → AreOctets qs
    → (ps : Parameters) × (query_string (encode_query literal qs) ≡ ok ps)
      × ((name : List ℕ) → find_text name ps ≡ last_value name qs none)
unfolding query_string encode_query find_text assigned last_value
query_string-encode literal [] h k = ([], refl, λ name. refl)
query_string-encode literal ((n, v) ∷ qs) h k = (
  assigned ((n, v) ∷ qs) [],
  query_loop-encode literal _ _ 0 [] n v qs h k.0.0 k.0.1 k.1 refl (omega arith),
  λ name. find_text-assigned name ((n, v) ∷ qs) [],
)
