-- ===== src/QueryString.antt =====
-- horace/query_string.{h,cc}: the parameters of a query string. A char is an octet, and `isxdigit` is
-- that of the C locale.
pub mod Decode
pub mod Encode
pub mod Pairs
pub mod Found
pub mod RoundTrip
use libholmes_horace.Common.{
  ℕ, zero, suc, ◌+◌, ◌-◌, ◌*◌, Bool, true, false, not, ◌&&◌, ◌||◌, Option, none, some, List, [],
  ◌∷◌, ◌++◌, ltb, leb, ◌==◌, if◌then◌else◌, length, take, drop, ◌>>=◌, out_of_fuel, Result, err, ok,
}
use libholmes_horace.Common.Text.{octets_of, char_at, find_if, or_length, substr}

abbrev pub percent : ℕ
percent = 0x25

abbrev pub plus : ℕ
plus = 0x2b

abbrev between : ℕ → ℕ → ℕ → Bool
between low high c = leb low c && leb c high

unfoldable pub isxdigit : ℕ → Bool
isxdigit c = between 0x30 0x39 c || (between 0x41 0x46 c || between 0x61 0x66 c)

-- The value of a hexadecimal digit.
unfoldable pub hex_value : ℕ → ℕ
hex_value c = if leb c 0x39 then c - 0x30 else if leb c 0x46 then c - 0x41 + 10 else c - 0x61 + 10

-- `static_cast<char>(stoi(hex, 0, 16))` for two digits.
unfoldable pub hex_char : ℕ → ℕ → ℕ
unfolding hex_value
hex_char a b = hex_value a * 16 + hex_value b

-- Two hexadecimal digits follow at the index.
unfoldable pub hex_follows : List ℕ → ℕ → Bool
unfolding isxdigit
hex_follows s index =
    not (ltb (length s) (index + 2))
    && (isxdigit (char_at s index) && isxdigit (char_at s (index + 1)))

-- One round of the loop in `decode`, from the percent sign that was found: the index after it, and
-- what is decoded.
unfoldable pub decode_percent : List ℕ → List ℕ → ℕ → ℕ × List ℕ
unfolding hex_follows hex_char
decode_percent s decoded index =
    if hex_follows s index
    then (index + 2, decoded ++ (hex_char (char_at s index) (char_at s (index + 1)) ∷ []))
    else (index, decoded ++ (percent ∷ []))

unfoldable pub decode_round :
    List ℕ → ℕ → List ℕ → Option ℕ → (ℕ → List ℕ → Result (List ℕ)) → Result (List ℕ)
unfolding decode_percent
decode_round s index decoded none next = ok (decoded ++ drop index s)
decode_round s index decoded (some found) next =
    let r = decode_percent s (decoded ++ take (found - index) (drop index s)) (found + 1) in
    next r.0 r.1

unfoldable pub decode_loop : ℕ → List ℕ → ℕ → List ℕ → Result (List ℕ)
unfolding decode_round
decode_loop zero s index decoded = err out_of_fuel
decode_loop (suc fuel) s index decoded =
    let rest =
      decode_round s index decoded (find_if (λ c. c == percent) s index) (decode_loop fuel s) in
    if index == length s then ok decoded else rest

-- Each round takes an octet at least.
unfoldable pub decode : List ℕ → Result (List ℕ)
unfolding decode_loop
decode encoded = decode_loop (length encoded + 1) encoded 0 []

-- `std::replace(s.begin(), s.end(), '+', ' ')`
unfoldable pub replace_plus : List ℕ → List ℕ
replace_plus [] = []
replace_plus (c ∷ s) = (if c == plus then 0x20 else c) ∷ replace_plus s

-- A parameter that is not empty: its name and value, before they are decoded.
unfoldable pub split_param : List ℕ → Option ℕ → Result (List ℕ × List ℕ)
split_param param none = ok (param, [])
split_param param (some name_end) = do
  name ← substr param 0 name_end
  value ← substr param (name_end + 1) (length param)
  ok (name, value)

abbrev pub Parameters : Type 0
Parameters = List (List ℕ × List ℕ)

unfoldable pub same_text : List ℕ → List ℕ → Bool
same_text [] [] = true
same_text (a ∷ s) (b ∷ t) = a == b && same_text s t
same_text _ _ = false

-- `_parameters[name] = value`
unfoldable pub assign : List ℕ → List ℕ → Parameters → Parameters
unfolding same_text
assign name value [] = (name, value) ∷ []
assign name value ((n, v) ∷ ps) =
    if same_text n name then (n, value) ∷ ps else (n, v) ∷ assign name value ps

unfoldable pub add_param : List ℕ → Parameters → Result Parameters
unfolding split_param replace_plus decode assign
add_param param ps = if length param == 0 then ok ps else (do
  (name, value) ← split_param param (find_if (λ c. c == 0x3d) param 0)
  decoded_name ← decode (replace_plus name)
  decoded_value ← decode (replace_plus value)
  ok (assign decoded_name decoded_value ps))

-- The loop of the constructor.
unfoldable pub query_loop : ℕ → List ℕ → ℕ → Parameters → Result Parameters
unfolding add_param
query_loop zero query index ps = err out_of_fuel
query_loop (suc fuel) query index ps =
    let param_end = or_length query (find_if (λ c. c == 0x26) query index) in
    let rest = do
      param ← substr query index (param_end - index)
      ps' ← add_param param ps
      query_loop fuel query (if param_end == length query then param_end else param_end + 1) ps'
    in if index == length query then ok ps else rest

unfoldable pub query_string : List ℕ → Result Parameters
unfolding query_loop
query_string query = query_loop (length query + 1) query 0 []

-- `find<std::string>`
unfoldable pub find_text : List ℕ → Parameters → Option (List ℕ)
unfolding same_text
find_text name [] = none
find_text name ((n, v) ∷ ps) = if same_text n name then some v else find_text name ps

-- `find<bool>`
unfoldable pub as_bool : Option (List ℕ) → Option Bool
unfolding same_text
as_bool none = none
as_bool (some v) =
    if same_text v (octets_of "true")
    then some true
    else if same_text v (octets_of "false")
    then some false
    else none

-- `find<long>` and `find<long long>`, where `stol` and `stoll` are parameters.
unfoldable pub as_number : (List ℕ → Result ℕ) → Option (List ℕ) → Result (Option ℕ)
as_number stol none = ok none
as_number stol (some v) = do n ← stol v; ok (some n)
