-- ===== src/Uri.antt =====
-- horace/uri.{h,cc}: the components of a URI, and the URI that they are printed as. A char is an
-- octet.
pub mod Parts
pub mod RoundTrip
use libholmes_horace.Common.{
  ℕ, ◌+◌, ◌-◌, Bool, not, ◌&&◌, ◌||◌, Option, none, some, List, [], ◌∷◌, ◌++◌, ltb, leb, ◌==◌,
  if◌then◌else◌, length, throw_if, ◌>>=◌, ◌>>◌, logic_error, Result, ok,
}
use libholmes_horace.Common.Text.{char_at, find_if, or_length, substr}

abbrev pub colon : ℕ
colon = 0x3a

abbrev pub slash : ℕ
slash = 0x2f

abbrev pub question_mark : ℕ
question_mark = 0x3f

abbrev pub number_sign : ℕ
number_sign = 0x23

pub record Uri : Type 0 where
  pub scheme : Option (List ℕ)
  pub authority : Option (List ℕ)
  pub path : List ℕ
  pub query : Option (List ℕ)
  pub fragment : Option (List ℕ)

abbrev pub ends_path : ℕ → Bool
ends_path c = c == question_mark || c == number_sign

abbrev pub ends_authority : ℕ → Bool
ends_authority c = c == slash || ends_path c

-- `s.substr(index, end - index)`, with the index after it.
unfoldable pub component {ℓ} : {A : Type ℓ} → (List ℕ → A) → List ℕ → ℕ → ℕ → Result (A × ℕ)
component wrap s index end = do text ← substr s index (end - index); ok (wrap text, end)

-- The scheme ends at the first colon of the text.
unfoldable pub scheme_upto : List ℕ → Option ℕ → Result (Option (List ℕ) × ℕ)
scheme_upto s none = ok (none, 0)
scheme_upto s (some scheme_end) = do
  text ← substr s 0 (scheme_end - 0)
  ok (some text, scheme_end + 1)

unfoldable pub parse_scheme : List ℕ → Result (Option (List ℕ) × ℕ)
parse_scheme s = scheme_upto s (find_if (λ c. c == colon) s 0)

unfoldable pub parse_authority : List ℕ → ℕ → Result (Option (List ℕ) × ℕ)
parse_authority s index =
    if leb (index + 2) (length s) && (char_at s index == slash && char_at s (index + 1) == slash)
    then component some s (index + 2) (or_length s (find_if ends_authority s (index + 2)))
    else ok (none, index)

unfoldable pub parse_path : List ℕ → ℕ → Result (List ℕ × ℕ)
parse_path s index = component (λ text. text) s index (or_length s (find_if ends_path s index))

unfoldable pub parse_query : List ℕ → ℕ → Result (Option (List ℕ) × ℕ)
parse_query s index =
    if ltb index (length s) && char_at s index == question_mark
    then component some s (index + 1) (or_length s (find_if (λ c. c == number_sign) s (index + 1)))
    else ok (none, index)

unfoldable pub parse_fragment : List ℕ → ℕ → Result (Option (List ℕ) × ℕ)
parse_fragment s index =
    if ltb index (length s) && char_at s index == number_sign
    then component some s (index + 1) (length s)
    else ok (none, index)

-- The constructor.
unfoldable pub uri : List ℕ → Result Uri
uri s = do
  (scheme, after_scheme) ← parse_scheme s
  (authority, after_authority) ← parse_authority s after_scheme
  (path, after_path) ← parse_path s after_authority
  (query, after_query) ← parse_query s after_path
  (fragment, index) ← parse_fragment s after_query
  throw_if (not (index == length s)) logic_error
  ok (record {
    scheme = scheme;
    authority = authority;
    path = path;
    query = query;
    fragment = fragment;
  })

unfoldable pub print_scheme : Option (List ℕ) → List ℕ
print_scheme none = []
print_scheme (some text) = text ++ (colon ∷ [])

unfoldable pub print_authority : Option (List ℕ) → List ℕ
print_authority none = []
print_authority (some text) = slash ∷ slash ∷ text

unfoldable pub print_query : Option (List ℕ) → List ℕ
print_query none = []
print_query (some text) = question_mark ∷ text

unfoldable pub print_fragment : Option (List ℕ) → List ℕ
print_fragment none = []
print_fragment (some text) = number_sign ∷ text

-- `operator std::string`
unfoldable pub to_string : Uri → List ℕ
unfolding print_scheme print_authority print_query print_fragment
to_string u =
    (((print_scheme u.scheme ++ print_authority u.authority) ++ u.path) ++ print_query u.query)
    ++ print_fragment u.fragment
