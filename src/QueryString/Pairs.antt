-- ===== src/QueryString/Pairs.antt =====
-- A name and a value in a query string: where the parameter ends, and what the constructor in
-- horace/query_string.cc makes of it.
use libholmes_horace.Common.Text.{Octets, char_at, advance, find_if, substr, substr-eq, Lacks}
use libholmes_horace.QueryString.{decode, replace_plus, split_param, Parameters, assign, add_param}
use libholmes_horace.QueryString.Decode.{decode_lem}
use libholmes_horace.QueryString.Encode.{
  encode, equals-IsMark, encode-Lacks, percent_decode-encode, IsLiteral,
}
use libholmes_horace.Common.{
  ℕ, zero, suc, ◌+◌, ◌≤◌, ◌≡◌, refl, sym, ap, ◌∙◌, Bool, true, false, none, some, List, [], ◌∷◌,
  ◌++◌, arith, ◌==◌, length, take, drop, length-append, take-append_length, drop-nil, ok,
}

no_head : (p s : List ℕ) (c : ℕ) → ◌≡◌ {A = List ℕ} [] (p ++ (c ∷ s)) → ⊥
no_head p s c e = omega (arith, ap length e, length-append p (c ∷ s))

-- The search ends at the first character that is sought.
pub find_if-here :
    (test : ℕ → Bool) (s p t : List ℕ) (index c : ℕ)
    → drop index s ≡ p ++ (c ∷ t)
    → Lacks test p
    → test c ≡ true
    → find_if test s index ≡ some (index + length p)
unfolding find_if char_at
find_if-here test [] p t index c e h k = absurd (no_head p t c (sym (drop-nil index) ∙ e))
find_if-here test (a ∷ s) p t (suc index) c e h k =
    ap advance (find_if-here test s p t index c e h k) ∙ ap some (omega arith)
find_if-here test (a ∷ s) [] t zero c e h k =
    let first : a ≡ c = ap (λ l. char_at l 0) e in rw (first, k) refl
find_if-here test (a ∷ s) (b ∷ p) t zero c e h k =
    let first : a ≡ b = ap (λ l. char_at l 0) e in
    rw (first, h.0)
      (ap advance (find_if-here test s p t 0 c (ap (drop (suc zero)) e) h.1 k)
        ∙ ap some (omega arith))

pub find_if-nowhere :
    (test : ℕ → Bool) (s p : List ℕ) (index : ℕ)
    → drop index s ≡ p
    → Lacks test p
    → find_if test s index ≡ none
unfolding find_if char_at
find_if-nowhere test [] p index e h = refl
find_if-nowhere test (a ∷ s) p (suc index) e h = ap advance (find_if-nowhere test s p index e h)
find_if-nowhere test (a ∷ s) [] zero e h = absurd (omega (arith, ap length e))
find_if-nowhere test (a ∷ s) (b ∷ p) zero e h =
    let first : a ≡ b = ap (λ l. char_at l 0) e in
    rw (first, h.0) (ap advance (find_if-nowhere test s p 0 (ap (drop (suc zero)) e) h.1))

pub take_all : (n : ℕ) (s : List ℕ) → length s ≤ n → take n s ≡ s
take_all zero [] le = refl
take_all zero (c ∷ s) le = absurd (omega (arith, le))
take_all (suc n) [] le = refl
take_all (suc n) (c ∷ s) le = ap (λ t. c ∷ t) (take_all n s (omega (arith, le)))

pub drop_behind : (p s : List ℕ) (c : ℕ) → drop (length p + 1) (p ++ (c ∷ s)) ≡ s
drop_behind p s c =
    let one : length p + 1 ≡ suc (length p) = omega arith in rw (one) (drop_suc_behind p)
  where
    drop_suc_behind : (q : List ℕ) → drop (suc (length q)) (q ++ (c ∷ s)) ≡ s
    drop_suc_behind [] = refl
    drop_suc_behind (a ∷ q) = drop_suc_behind q

-- `name=value`
unfoldable pub encode_pair : (ℕ → Bool) → List ℕ → List ℕ → List ℕ
unfolding encode
encode_pair literal name value = encode literal name ++ (0x3d ∷ encode literal value)

pub length-encode_pair :
    (literal : ℕ → Bool) (name value : List ℕ) → 1 ≤ length (encode_pair literal name value)
unfolding encode_pair
length-encode_pair literal name value =
    omega (arith, length-append (encode literal name) (0x3d ∷ encode literal value))

split_param-pair :
    (name value : List ℕ)
    → split_param (name ++ (0x3d ∷ value)) (some (length name)) ≡ ok (name, value)
unfolding split_param
split_param-pair name value =
    let param : List ℕ = name ++ (0x3d ∷ value) in
    let long = length-append name (0x3d ∷ value) in
    let first : substr param 0 (length name) ≡ ok name =
      substr-eq param 0 (length name) (omega arith)
      ∙ ap ok (take-append_length name (0x3d ∷ value)) in
    let second : substr param (length name + 1) (length param) ≡ ok value =
      substr-eq param (length name + 1) (length param) (omega (arith, long))
      ∙ ap (λ t. ok (take (length param) t)) (drop_behind name value 0x3d)
      ∙ ap ok (take_all (length param) value (omega (arith, long))) in
    rw (first, second) refl

decode-encode :
    (literal : ℕ → Bool) (s : List ℕ)
    → IsLiteral literal
    → Octets s
    → decode (replace_plus (encode literal s)) ≡ ok s
decode-encode literal s h k =
    decode_lem (replace_plus (encode literal s)) ∙ ap ok (percent_decode-encode literal s h k)

pub add_param-encode_pair :
    (literal : ℕ → Bool) (name value : List ℕ) (ps : Parameters)
    → IsLiteral literal
    → Octets name
    → Octets value
    → add_param (encode_pair literal name value) ps ≡ ok (assign name value ps)
unfolding add_param encode_pair
add_param-encode_pair literal name value ps h k l =
    let param : List ℕ = encode literal name ++ (0x3d ∷ encode literal value) in
    let some_there : (length param == 0) ≡ false =
      ground (arith, length-encode_pair literal name value) in
    let found : find_if (λ c. c == 0x3d) param 0 ≡ some (length (encode literal name)) =
      find_if-here (λ c. c == 0x3d) param (encode literal name) (encode literal value) 0 0x3d refl
        (encode-Lacks literal 0x3d name (equals-IsMark literal h) k) refl
      ∙ ap some (omega arith) in
    rw
      (
        some_there,
        found,
        split_param-pair (encode literal name) (encode literal value),
        decode-encode literal name h k,
        decode-encode literal value h l,
      )
      refl
