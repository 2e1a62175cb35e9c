-- ===== src/QueryString/Encode.antt =====
-- The encoding of names and values that `decode` of horace/query_string.cc undoes: a space is written
-- as a plus sign, and any other character as itself or by its number.
use libholmes_horace.Common.Text.{Octets, Lacks}
use libholmes_horace.QueryString.{percent, plus, isxdigit, hex_value, hex_char, replace_plus}
use libholmes_horace.QueryString.Decode.{percent_decode, percent_decode-plain}
use libholmes_horace.Common.{
  ℕ, ◌+◌, ◌/◌, ◌%◌, ◌<◌, ◌≡◌, refl, ap, ◌∙◌, inl, inr, Bool, true, false, List, [], ◌∷◌, ◌++◌,
  arith, ltb, ◌==◌, if◌then◌else◌, Bool-cases, test→eq, if-cases,
}

abbrev pub hex_digit : ℕ → ℕ
hex_digit n = if ltb n 10 then 0x30 + n else 0x37 + n

unfoldable pub encode_char : (ℕ → Bool) → ℕ → List ℕ
encode_char literal c =
    if literal c
    then c ∷ []
    else if c == 0x20
    then plus ∷ []
    else percent ∷ hex_digit (c / 16) ∷ hex_digit (c % 16) ∷ []

unfoldable pub encode : (ℕ → Bool) → List ℕ → List ℕ
unfolding encode_char
encode literal [] = []
encode literal (c ∷ s) = encode_char literal c ++ encode literal s

-- The characters that stand for something else are not written as themselves.
pub record IsLiteral (literal : ℕ → Bool) : Type 0 where
  pub no_percent : literal percent ≡ false
  pub no_plus : literal plus ≡ false
  pub no_ampersand : literal 0x26 ≡ false
  pub no_equals : literal 0x3d ≡ false

-- A character that no encoding contains.
pub record IsMark (literal : ℕ → Bool) (mark : ℕ) : Type 0 where
  pub not_literal : literal mark ≡ false
  pub not_plus : (plus == mark) ≡ false
  pub not_percent : (percent == mark) ≡ false
  pub not_digit : (n : ℕ) → n < 16 → (hex_digit n == mark) ≡ false

pub ampersand-IsMark : (literal : ℕ → Bool) → IsLiteral literal → IsMark literal 0x26
ampersand-IsMark literal h = record {
  not_literal = h.no_ampersand;
  not_plus = refl;
  not_percent = refl;
  not_digit = λ n low. ground arith;
}

pub equals-IsMark : (literal : ℕ → Bool) → IsLiteral literal → IsMark literal 0x3d
equals-IsMark literal h = record {
  not_literal = h.no_equals;
  not_plus = refl;
  not_percent = refl;
  not_digit = λ n low. ground arith;
}

not_same :
    (literal : ℕ → Bool) (c mark : ℕ)
    → literal c ≡ true
    → literal mark ≡ false
    → (c == mark) ≡ false
not_same literal c mark t f = elim (Bool-cases (c == mark)) [
  | inl e ↦ let same : literal mark ≡ true = rw (test→eq c mark e) at t in cc
  | inr e ↦ e
]

pub Lacks-append :
    (test : ℕ → Bool) (s t : List ℕ) → Lacks test s → Lacks test t → Lacks test (s ++ t)
Lacks-append test [] t h k = k
Lacks-append test (c ∷ s) t h k = (h.0, Lacks-append test s t h.1 k)

encode_char-Lacks :
    (literal : ℕ → Bool) (mark c : ℕ)
    → IsMark literal mark
    → c < 256
    → Lacks (λ d. d == mark) (encode_char literal c)
unfolding encode_char
encode_char-Lacks literal mark c h low =
    if-cases (Lacks (λ d. d == mark)) (literal c) _ _
      (λ t. (not_same literal c mark t h.not_literal, tt))
      (λ f.
        if-cases (Lacks (λ d. d == mark)) (c == 0x20) _ _ (λ t. (h.not_plus, tt))
          (λ g. (
            h.not_percent,
            (h.not_digit (c / 16) (omega (arith, low)), (h.not_digit (c % 16) (omega arith), tt)),
          )))

pub encode-Lacks :
    (literal : ℕ → Bool) (mark : ℕ) (s : List ℕ)
    → IsMark literal mark
    → Octets s
    → Lacks (λ d. d == mark) (encode literal s)
unfolding encode
encode-Lacks literal mark [] h k = tt
encode-Lacks literal mark (c ∷ s) h k =
    Lacks-append _ (encode_char literal c) (encode literal s)
      (encode_char-Lacks literal mark c h k.0) (encode-Lacks literal mark s h k.1)

hex_digit_kept :
    (n : ℕ) → n < 16 → (if hex_digit n == plus then 0x20 else hex_digit n) ≡ hex_digit n
hex_digit_kept n low = ground arith

isxdigit-hex_digit : (n : ℕ) → n < 16 → isxdigit (hex_digit n) ≡ true
unfolding isxdigit
isxdigit-hex_digit n low = ground arith

hex_value-hex_digit : (n : ℕ) → n < 16 → hex_value (hex_digit n) ≡ n
unfolding hex_value
hex_value-hex_digit n low = ground arith

hex_char-hex_digit : (c : ℕ) → c < 256 → hex_char (hex_digit (c / 16)) (hex_digit (c % 16)) ≡ c
unfolding hex_char
hex_char-hex_digit c low =
    let high = hex_value-hex_digit (c / 16) (omega (arith, low)) in
    let units = hex_value-hex_digit (c % 16) (omega arith) in rw (high, units) (omega arith)

hex_digits :
    (c : ℕ) (s : List ℕ)
    → c < 256
    → percent_decode (replace_plus (percent ∷ hex_digit (c / 16) ∷ hex_digit (c % 16) ∷ []) ++ s)
      ≡ c ∷ percent_decode s
unfolding percent_decode replace_plus
hex_digits c s low =
    let below : c / 16 < 16 = omega (arith, low) in
    let units : c % 16 < 16 = omega arith in
    rw
      (
        hex_digit_kept (c / 16) below,
        hex_digit_kept (c % 16) units,
        isxdigit-hex_digit (c / 16) below,
        isxdigit-hex_digit (c % 16) units,
        hex_char-hex_digit c low,
      )
      refl

encode_char-decoded :
    (literal : ℕ → Bool) (c : ℕ) (s : List ℕ)
    → IsLiteral literal
    → c < 256
    → percent_decode (replace_plus (encode_char literal c) ++ s) ≡ c ∷ percent_decode s
unfolding encode_char replace_plus
encode_char-decoded literal c s h low =
    if-cases (λ t. percent_decode (replace_plus t ++ s) ≡ c ∷ percent_decode s) (literal c) _ _
      (λ t.
        rw (not_same literal c plus t h.no_plus)
          (percent_decode-plain c s (not_same literal c percent t h.no_percent)))
      (λ f.
        if-cases (λ t. percent_decode (replace_plus t ++ s) ≡ c ∷ percent_decode s) (c == 0x20) _ _
          (λ t. rw (test→eq c 0x20 t) (percent_decode-plain 0x20 s refl)) (λ g. hex_digits c s low))

replace_plus-append : (s t : List ℕ) → replace_plus (s ++ t) ≡ replace_plus s ++ replace_plus t
unfolding replace_plus
replace_plus-append [] t = refl
replace_plus-append (c ∷ s) t =
    ap (λ u. (if c == plus then 0x20 else c) ∷ u) (replace_plus-append s t)

pub percent_decode-encode :
    (literal : ℕ → Bool) (s : List ℕ)
    → IsLiteral literal
    → Octets s
    → percent_decode (replace_plus (encode literal s)) ≡ s
unfolding encode percent_decode replace_plus
percent_decode-encode literal [] h k = refl
percent_decode-encode literal (c ∷ s) h k =
    ap percent_decode (replace_plus-append (encode_char literal c) (encode literal s))
    ∙ encode_char-decoded literal c (replace_plus (encode literal s)) h k.0
    ∙ ap (λ t. c ∷ t) (percent_decode-encode literal s h k.1)
