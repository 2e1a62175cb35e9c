-- ===== src/Uri/Parts.antt =====
-- The parts of the constructor of `uri` in horace/uri.cc: what each of them takes from the text.
use libholmes_horace.Common.{
  ℕ, suc, ◌+◌, ◌-◌, ◌≤◌, ◌<◌, ◌≡◌, refl, sym, Bool, true, false, ◌&&◌, Option, none, some, List, [],
  ◌∷◌, ◌++◌, append_assoc, append-nil, arith, ltb, ◌==◌, if◌then◌else◌, ltb-true, and_parts,
  test→eq, if-cases, length, take, drop, Result, ok,
}
use libholmes_horace.Common.Text.{
  char_at, or_length, find_if-Ends, take-between, take-char_at, substr-eq, Reached,
  or_length-Reached, Lacks, find_if-Lacks, Ends, at_match, at_end,
}
use libholmes_horace.Uri.{
  colon, slash, question_mark, number_sign, ends_path, ends_authority, component, scheme_upto,
  parse_authority, parse_path, parse_query, parse_fragment, print_scheme, print_authority,
  print_query, print_fragment,
}

-- A part of the parser went from `start` to the position that it returns with its component,
-- which is printed as the text between them, and is fine; it stopped there.
pub data Parsed {ℓ} {A : Type ℓ} (print : A → List ℕ) (Fine : A → Type 0) (Stop : ℕ → Type 0)
    (s : List ℕ) (start : ℕ) : Result (A × ℕ) → Type ℓ where
  parsed :
      (a : A) (end : ℕ)
      → end ≤ length s
      → take start s ++ print a ≡ take end s
      → Fine a
      → Stop end
      → Parsed print Fine Stop s start (ok (a, end))

component-Parsed {ℓ} :
    {A : Type ℓ} (print : A → List ℕ) (Fine : A → Type 0) (wrap : List ℕ → A) (lead : List ℕ)
    (test : ℕ → Bool) (s : List ℕ) (start index : ℕ) (found : Option ℕ)
    → ((text : List ℕ) → print (wrap text) ≡ lead ++ text)
    → ((text : List ℕ) → Lacks test text → Fine (wrap text))
    → take start s ++ lead ≡ take index s
    → index ≤ length s
    → Ends test s index found
    → Lacks test (take (or_length s found - index) (drop index s))
    → Parsed print Fine (Reached test s) s start (component wrap s index (or_length s found))
unfolding component
component-Parsed print Fine wrap lead test s start index found prints fine before le ends lacks =
    let r = or_length-Reached test s index found ends le in
    let text : List ℕ = take (or_length s found - index) (drop index s) in
    rw (substr-eq s index (or_length s found - index) le) (
      parsed (wrap text) (or_length s found) r.1
        (rw (prints text) (
          simp (sym (append_assoc (take start s) lead text))
            (rw (before) (take-between s index (or_length s found) r.0))))
        (fine text lacks) r.2)

-- The characters of an optional component.
abbrev pub LacksIn : (ℕ → Bool) → Option (List ℕ) → Type 0
LacksIn test none = Unit {0}
LacksIn test (some text) = Lacks test text

abbrev pub ends_scheme : ℕ → Bool
ends_scheme c = c == colon

abbrev pub starts_fragment : ℕ → Bool
starts_fragment c = c == number_sign

pub scheme_upto-Parsed :
    (s : List ℕ) (found : Option ℕ)
    → Ends ends_scheme s 0 found
    → Lacks ends_scheme (take (or_length s found - 0) s)
    → Parsed print_scheme (LacksIn ends_scheme) (λ end. Unit {0}) s 0 (scheme_upto s found)
unfolding scheme_upto print_scheme
scheme_upto-Parsed s _ at_end lacks = parsed none 0 (omega arith) refl tt tt
scheme_upto-Parsed s _ (at_match k low high h) lacks =
    let from_zero : k - 0 ≡ k = omega arith in
    let after : k + 1 ≡ suc k = omega arith in
    rw (substr-eq s 0 (k - 0) (omega arith)) (
      parsed (some (take (k - 0) s)) (k + 1) (omega arith)
        (rw (after, from_zero) (rw (test→eq (char_at s k) colon h) at (take-char_at s k high)))
        lacks tt)

-- A character that is there is read over.
take-lead :
    (s : List ℕ) (index c : ℕ)
    → index < length s
    → char_at s index ≡ c
    → take index s ++ (c ∷ []) ≡ take (index + 1) s
take-lead s index c below h =
    let after : index + 1 ≡ suc index = omega arith in
    rw (after) (rw (h) at (take-char_at s index below))

take-two :
    (s : List ℕ) (index c d : ℕ)
    → index + 2 ≤ length s
    → char_at s index ≡ c
    → char_at s (index + 1) ≡ d
    → take index s ++ (c ∷ d ∷ []) ≡ take (index + 2) s
take-two s index c d below h k =
    let after : index + 2 ≡ (index + 1) + 1 = omega arith in
    rw
      (
        after,
        sym (take-lead s (index + 1) d (omega arith) k),
        sym (take-lead s index c (omega arith) h),
        append_assoc (take index s) (c ∷ []) (d ∷ []),
      )
      refl

optional-Parsed :
    (print : Option (List ℕ) → List ℕ) (Fine : Option (List ℕ) → Type 0) (Stop : ℕ → Type 0)
    (s : List ℕ) (start : ℕ) (b : Bool) (present : Result (Option (List ℕ) × ℕ))
    → print none ≡ []
    → Fine none
    → start ≤ length s
    → (b ≡ true → Parsed print Fine Stop s start present)
    → (b ≡ false → Stop start)
    → Parsed print Fine Stop s start (if b then present else ok (none, start))
optional-Parsed print Fine Stop s start b present nothing fine le h k =
    if-cases (Parsed print Fine Stop s start) b _ _ h
      (λ t. parsed none start le (rw (nothing) (append-nil (take start s))) fine (k t))

Parsed-anywhere {ℓ} :
    {A : Type ℓ} {print : A → List ℕ} {Fine : A → Type 0} {Stop : ℕ → Type 0} {s : List ℕ}
    {start : ℕ} {r : Result (A × ℕ)}
    → Parsed print Fine Stop s start r
    → Parsed print Fine (λ end. Unit {0}) s start r
Parsed-anywhere (parsed a end le h fine stop) = parsed a end le h fine tt

pub parse_authority-Parsed :
    (s : List ℕ) (start : ℕ)
    → start ≤ length s
    → Parsed print_authority
        (LacksIn ends_authority)
        (λ end. Unit {0})
        s
        start
        (parse_authority s start)
unfolding parse_authority print_authority
parse_authority-Parsed s start le =
    optional-Parsed print_authority (LacksIn ends_authority) (λ end. Unit {0}) s start _ _ refl tt
      le
      (λ t.
        let p = and_parts _ _ t in
        let q = and_parts _ _ p.1 in
        let fits : start + 2 ≤ length s = ground (arith, p.0) in
        Parsed-anywhere (
          component-Parsed print_authority (LacksIn ends_authority) some (slash ∷ slash ∷ [])
            ends_authority s start (start + 2) _ (λ text. refl) (λ text h. h)
            (take-two s start slash slash fits (test→eq _ _ q.0) (test→eq _ _ q.1)) fits
            (find_if-Ends ends_authority s (start + 2))
            (find_if-Lacks ends_authority s (start + 2))))
      (λ t. tt)

pub parse_path-Parsed :
    (s : List ℕ) (start : ℕ)
    → start ≤ length s
    → Parsed (λ text. text) (Lacks ends_path) (Reached ends_path s) s start (parse_path s start)
unfolding parse_path
parse_path-Parsed s start le =
    component-Parsed (λ text. text) (Lacks ends_path) (λ text. text) [] ends_path s start start _
      (λ text. refl) (λ text h. h) (append-nil (take start s)) le (find_if-Ends ends_path s start)
      (find_if-Lacks ends_path s start)

-- Where the path ends and no query begins, a fragment begins or the text ends.
no_query :
    (s : List ℕ) (start : ℕ)
    → Reached ends_path s start
    → (ltb start (length s) && char_at s start == question_mark) ≡ false
    → Reached starts_fragment s start
no_query s start reached t below =
    let c = reached below in let b = ltb-true below in let q = rw (b) at t in rw (q) at c

pub parse_query-Parsed :
    (s : List ℕ) (start : ℕ)
    → start ≤ length s
    → Reached ends_path s start
    → Parsed print_query
        (LacksIn starts_fragment)
        (Reached starts_fragment s)
        s
        start
        (parse_query s start)
unfolding parse_query print_query
parse_query-Parsed s start le reached =
    optional-Parsed print_query (LacksIn starts_fragment) (Reached starts_fragment s) s start _ _
      refl tt le
      (λ t.
        let p = and_parts _ _ t in
        let fits : start < length s = ground (arith, p.0) in
        component-Parsed print_query (LacksIn starts_fragment) some (question_mark ∷ [])
          starts_fragment s start (start + 1) _ (λ text. refl) (λ text h. h)
          (take-lead s start question_mark fits (test→eq _ _ p.1)) (omega arith)
          (find_if-Ends starts_fragment s (start + 1))
          (find_if-Lacks starts_fragment s (start + 1)))
      (no_query s start reached)

abbrev pub never : ℕ → Bool
never c = false

never-Lacks : (text : List ℕ) → Lacks never text
never-Lacks [] = tt
never-Lacks (c ∷ text) = (refl, never-Lacks text)

no_fragment :
    (s : List ℕ) (start : ℕ)
    → Reached starts_fragment s start
    → (ltb start (length s) && char_at s start == number_sign) ≡ false
    → Reached never s start
no_fragment s start reached t below =
    let c = reached below in let b = ltb-true below in let q = rw (b) at t in cc

pub parse_fragment-Parsed :
    (s : List ℕ) (start : ℕ)
    → start ≤ length s
    → Reached starts_fragment s start
    → Parsed print_fragment (LacksIn never) (Reached never s) s start (parse_fragment s start)
unfolding parse_fragment print_fragment
parse_fragment-Parsed s start le reached =
    optional-Parsed print_fragment (LacksIn never) (Reached never s) s start _ _ refl tt le
      (λ t.
        let p = and_parts _ _ t in
        let fits : start < length s = ground (arith, p.0) in
        component-Parsed print_fragment (LacksIn never) some (number_sign ∷ []) never s start
          (start + 1) none (λ text. refl) (λ text h. h)
          (take-lead s start number_sign fits (test→eq _ _ p.1)) (omega arith) at_end
          (never-Lacks _))
      (no_fragment s start reached)
