-- ===== src/QueryString/Decode.antt =====
-- `decode` of horace/query_string.cc undoes the percent-encoding of any text.
use libholmes_horace.Common.{
  ℕ, zero, suc, ◌+◌, ◌-◌, ◌≤◌, ◌<◌, ◌≡◌, refl, sym, ap, ◌∙◌, inl, inr, Bool, true, false, not, ◌&&◌,
  Option, List, [], ◌∷◌, ◌++◌, append_assoc, append-nil, arith, ltb, ◌==◌, if◌then◌else◌,
  Bool-cases, and_parts, test→eq, length, take, drop, take-append-drop, length-drop, drop-drop,
  Result, ok,
}
use libholmes_horace.Common.Text.{
  char_at, or_length, find_if-Ends, take-length, Lacks, find_if-Lacks, Ends, at_match, at_end,
}
use libholmes_horace.QueryString.{
  percent, isxdigit, hex_char, hex_follows, decode_percent, decode_round, decode_loop, decode,
}

-- A percent sign and two hexadecimal digits stand for an octet, anything else for itself.
unfoldable pub percent_decode : List ℕ → List ℕ
percent_decode [] = []
percent_decode (c ∷ []) = c ∷ []
percent_decode (c ∷ d ∷ []) = c ∷ d ∷ []
percent_decode (c ∷ a ∷ b ∷ s) =
    let escaped = percent_decode s in
    let plain = percent_decode (a ∷ b ∷ s) in
    if c == percent && (isxdigit a && isxdigit b) then hex_char a b ∷ escaped else c ∷ plain

pub percent_decode-plain :
    (c : ℕ) (s : List ℕ) → (c == percent) ≡ false → percent_decode (c ∷ s) ≡ c ∷ percent_decode s
unfolding percent_decode
percent_decode-plain c [] t = refl
percent_decode-plain c (a ∷ []) t = refl
percent_decode-plain c (a ∷ b ∷ s) t = rw (t) refl

percent_decode-append :
    (p s : List ℕ) → Lacks (λ c. c == percent) p → percent_decode (p ++ s) ≡ p ++ percent_decode s
percent_decode-append [] s h = refl
percent_decode-append (c ∷ p) s h =
    percent_decode-plain c (p ++ s) h.0 ∙ ap (λ t. c ∷ t) (percent_decode-append p s h.1)

drop-char_at : (s : List ℕ) (i : ℕ) → i < length s → drop i s ≡ char_at s i ∷ drop (suc i) s
unfolding char_at
drop-char_at [] i h = absurd (omega arith)
drop-char_at (c ∷ s) zero h = refl
drop-char_at (c ∷ s) (suc i) h = drop-char_at s i (omega arith)

-- Fewer than two characters follow the percent sign.
percent_decode-short :
    (s : List ℕ) → length s < 2 → percent_decode (percent ∷ s) ≡ percent ∷ percent_decode s
unfolding percent_decode
percent_decode-short [] h = refl
percent_decode-short (a ∷ []) h = refl
percent_decode-short (a ∷ b ∷ s) h = absurd (omega arith)

percent_decode-percent :
    (s : List ℕ) (i : ℕ)
    → i ≤ length s
    → percent_decode (percent ∷ drop i s) ≡ (
        if hex_follows s i
        then hex_char (char_at s i) (char_at s (i + 1)) ∷ percent_decode (drop (i + 2) s)
        else percent ∷ percent_decode (drop i s))
unfolding hex_follows percent_decode
percent_decode-percent s i le = elim (Bool-cases (ltb (length s) (i + 2))) [
  | inl t ↦ rw (t) (percent_decode-short (drop i s) (ground (arith, t, length-drop i s)))
  | inr t ↦
      let room : i + 2 ≤ length s = ground (arith, t) in
      let one : i + 1 ≡ suc i = omega arith in
      let two : i + 2 ≡ suc (suc i) = omega arith in
      let split : drop i s ≡ char_at s i ∷ char_at s (suc i) ∷ drop (suc (suc i)) s =
        drop-char_at s i (omega (arith, room))
        ∙ ap (λ u. char_at s i ∷ u) (drop-char_at s (suc i) (omega (arith, room))) in
      rw (t, one, two, split) refl
]

hex_follows_fits : (s : List ℕ) (i : ℕ) → hex_follows s i ≡ true → i + 2 ≤ length s
unfolding hex_follows
hex_follows_fits s i t = ground (arith, (and_parts (not (ltb (length s) (i + 2))) _ t).0)

abbrev is_percent : ℕ → Bool
is_percent c = c == percent

decode_round-eq :
    (s : List ℕ) (index : ℕ) (decoded : List ℕ) (found : Option ℕ)
    (next : ℕ → List ℕ → Result (List ℕ))
    → index ≤ length s
    → Ends is_percent s index found
    → Lacks is_percent (take (or_length s found - index) (drop index s))
    → ((i : ℕ) (d : List ℕ)
        → i ≤ length s
        → index < i
        → next i d ≡ ok (d ++ percent_decode (drop i s)))
    → decode_round s index decoded found next ≡ ok (decoded ++ percent_decode (drop index s))
unfolding decode_round decode_percent percent_decode
decode_round-eq s index decoded _ next le at_end lacks h =
    let rest : List ℕ = drop index s in
    let all : take (length s - index) rest ≡ rest =
      rw (sym (length-drop index s)) (take-length rest) in
    let same : percent_decode rest ≡ rest =
      ap percent_decode (sym (append-nil rest))
      ∙ percent_decode-append rest [] (rw (all) at lacks)
      ∙ append-nil rest in
    ap (λ t. ok (decoded ++ t)) (sym same)
decode_round-eq s index decoded _ next le (at_match k low high e) lacks h =
    let p : List ℕ = take (k - index) (drop index s) in
    let one : k + 1 ≡ suc k = omega arith in
    let here : drop k s ≡ percent ∷ drop (k + 1) s =
      rw (one) (rw (test→eq (char_at s k) percent e) at (drop-char_at s k high)) in
    let split : drop index s ≡ p ++ (percent ∷ drop (k + 1) s) =
      sym (take-append-drop (k - index) (drop index s))
      ∙ ap (λ t. p ++ t) (drop-drop k index s low ∙ here) in
    let decoded_rest = percent_decode-append p (percent ∷ drop (k + 1) s) lacks in
    let decoded_percent = percent_decode-percent s (k + 1) (omega (arith, high)) in
    let whole : decoded ++ percent_decode (drop index s)
        ≡ (decoded ++ p) ++ percent_decode (percent ∷ drop (k + 1) s) =
      ap (λ t. decoded ++ percent_decode t) split
      ∙ ap (λ t. decoded ++ t) decoded_rest
      ∙ sym (append_assoc decoded p (percent_decode (percent ∷ drop (k + 1) s))) in
    rw (whole, decoded_percent)
      (elim (Bool-cases (hex_follows s (k + 1))) [
        | inl t ↦ rw (t) (
            h (k + 1 + 2) _ (hex_follows_fits s (k + 1) t) (omega (arith, low))
            ∙ ap ok (append_assoc (decoded ++ p) _ _))
        | inr t ↦ rw (t) (
            h (k + 1) _ (omega (arith, high)) (omega (arith, low))
            ∙ ap ok (append_assoc (decoded ++ p) _ _))
      ])

nothing_left : (s : List ℕ) (index : ℕ) → index ≡ length s → drop index s ≡ []
nothing_left [] index e = rw (e) refl
nothing_left (c ∷ s) zero e = absurd (omega (arith, e))
nothing_left (c ∷ s) (suc index) e = nothing_left s index (omega (arith, e))

decode_loop-eq :
    (fuel : ℕ) (s : List ℕ) (index : ℕ) (decoded : List ℕ)
    → index ≤ length s
    → length s - index < fuel
    → decode_loop fuel s index decoded ≡ ok (decoded ++ percent_decode (drop index s))
unfolding decode_loop percent_decode
decode_loop-eq zero s index decoded le enough = absurd (omega (arith, enough))
decode_loop-eq (suc fuel) s index decoded le enough = elim (Bool-cases (index == length s)) [
  | inl t ↦
      let e = nothing_left s index (test→eq index (length s) t) in
      rw (t, e) (ap ok (sym (append-nil decoded)))
  | inr t ↦ rw (t) (
      decode_round-eq s index decoded _ (decode_loop fuel s) le (find_if-Ends is_percent s index)
        (find_if-Lacks is_percent s index)
        (λ i d fits later. decode_loop-eq fuel s i d fits (omega (arith, enough, le, later))))
]

-- Decoding ends, without an exception, with the text where each percent sign that two hexadecimal
-- digits follow is replaced, together with them, by the octet that they stand for.
pub decode_lem : (s : List ℕ) → decode s ≡ ok (percent_decode s)
unfolding decode
decode_lem s = decode_loop-eq (length s + 1) s 0 [] (omega arith) (omega arith)
