-- ===== src/Syslog/Readers.antt =====
-- What the readers of endpoints/syslog+udp/syslog_parser.cc take from the text.
use libholmes_horace.Common.{
  ℕ, zero, suc, ◌+◌, ◌-◌, ◌≤◌, ◌<◌, String, ◌≡◌, refl, sym, ◌∙◌, ◌≢◌, ◌⊎◌, inl, inr, true, not,
  List, [], ◌∷◌, ◌++◌, append_assoc, arith, ltb, leb, ◌==◌, ltb-true, Bool-cases, and_parts,
  test→eq, if-cases, length, take,
}
use libholmes_horace.Common.Text.{char_at, take-between, take-char_at}
use libholmes_horace.Syslog.{
  space, fail, is_graph, next_char, expect, require, end_or_space, read_priority, read_version,
  token_end, slice, read_token,
}
use libholmes_horace.Syslog.Decimals.{
  Took-after, Took-map, restoring-Restored, Took-check, fail_if-Took, Took, took, threw, Restored,
}
use libholmes_horace.Common.Decimal.{is_digit, decimal, digit_range}
use libholmes_horace.Syslog.Numerals.{read_decimal-IsNumeral}

-- A digit is not a space.
pub digit_no_space : (c : ℕ) → is_digit c ≡ true → c ≢ space
digit_no_space c t e = let range = digit_range c t in omega (arith, range.0, e)

graph_no_space : (c : ℕ) → is_graph c ≡ true → c ≢ space
unfolding is_graph
graph_no_space c t e = let low = (and_parts (leb 0x21 c) (leb c 0x7e) t).0 in ground (arith, low, e)

module _ (text : List ℕ) where
  -- The characters of a field from `start` on, and a space after it, or the end of the text.
  pub data Ended (start : ℕ) (field : List ℕ) (j : ℕ) : Type 0 where
    spaced :
        start < j
        → j ≤ length text
        → char_at text (j - 1) ≡ space
        → take start text ++ (field ++ (space ∷ [])) ≡ take j text
        → Ended start field j
    closed :
        start < j
        → j ≡ length text
        → char_at text (j - 1) ≢ space
        → take start text ++ field ≡ take j text
        → Ended start field j

  pub next_char-Took :
      (index : ℕ)
      → index < length text
      → Took (λ c j. (j ≡ index + 1) × (c ≡ char_at text index)) (next_char text index)
  unfolding next_char
  next_char-Took index h = rw (ltb-true h) (took (refl, refl))

  pub expect-Took :
      (c : ℕ) (m : String) (index : ℕ)
      → index < length text
      → Took (λ _ j. (j ≡ index + 1) × (char_at text index ≡ c)) (expect text c m index)
  unfolding expect
  expect-Took c m index h = Took-after (next_char-Took index h) λ d j e.
      Took-map (fail_if-Took (not (d == c)) m j)
        λ _ j' f. (f.0 ∙ e.0, sym e.1 ∙ ground (arith, f.1))

  pub require-Took :
      (c : ℕ) (m : String) (index : ℕ)
      → index ≤ length text
      → Took
          (λ _ j. (j ≡ index + 1) × (char_at text index ≡ c) × (index < length text))
          (require text c m index)
  unfolding require fail
  require-Took c m index le =
      if-cases (Took (λ _ j. (j ≡ index + 1) × (char_at text index ≡ c) × (index < length text)))
        (index == length text) _ _ (λ t. threw m)
        (λ t.
          let below : index < length text = ground (arith, t, le) in
          Took-map (expect-Took c m index below) λ _ j h. (h.0, h.1, below))

  -- The end of the text, or a space that is taken.
  end_or_space-Took :
      (index : ℕ)
      → index ≤ length text
      → Took
          (λ _ j.
            ((j ≡ index) × (index ≡ length text))
            ⊎ ((j ≡ index + 1) × (char_at text index ≡ space) × (index < length text)))
          (end_or_space text index)
  unfolding end_or_space
  end_or_space-Took index le = elim (Bool-cases (index == length text)) [
    | inl t ↦ rw (t) (took (inl (refl, test→eq index (length text) t)))
    | inr t ↦
        let below : index < length text = ground (arith, t, le) in
        rw (t)
          (Took-map (expect-Took space "' ' expected" index below) λ _ j h. inr (h.0, h.1, below))
  ]

  -- A field that stands before `index`, where it may end.
  pub end_or_space-Ended :
      (start : ℕ) (field : List ℕ) (index : ℕ)
      → start < index
      → index ≤ length text
      → char_at text (index - 1) ≢ space
      → take start text ++ field ≡ take index text
      → Took (λ _ j. Ended start field j) (end_or_space text index)
  end_or_space-Ended start field index pos le other written =
      Took-map (end_or_space-Took index le) λ _ j h. elim h [
        | inl e ↦ let same : j ≡ index = e.0 in rw (same) (closed pos e.1 other written)
        | inr e ↦
            let before : (index + 1) - 1 ≡ index = omega arith in
            let step : index + 1 ≡ suc index = omega arith in
            rw (e.0) (
              spaced (omega (arith, pos)) (omega (arith, e.2)) (rw (before) e.1) (
                rw (step, sym (append_assoc (take start text) field (space ∷ [])), written)
                  (rw (e.1) at (take-char_at text index e.2))))
      ]

  pub read_priority-Took :
      (index : ℕ)
      → index ≤ length text
      → Restored index
          (λ p j.
            (p < 192)
            × (1 ≤ j)
            × (j ≤ length text)
            × (char_at text (j - 1) ≢ space)
            × (take index text ++ (0x3c ∷ (decimal p ++ (0x3e ∷ []))) ≡ take j text))
          (read_priority text index)
  unfolding read_priority
  read_priority-Took index le = restoring-Restored index (
      Took-after (require-Took 0x3c "'<' expected" index le) λ _ i1 a.
        Took-after (read_decimal-IsNumeral text i1 (omega (arith, a.0, a.2))) λ p i2 n.
          Took-check (ltb 191 p) "invalid priority value" i2 _ λ t.
            Took-after (require-Took 0x3e "'>' expected" i2 n.within) λ _ i4 b. took (
              ground (arith, t),
              omega (arith, b.0),
              omega (arith, b.0, b.2),
              (let before : i4 - 1 ≡ i2 = omega (arith, b.0) in
                  rw (before, b.1) (λ e. omega (arith, e))),
              (let first = rw (a.1) at (take-char_at text index a.2) in
                  let last = rw (b.1) at (take-char_at text i2 b.2) in
                  let s1 : i1 ≡ suc index = omega (arith, a.0) in
                  let s4 : i4 ≡ suc i2 = omega (arith, b.0) in
                  let middle = rw (s1) at n.written in
                  rw (s4, sym last, sym middle, sym first)
                    (sym (
                      append_assoc (take index text ++ (0x3c ∷ [])) (decimal p) (0x3e ∷ [])
                      ∙ append_assoc (take index text) (0x3c ∷ []) (decimal p ++ (0x3e ∷ []))))),
            ))

  pub read_version-Took :
      (index : ℕ)
      → index ≤ length text
      → Restored index
          (λ v j. (v ≢ 0) × (v < 1000) × Ended index (decimal v) j)
          (read_version text index)
  unfolding read_version
  read_version-Took index le = restoring-Restored index (
      Took-after (read_decimal-IsNumeral text index le) λ v i1 n.
        Took-check (v == 0) "invalid version number" i1 _ λ t.
          Took-after
            (end_or_space-Ended index (decimal v) i1 (omega (arith, n.after_start)) n.within
              (digit_no_space (char_at text (i1 - 1)) n.last) n.written)
            λ _ j e. took ((λ z. let b : (v == 0) ≡ true = rw (z) refl in cc), n.small, e))

  -- Where the characters of a token end.
  record IsTokenEnd (left index e : ℕ) : Type 0 where
    low : index ≤ e
    high : e ≤ index + left
    last : index < e → is_graph (char_at text (e - 1)) ≡ true

  token_end-IsTokenEnd : (left index : ℕ) → IsTokenEnd left index (token_end text left index)
  unfolding token_end
  token_end-IsTokenEnd zero index = record {
    low = omega arith;
    high = omega arith;
    last = λ h. absurd (omega (arith, h));
  }
  token_end-IsTokenEnd (suc left) index =
      let more = token_end-IsTokenEnd left (index + 1) in
      let e : ℕ = token_end text left (index + 1) in
      if-cases (IsTokenEnd (suc left) index) (is_graph (char_at text index)) _ _
        (λ t. record {
          low = omega (arith, more.low);
          high = omega (arith, more.high);
          last = λ h. elim (Bool-cases (e == index + 1)) [
            | inl z ↦ let same : e - 1 ≡ index = ground (arith, z) in rw (same) t
            | inr z ↦ more.last (ground (arith, z, more.low))
          ];
        })
        (λ t. record {
          low = omega arith;
          high = omega arith;
          last = λ h. absurd (omega (arith, h));
        })

  pub read_token-Took :
      (index : ℕ)
      → index ≤ length text
      → Restored index (λ tok j. Ended index tok j) (read_token text index)
  unfolding read_token
  read_token-Took index le =
      let e : ℕ = token_end text (length text - index) index in
      let end = token_end-IsTokenEnd (length text - index) index in
      restoring-Restored index (
        Took-check (e == index) "token expected" e _ λ t.
          let more : index < e = ground (arith, t, end.low) in
          Took-after
            (end_or_space-Ended index (slice text index e) e (omega (arith, more))
              (omega (arith, end.high, le)) (graph_no_space (char_at text (e - 1)) (end.last more))
              (take-between text index e end.low))
            λ _ j h. took h)
