-- ===== src/Syslog/Taken.antt =====
-- What the timestamp and the structured data take from the text, in
-- endpoints/syslog+udp/syslog_parser.cc.
use libholmes_horace.Common.{
  ℕ, zero, suc, ◌+◌, ◌-◌, ◌%◌, ◌≤◌, ◌<◌, String, ◌≡◌, refl, Bool, true, false, not, ◌&&◌, ◌||◌,
  Option, none, some, List, [], ◌∷◌, arith, ltb, ◌==◌, and_parts, test→eq, if-cases, length,
}
use libholmes_horace.Common.Text.{char_at, take-between, take-char_at}
use libholmes_horace.Common.Decimal.{is_digit}
use libholmes_horace.Syslog.{space, Reading, fail, slice}
use libholmes_horace.Syslog.Fields.{
  month_names, c_string, strstr, month_length, check_month, read_month, read_day, read_sixtieth,
  read_rfc3164_timestamp, data_loop, read_brackets, read_rfc5424_structured_data,
}
use libholmes_horace.Syslog.Decimals.{
  Took-after, Took-map, restoring-Restored, Took-check, fail_if-Took, read_decimal_two, Took, took,
  threw, Restored,
}
use libholmes_horace.Syslog.Readers.{
  digit_no_space, next_char-Took, expect-Took, require-Took, end_or_space-Ended, Ended,
}

module _ (text : List ℕ) where
  check_month-Took :
      (f : Option ℕ) (index : ℕ) → Took (λ month j. j ≡ index) (check_month text f index)
  unfolding check_month fail
  check_month-Took none index = threw _
  check_month-Took (some f) index =
      if-cases (Took (λ month j. j ≡ index)) (not (f % 3 == 0)) _ _ (λ t. threw _) (λ t. took refl)

  read_month-Took :
      (index : ℕ)
      → index + 3 ≤ length text
      → Took (λ month j. j ≡ index + 3) (read_month text index)
  unfolding read_month
  read_month-Took index le = Took-after (next_char-Took text index (omega (arith, le))) λ a i1 h1.
      Took-after (next_char-Took text i1 (omega (arith, le, h1.0))) λ b i2 h2.
        Took-after (next_char-Took text i2 (omega (arith, le, h1.0, h2.0))) λ c i3 h3.
          Took-map (check_month-Took (strstr month_names (c_string (a ∷ b ∷ c ∷ []))) i3)
            λ month j e. omega (arith, e, h1.0, h2.0, h3.0)

  read_day-Took :
      (month index : ℕ)
      → index + 2 ≤ length text
      → Took (λ _ j. j ≡ index + 2) (read_day text month index)
  unfolding read_day
  read_day-Took month index le = Took-after (read_decimal_two text true false index le) λ day i1 h.
      Took-map (fail_if-Took (ltb day 1 || ltb (month_length month) day) "invalid day of month" i1)
        λ _ j e. omega (arith, e.0, h.0)

  read_sixtieth-Took :
      (m : String) (index : ℕ)
      → index + 2 ≤ length text
      → Took
          (λ _ j. (j ≡ index + 2) × (is_digit (char_at text (j - 1)) ≡ true))
          (read_sixtieth text m index)
  unfolding read_sixtieth
  read_sixtieth-Took m index le =
      Took-after (read_decimal_two text false true index le)
        λ value i1 h. Took-map (fail_if-Took (ltb 59 value) m i1) λ _ j e. rw (e.0) h

  pub read_rfc3164_timestamp-Took :
      (index : ℕ)
      → Restored index (λ ts j. Ended text index ts j) (read_rfc3164_timestamp text index)
  unfolding read_rfc3164_timestamp
  read_rfc3164_timestamp-Took index = restoring-Restored index (
      Took-check (ltb (length text) (index + 15)) "timestamp expected" index _ λ t.
        let room : index + 15 ≤ length text = ground (arith, t) in
        Took-after (read_month-Took index (omega (arith, room))) λ month i1 h1.
          Took-after (expect-Took text space "' ' expected" i1 (omega (arith, room, h1))) λ _ i2 h2.
            Took-after (read_day-Took month i2 (omega (arith, room, h1, h2.0))) λ _ i3 h3.
              Took-after
                (expect-Took text space "' ' expected" i3 (omega (arith, room, h1, h2.0, h3)))
                λ _ i4 h4.
                  let e4 : i4 ≡ index + 7 = omega (arith, h1, h2.0, h3, h4.0) in
                  Took-after (read_sixtieth-Took "invalid hour" i4 (omega (arith, room, e4)))
                    λ _ i5 h5.
                      Took-after
                        (expect-Took text 0x3a "':' expected" i5 (omega (arith, room, e4, h5.0)))
                        λ _ i6 h6.
                          Took-after
                            (read_sixtieth-Took "invalid minute" i6
                              (omega (arith, room, e4, h5.0, h6.0)))
                            λ _ i7 h7.
                              Took-after
                                (expect-Took text 0x3a "':' expected" i7
                                  (omega (arith, room, e4, h5.0, h6.0, h7.0)))
                                λ _ i8 h8.
                                  Took-after
                                    (read_sixtieth-Took "invalid second" i8
                                      (omega (arith, room, e4, h5.0, h6.0, h7.0, h8.0)))
                                    λ _ i9 h9.
                                      let e9 : i9 ≡ index + 15 =
                                        omega (arith, e4, h5.0, h6.0, h7.0, h8.0, h9.0) in
                                      Took-after
                                        (end_or_space-Ended text index (slice text index i9) i9
                                          (omega (arith, e9)) (omega (arith, room, e9))
                                          (digit_no_space (char_at text (i9 - 1)) h9.1)
                                          (take-between text index i9 (omega (arith, e9))))
                                        λ _ j e. took e)

  -- The loop stays in the text.
  data_loop-Took :
      (left : ℕ) (quote : Bool) (index : ℕ)
      → Took (λ _ j. (index ≤ j) × (j ≤ index + left)) (data_loop text left quote index)
  unfolding data_loop fail
  data_loop-Took zero quote index = took (omega arith, omega arith)
  data_loop-Took (suc zero) quote index =
      let Q : Reading Bool → Type 0 = Took (λ _ j. (index ≤ j) × (j ≤ index + suc zero)) in
      if-cases Q (char_at text index == 0x5d) _ _ (λ t. took (omega arith, omega arith))
        λ t.
          if-cases Q (char_at text index == 0x22) _ _ (λ t. took (omega arith, omega arith))
            λ t.
              if-cases Q (char_at text index == 0x5c && quote) _ _ (λ t. threw _)
                λ t. took (omega arith, omega arith)
  data_loop-Took (suc (suc left)) quote index =
      let Q : Reading Bool → Type 0 = Took (λ _ j. (index ≤ j) × (j ≤ index + suc (suc left))) in
      if-cases Q (char_at text index == 0x5d) _ _ (λ t. took (omega arith, omega arith))
        λ t.
          if-cases Q (char_at text index == 0x22) _ _
            (λ t.
              Took-map (data_loop-Took (suc left) (not quote) (index + 1))
                λ _ j h. (omega (arith, h.0), omega (arith, h.1)))
            λ t.
              if-cases Q (char_at text index == 0x5c && quote) _ _
                (λ t.
                  Took-map (data_loop-Took left quote (index + 2))
                    λ _ j h. (omega (arith, h.0), omega (arith, h.1)))
                (λ t.
                  Took-map (data_loop-Took (suc left) quote (index + 1))
                    λ _ j h. (omega (arith, h.0), omega (arith, h.1)))

  read_brackets-Took :
      (index : ℕ)
      → index ≤ length text
      → Took (λ sd j. Ended text index sd j) (read_brackets text index)
  unfolding read_brackets
  read_brackets-Took index le =
      Took-after (require-Took text 0x5b "'[' expected" index le) λ _ i1 h1.
        Took-after (data_loop-Took (length text - i1) false i1) λ quote i2 h2.
          Took-check quote "'\"' expected" i2 _ λ t.
            Took-after
              (require-Took text 0x5d "']' expected *3(" i2 (omega (arith, h1.0, h1.2, h2.1)))
              λ _ i4 h4.
                let before : i4 - 1 ≡ i2 = omega (arith, h4.0) in
                Took-after
                  (end_or_space-Ended text index (slice text index i4) i4
                    (omega (arith, h1.0, h2.0, h4.0)) (omega (arith, h4.0, h4.2))
                    (rw (before, h4.1) (λ e. omega (arith, e)))
                    (take-between text index i4 (omega (arith, h1.0, h2.0, h4.0))))
                  λ _ j e. took e

  pub read_rfc5424_structured_data-Took :
      (index : ℕ)
      → index ≤ length text
      → Restored index (λ sd j. Ended text index sd j) (read_rfc5424_structured_data text index)
  unfolding read_rfc5424_structured_data
  read_rfc5424_structured_data-Took index le = restoring-Restored index (
      if-cases (Took (λ sd j. Ended text index sd j))
        (not (index == length text) && char_at text index == 0x2d) _ _
        (λ t.
          let p = and_parts (not (index == length text)) (char_at text index == 0x2d) t in
          let below : index < length text = ground (arith, p.0, le) in
          let before : (index + 1) - 1 ≡ index = omega arith in
          let step : index + 1 ≡ suc index = omega arith in
          let dash_here : char_at text index ≡ 0x2d = test→eq (char_at text index) 0x2d p.1 in
          Took-after
            (end_or_space-Ended text index (0x2d ∷ []) (index + 1) (omega arith)
              (omega (arith, below)) (rw (before, dash_here) (λ e. omega (arith, e)))
              (rw (step) (rw (dash_here) at (take-char_at text index below))))
            λ _ j e. took e)
        (λ t. read_brackets-Took index le))
