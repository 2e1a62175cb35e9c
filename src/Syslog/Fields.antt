-- ===== src/Syslog/Fields.antt =====
-- The RFC 3164 timestamp and the RFC 5424 structured data in
-- endpoints/syslog+udp/syslog_parser.cc.
use libholmes_horace.Common.{
  ℕ, zero, suc, ◌+◌, ◌-◌, ◌/◌, ◌%◌, String, Bool, true, false, not, ◌&&◌, ◌||◌, Option, none, some,
  List, [], ◌∷◌, ltb, ◌==◌, if◌then◌else◌, length, ok,
}
use libholmes_horace.Common.Text.{octets_of, char_at, advance}
use libholmes_horace.Syslog.{
  space, Reading, after, fail, fail_if, restoring, next_char, expect, require, end_or_space,
  read_decimal, slice,
}

unfoldable pub month_names : List ℕ
month_names = octets_of "JanFebMarAprMayJunJulAugSepOctNovDec"

-- A C string ends at the first NUL.
unfoldable pub c_string : List ℕ → List ℕ
c_string [] = []
c_string (c ∷ s) = let rest = c_string s in if c == 0 then [] else c ∷ rest

unfoldable pub is_prefix : List ℕ → List ℕ → Bool
is_prefix [] s = true
is_prefix (c ∷ p) [] = false
is_prefix (c ∷ p) (d ∷ s) = c == d && is_prefix p s

-- `strstr(s, p)`, as the offset in `s`.
unfoldable pub strstr : List ℕ → List ℕ → Option ℕ
unfolding is_prefix
strstr [] p = if is_prefix p [] then some 0 else none
strstr (c ∷ s) p = let rest = strstr s p in if is_prefix p (c ∷ s) then some 0 else advance rest

unfoldable pub month_lengths : List ℕ
month_lengths = 31 ∷ 29 ∷ 31 ∷ 30 ∷ 31 ∷ 30 ∷ 31 ∷ 31 ∷ 30 ∷ 31 ∷ 30 ∷ 31 ∷ []

-- `month_lengths[month]`, where the month is below 12.
unfoldable pub month_length : ℕ → ℕ
unfolding month_lengths
month_length month = char_at month_lengths month

module _ (text : List ℕ) where
  -- `f` is the result of `strstr`.
  unfoldable pub check_month : Option ℕ → ℕ → Reading ℕ
  unfolding fail
  check_month none index = fail index "month name expected"
  check_month (some f) index =
      if not (f % 3 == 0) then fail index "month name expected" else (index, ok (f / 3))

  unfoldable pub read_month : ℕ → Reading ℕ
  unfolding after next_char check_month month_names c_string strstr
  read_month index = after (next_char text index) λ a i1. after (next_char text i1) λ b i2.
      after (next_char text i2)
        λ c i3. check_month (strstr month_names (c_string (a ∷ b ∷ c ∷ []))) i3

  unfoldable pub read_day : ℕ → ℕ → Reading (Unit {0})
  unfolding after month_length fail_if
  read_day month index =
      after (read_decimal text 2 2 true false index)
        λ day i1. fail_if (ltb day 1 || ltb (month_length month) day) "invalid day of month" i1

  -- The hour, the minute or the second, none of which may exceed 59 in this code.
  unfoldable pub read_sixtieth : String → ℕ → Reading (Unit {0})
  unfolding after fail_if
  read_sixtieth message index =
      after (read_decimal text 2 2 false true index) λ value i1. fail_if (ltb 59 value) message i1

  unfoldable pub read_rfc3164_timestamp : ℕ → Reading (List ℕ)
  unfolding after restoring fail_if expect read_month read_day read_sixtieth end_or_space
  read_rfc3164_timestamp index = restoring index (
      after (fail_if (ltb (length text) (index + 15)) "timestamp expected" index) λ _ i0.
        after (read_month i0) λ month i1. after (expect text space "' ' expected" i1) λ _ i2.
          after (read_day month i2) λ _ i3. after (expect text space "' ' expected" i3) λ _ i4.
            after (read_sixtieth "invalid hour" i4) λ _ i5.
              after (expect text 0x3a "':' expected" i5) λ _ i6.
                after (read_sixtieth "invalid minute" i6) λ _ i7.
                  after (expect text 0x3a "':' expected" i7) λ _ i8.
                    after (read_sixtieth "invalid second" i8)
                      λ _ i9. after (end_or_space text i9) λ _ i10. (i10, ok (slice text index i9)))

  -- The loop over structured data, from `index` on, of which `left` characters are left: where it
  -- stops, and whether a quotation is open there. A backslash in a quotation takes one more.
  unfoldable pub data_loop : ℕ → Bool → ℕ → Reading Bool
  unfolding fail
  data_loop zero quote index = (index, ok quote)
  data_loop (suc zero) quote index =
      if char_at text index == 0x5d
      then (index, ok quote)
      else if char_at text index == 0x22
      then (index + 1, ok (not quote))
      else if char_at text index == 0x5c && quote
      then fail (index + 1) "']' expected (2)"
      else (index + 1, ok quote)
  data_loop (suc (suc left)) quote index =
      let toggled = data_loop (suc left) (not quote) (index + 1) in
      let escaped = data_loop left quote (index + 2) in
      let plain = data_loop (suc left) quote (index + 1) in
      if char_at text index == 0x5d
      then (index, ok quote)
      else if char_at text index == 0x22
      then toggled
      else if char_at text index == 0x5c && quote
      then escaped
      else plain

  unfoldable pub read_brackets : ℕ → Reading (List ℕ)
  unfolding after require data_loop fail_if end_or_space
  read_brackets index = after (require text 0x5b "'[' expected" index) λ _ i1.
      after (data_loop (length text - i1) false i1) λ quote i2.
        after (fail_if quote "'\"' expected" i2) λ _ i3.
          after (require text 0x5d "']' expected *3(" i3)
            λ _ i4. after (end_or_space text i4) λ _ i5. (i5, ok (slice text index i4))

  unfoldable pub read_rfc5424_structured_data : ℕ → Reading (List ℕ)
  unfolding after restoring end_or_space read_brackets
  read_rfc5424_structured_data index = restoring index (
      if not (index == length text) && char_at text index == 0x2d
      then (after (end_or_space text (index + 1)) λ _ i1. (i1, ok (0x2d ∷ [])))
      else read_brackets index)

  unfoldable pub read_remaining : ℕ → ℕ × List ℕ
  read_remaining index = (length text, slice text index (length text))
