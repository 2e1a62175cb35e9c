-- ===== src/Syslog.antt =====
-- endpoints/syslog+udp/syslog_parser.{h,cc}: the parser of Syslog messages. The message is a list of
-- octets, `_length` many, and `_index` is a state that the readers pass on; a reader leaves an index
-- also where it throws. A read past the message is undefined behaviour.
pub mod Fields
pub mod Message
pub mod Decimals
pub mod Numerals
pub mod Readers
pub mod Taken
pub mod Joined
pub mod Preserved
use libholmes_horace.Common.{
  ℕ, zero, suc, ◌+◌, ◌-◌, ◌*◌, ◌%◌, ◌^◌, min, String, Bool, false, not, ◌&&◌, ◌||◌, List, ltb, leb,
  ◌==◌, if◌then◌else◌, length, take, drop, throw_if, Error, undefined_behaviour, syslog_error,
  Result, err, ok,
}
use libholmes_horace.Common.Text.{char_at}
use libholmes_horace.Common.Decimal.{is_digit}

abbrev pub space : ℕ
space = 0x20

-- What a reader leaves: an index, and a value or an exception.
abbrev pub Reading {ℓ} : Type ℓ → Type ℓ
Reading A = ℕ × Result A

unfoldable pub after {ℓ κ} : {A : Type ℓ} {B : Type κ} → Reading A → (A → ℕ → Reading B) → Reading B
after (index, err e) k = (index, err e)
after (index, ok a) k = k a index

unfoldable pub fail {ℓ} : {A : Type ℓ} → ℕ → String → Reading A
fail index message = (index, err (syslog_error message))

-- `if (c) { throw syslog_error(message); }`
unfoldable pub fail_if : Bool → String → ℕ → Reading (Unit {0})
fail_if b message index = (index, throw_if b (syslog_error message))

-- The index that the handler of `syslog_error` leaves.
unfoldable pub restored_index : Error → ℕ → ℕ → ℕ
restored_index (syslog_error message) restore index = restore
restored_index e restore index = index

-- `catch (syslog_error&) { _index = restore; throw; }`
unfoldable pub restoring {ℓ} : {A : Type ℓ} → ℕ → Reading A → Reading A
unfolding restored_index
restoring restore (index, ok a) = (index, ok a)
restoring restore (index, err e) = (restored_index e restore index, err e)

abbrev pub ends_with : ℕ → List ℕ → Bool
ends_with c s = not (length s == 0) && char_at s (length s - 1) == c

-- The constructor leaves out a line feed at the end, and then a carriage return.
unfoldable pub without_last : ℕ → List ℕ → List ℕ
without_last c s = if ends_with c s then take (length s - 1) s else s

unfoldable pub syslog_parser : List ℕ → List ℕ
unfolding without_last
syslog_parser content = without_last 0x0d (without_last 0x0a content)

-- The variables of the loop over the digits; `digits` is `count - lsp`.
pub record Digits : Type 0 where
  pub index : ℕ
  pub value : ℕ
  pub digits : ℕ
  pub lz : ℕ

-- `isgraph`
unfoldable pub is_graph : ℕ → Bool
is_graph c = leb 0x21 c && leb c 0x7e

module _ (text : List ℕ) where
  -- `_content[_index++]`
  unfoldable pub next_char : ℕ → Reading ℕ
  next_char index =
      if ltb index (length text)
      then (index + 1, ok (char_at text index))
      else (index, err undefined_behaviour)

  -- `if (_content[_index++] != c) { throw syslog_error(message); }`
  unfoldable pub expect : ℕ → String → ℕ → Reading (Unit {0})
  unfolding after next_char fail_if
  expect c message index = after (next_char index) λ d. fail_if (not (d == c)) message

  -- `if ((_index == _length) || (_content[_index++] != c)) { throw syslog_error(message); }`
  unfoldable pub require : ℕ → String → ℕ → Reading (Unit {0})
  unfolding expect fail
  require c message index =
      if index == length text then fail index message else expect c message index

  -- `if ((_index != _length) && (_content[_index++] != ' ')) { throw syslog_error("' ' expected"); }`
  unfoldable pub end_or_space : ℕ → Reading (Unit {0})
  unfolding expect
  end_or_space index =
      if index == length text then (index, ok tt) else expect space "' ' expected" index

  -- The number of spaces from `index` on, of which `left` are looked at.
  unfoldable pub count_spaces : ℕ → ℕ → ℕ
  count_spaces zero index = 0
  count_spaces (suc left) index =
      let more = count_spaces left (index + 1) in
      if char_at text index == space then suc more else 0

  unfoldable pub add_digit : Digits → Digits
  add_digit d =
      let digit = char_at text d.index - 0x30 in
      record {
        index = d.index + 1;
        value = (d.value * 10 + digit) % 2 ^ 32;
        digits = d.digits + 1;
        lz = if digit == 0 && d.digits == d.lz then d.lz + 1 else d.lz;
      }

  unfoldable pub digit_loop : ℕ → Digits → Digits
  unfolding add_digit
  digit_loop zero d = d
  digit_loop (suc left) d =
      let more = digit_loop left (add_digit d) in
      if is_digit (char_at text d.index) then more else d

  -- The checks after the loops.
  unfoldable pub check_digits : ℕ → Bool → ℕ → Digits → Reading ℕ
  unfolding after fail_if
  check_digits min_width allow_lz lsp d =
      after (fail_if (d.digits == 0 || ltb (lsp + d.digits) min_width) "digit expected" d.index)
        λ _ index.
          after
            (fail_if (not allow_lz && (not (d.lz == 0) && (not (d.value == 0) || ltb 1 d.lz)))
              "invalid leading zero" index)
            λ _ index'. (index', ok d.value)

  unfoldable pub read_decimal : ℕ → ℕ → Bool → Bool → ℕ → Reading ℕ
  unfolding restoring count_spaces digit_loop check_digits
  read_decimal min_width max_width allow_lsp allow_lz index =
      let width = min max_width (length text - index) in
      let lsp = if allow_lsp then count_spaces width index else 0 in
      restoring index (
        check_digits min_width allow_lz lsp (
          digit_loop (width - lsp) (record { index = index + lsp; value = 0; digits = 0; lz = 0 })))

  unfoldable pub read_priority : ℕ → Reading ℕ
  unfolding after restoring require fail_if
  read_priority index = restoring index (
      after (require 0x3c "'<' expected" index) λ _ i1.
        after (read_decimal 1 3 false false i1) λ priority i2.
          after (fail_if (ltb 191 priority) "invalid priority value" i2)
            λ _ i3. after (require 0x3e "'>' expected" i3) λ _ i4. (i4, ok priority))

  unfoldable pub read_version : ℕ → Reading ℕ
  unfolding after restoring end_or_space fail_if
  read_version index = restoring index (
      after (read_decimal 1 3 false false index) λ version i1.
        after (fail_if (version == 0) "invalid version number" i1)
          λ _ i2. after (end_or_space i2) λ _ i3. (i3, ok version))

  -- Where the loop over the characters of a token stops; `left` characters are left.
  unfoldable pub token_end : ℕ → ℕ → ℕ
  unfolding is_graph
  token_end zero index = index
  token_end (suc left) index =
      let more = token_end left (index + 1) in if is_graph (char_at text index) then more else index

  -- `std::string(_content + base, end - base)`
  abbrev pub slice : ℕ → ℕ → List ℕ
  slice base end = take (end - base) (drop base text)

  unfoldable pub read_token : ℕ → Reading (List ℕ)
  unfolding after restoring token_end end_or_space fail_if
  read_token index =
      let end = token_end (length text - index) index in
      restoring index (
        after (fail_if (end == index) "token expected" end)
          λ _ i1. after (end_or_space end) λ _ i2. (i2, ok (slice index end)))
