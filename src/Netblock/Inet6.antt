-- ===== src/Netblock/Inet6.antt =====
-- The constructor of horace/inet6_netblock.cc. A char is an octet; `_prefix` is the list of the
-- octets that have been written so far, which are `dstidx` many.
pub mod Written
pub mod Bounds
use libholmes_horace.Common.{
  ℕ, zero, suc, ◌+◌, ◌-◌, ◌*◌, ◌/◌, ◌%◌, ◌^◌, String, Bool, true, false, not, ◌&&◌, ◌||◌, Option,
  none, some, List, [], ◌∷◌, ◌++◌, ltb, leb, ◌==◌, if◌then◌else◌, length, take, drop, throw_if,
  ◌>>=◌, ◌>>◌, invalid_argument, Result, err, ok,
}
use libholmes_horace.Common.Decimal.{is_digit}

pub record Inet6Netblock : Type 0 where
  pub prefix : List ℕ
  pub prefix_length : ℕ

-- The variables of the loops; `zidx` is `none` for -1.
pub record Fields : Type 0 where
  pub srcidx : ℕ
  pub prefix : List ℕ
  pub zidx : Option ℕ
  pub digits : ℕ
  pub acc : ℕ

abbrev pub colon : ℕ
colon = 0x3a

abbrev pub full_stop : ℕ
full_stop = 0x2e

abbrev pub slash : ℕ
slash = 0x2f

-- `dstlen`
abbrev pub dstlen : ℕ
dstlen = 16

unfoldable pub next_is : ℕ → List ℕ → Bool
next_is c [] = false
next_is c (d ∷ s) = d == c

abbrev pub next_char : Fields → Fields
next_char st = record st { srcidx = st.srcidx + 1 }

-- The two octets of a hexadecimal field, after the check for their room.
unfoldable pub end_field : Fields → Result Fields
end_field st = do
  throw_if (leb dstlen (length st.prefix)) (invalid_argument "too many fields in IPv6 address")
  ok (record st {
    prefix = st.prefix ++ ((st.acc / 2 ^ 8 % 2 ^ 8) ∷ (st.acc % 2 ^ 8) ∷ []);
    digits = 0;
    acc = 0;
  })

-- `zidx = dstidx`, the first time.
unfoldable pub compress : Option ℕ → Fields → Result Fields
compress none st = ok (record st { zidx = some (length st.prefix) })
compress (some z) st = err (invalid_argument "multiple compressed fields in IPv6 address")

-- A colon, before `rest`.
unfoldable pub read_colon : List ℕ → Fields → Result Fields
unfolding end_field compress next_is
read_colon rest st =
    if st.srcidx == 0
    then throw_if (not (next_is colon rest))
        (invalid_argument "invalid empty field in IPv6 address")
      >> ok st
    else if st.digits == 0
    then compress st.zidx st
    else end_field st

abbrev between : ℕ → ℕ → ℕ → Bool
between low high c = leb low c && leb c high

unfoldable pub hex_digit : ℕ → Result ℕ
hex_digit c =
    if between 0x30 0x39 c
    then ok (c - 0x30)
    else if between 0x41 0x46 c
    then ok (c - 0x41 + 0xa)
    else if between 0x61 0x66 c
    then ok (c - 0x61 + 0xa)
    else err (invalid_argument "invalid character in IPv6 address")

unfoldable pub add_hex_digit : ℕ → Fields → Result Fields
unfolding hex_digit
add_hex_digit c st = do
  d ← hex_digit c
  throw_if (ltb 4 (st.digits + 1)) (invalid_argument "field too long in IPv6 address")
  ok (record st { acc = st.acc * 2 ^ 4 + d; digits = st.digits + 1 })

unfoldable pub hex_step : ℕ → List ℕ → Fields → Result Fields
unfolding read_colon add_hex_digit
hex_step c rest st = if c == colon then read_colon rest st else add_hex_digit c st

-- The first loop, which a full stop or a slash ends.
unfoldable pub read_hex : List ℕ → Fields → Result Fields
unfolding hex_step
read_hex [] st = ok st
read_hex (c ∷ rest) st =
    if c == full_stop || c == slash
    then ok st
    else hex_step c rest st >>= λ next. read_hex rest (next_char next)

-- `digits += 1` for a decimal digit, and the number that it gives.
unfoldable pub add_decimal_digit : ℕ → String → String → ℕ → Fields → Result Fields
add_decimal_digit limit zero_message large_message c st = do
  throw_if (not (st.digits == 0) && st.acc == 0) (invalid_argument zero_message)
  throw_if (ltb limit (st.acc * 10 + (c - 0x30))) (invalid_argument large_message)
  ok (record st { digits = st.digits + 1; acc = st.acc * 10 + (c - 0x30) })

-- `_prefix[dstidx] = acc`, where `decimal_fields` is checked.
unfoldable pub end_decimal_field : ℕ → Fields → Result Fields
end_decimal_field decimal_fields st = do
  throw_if (st.digits == 0) (invalid_argument "invalid empty field in IPv6 address")
  throw_if (leb 4 decimal_fields) (invalid_argument "too many decimal fields in IPv6 address")
  ok (record st { prefix = st.prefix ++ ((st.acc % 2 ^ 8) ∷ []); digits = 0; acc = 0 })

unfoldable pub count_field : ℕ × Fields → Result (ℕ × Fields)
unfolding end_decimal_field
count_field (decimal_fields, st) = do
  next ← end_decimal_field decimal_fields st
  ok (decimal_fields + 1, next)

unfoldable pub decimal_char : ℕ → Fields → Result Fields
unfolding add_decimal_digit
decimal_char c st =
    if is_digit c
    then add_decimal_digit 255 "decimal value with leading zero in IPv6 address"
        "decimal value too large in IPv6 address" c st
    else err (invalid_argument "invalid character in IPv6 address")

unfoldable pub decimal_step : ℕ → ℕ × Fields → Result (ℕ × Fields)
unfolding count_field decimal_char
decimal_step c (decimal_fields, st) =
    if c == full_stop
    then count_field (decimal_fields, st)
    else (decimal_char c st >>= λ next. ok (decimal_fields, next))

-- The second loop, which a slash ends.
unfoldable pub read_decimal : List ℕ → ℕ × Fields → Result (ℕ × Fields)
unfolding decimal_step
read_decimal [] st = ok st
read_decimal (c ∷ rest) st =
    if c == slash
    then ok st
    else decimal_step c st >>= λ next. read_decimal rest (next.0, next_char next.1)

-- The last four octets in dotted decimal notation: the last field is read again as a decimal one.
unfoldable pub dotted_end : List ℕ → Fields → Result Fields
unfolding end_decimal_field
dotted_end s st = do
  throw_if (ltb (dstlen - 4) (length st.prefix))
      (invalid_argument "too many fields in IPv6 address")
  (decimal_fields, last) ←
      read_decimal (drop (st.srcidx - st.digits) s)
        (0, record st { srcidx = st.srcidx - st.digits; digits = 0; acc = 0 })
  full ← end_decimal_field decimal_fields last
  throw_if (ltb (decimal_fields + 1) 4) (invalid_argument "too few decimal fields in IPv6 address")
  ok full

-- `zidx != dstidx`
unfoldable pub elsewhere : Option ℕ → ℕ → Bool
elsewhere none dstidx = true
elsewhere (some z) dstidx = not (z == dstidx)

-- The address ended without a dotted decimal part.
unfoldable pub plain_end : Fields → Result Fields
unfolding elsewhere end_field
plain_end st =
    if st.digits == 0
    then throw_if (elsewhere st.zidx (length st.prefix))
        (invalid_argument "invalid empty field in IPv6 address")
      >> ok st
    else end_field st

unfoldable pub zeros : ℕ → List ℕ
zeros zero = []
zeros (suc n) = 0 ∷ zeros n

-- The compressed fields. The loops move the octets from `zidx` on to the end of the array, and
-- fill the gap with zeros.
unfoldable pub decompress : Option ℕ → List ℕ → Result (List ℕ)
unfolding zeros
decompress none p = do
  throw_if (ltb (length p) dstlen) (invalid_argument "too few fields in IPv6 address")
  ok p
decompress (some z) p = do
  throw_if (leb dstlen (length p)) (invalid_argument "too many fields in IPv6 address")
  ok (take z p ++ (zeros (dstlen - length p) ++ drop z p))

-- The third loop.
unfoldable pub read_length : List ℕ → Fields → Result Fields
unfolding add_decimal_digit
read_length [] st = ok st
read_length (c ∷ rest) st =
    (if is_digit c
      then add_decimal_digit 128 "prefix value with leading zero in IPv6 netblock"
          "prefix length too large in IPv6 netblock" c st
      else err (invalid_argument "invalid character in prefix length"))
    >>= λ next. read_length rest (next_char next)

-- What follows the address: nothing, or a slash and the prefix length.
unfoldable pub read_suffix : List ℕ → List ℕ → Fields → Result Inet6Netblock
read_suffix full [] st = ok (record { prefix = full; prefix_length = 128 })
read_suffix full (c ∷ rest) st =
    if c == slash
    then (do
      last ← read_length rest (next_char st)
      throw_if (last.digits == 0) (invalid_argument "missing prefix length in IPv6 netblock")
      ok (record { prefix = full; prefix_length = last.acc }))
    else err (invalid_argument "invalid character in IPv6 netblock")

unfoldable pub inet6_netblock : List ℕ → Result Inet6Netblock
unfolding next_is
inet6_netblock s = do
  st ← read_hex s (record { srcidx = 0; prefix = []; zidx = none; digits = 0; acc = 0 })
  last ← if next_is full_stop (drop st.srcidx s) then dotted_end s st else plain_end st
  full ← decompress last.zidx last.prefix
  read_suffix full (drop last.srcidx s) last
