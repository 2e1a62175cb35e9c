-- ===== src/Netblock/Inet4.antt =====
-- The constructor of horace/inet4_netblock.cc. A char is an octet; `_prefix` is the list of the
-- octets that have been written so far, which are `dstidx` many, so that a write at an index of 4
-- or more would make the list longer than the array.
pub mod Numerals
pub mod Exact
pub mod Complete
use libholmes_horace.Common.{
  ℕ, ◌+◌, ◌-◌, ◌*◌, String, not, ◌&&◌, List, [], ◌∷◌, ◌++◌, ltb, leb, ◌==◌, if◌then◌else◌, length,
  throw_if, ◌>>=◌, ◌>>◌, invalid_argument, Result, err, ok,
}
use libholmes_horace.Common.Decimal.{is_digit}

pub record Inet4Netblock : Type 0 where
  pub prefix : List ℕ
  pub prefix_length : ℕ

-- The variables of the loops.
pub record Cursor : Type 0 where
  pub prefix : List ℕ
  pub digits : ℕ
  pub acc : ℕ

abbrev pub full_stop : ℕ
full_stop = 0x2e

abbrev pub slash : ℕ
slash = 0x2f

-- `_prefix[dstidx] = acc; dstidx += 1; acc = 0; digits = 0;`, after its checks.
unfoldable pub end_field : Cursor → Result Cursor
end_field st = do
  throw_if (st.digits == 0) (invalid_argument "invalid empty field in IPv4 address")
  throw_if (leb 4 (length st.prefix)) (invalid_argument "too many fields in IPv4 address")
  ok (record { prefix = st.prefix ++ (st.acc ∷ []); digits = 0; acc = 0 })

unfoldable pub add_digit : ℕ → String → String → ℕ → Cursor → Result Cursor
add_digit limit zero_message large_message c st = do
  throw_if (not (st.digits == 0) && st.acc == 0) (invalid_argument zero_message)
  throw_if (ltb limit (st.acc * 10 + (c - 48))) (invalid_argument large_message)
  ok (record { prefix = st.prefix; digits = st.digits + 1; acc = st.acc * 10 + (c - 48) })

-- One character of the address, other than a slash.
unfoldable pub address_step : ℕ → Cursor → Result Cursor
unfolding end_field add_digit
address_step c st =
    if c == full_stop
    then end_field st
    else if is_digit c
    then add_digit 255 "leading zero in IPv4 address" "value too large in IPv4 address" c st
    else err (invalid_argument "invalid character in IPv4 netblock")

-- The first loop, which a slash ends. The slash cannot be taken for a character of the address.
unfoldable pub read_address : List ℕ → Cursor → Result (Cursor × List ℕ)
unfolding address_step
read_address [] st = ok (st, [])
read_address (c ∷ s) st =
    if c == slash then ok (st, c ∷ s) else address_step c st >>= λ next. read_address s next

-- One character of the prefix length.
unfoldable pub length_step : ℕ → Cursor → Result Cursor
unfolding add_digit
length_step c st =
    if is_digit c
    then add_digit 32 "prefix length with leading zero in IPv4 netblock"
        "prefix length too large in IPv4 netblock" c st
    else err (invalid_argument "invalid character in IPv4 netblock")

-- The second loop.
unfoldable pub read_length : List ℕ → Cursor → Result Cursor
unfolding length_step
read_length [] st = ok st
read_length (c ∷ s) st = length_step c st >>= λ next. read_length s next

-- `_prefix_length = acc`, after the second loop.
unfoldable pub end_length : Cursor → Result Inet4Netblock
end_length st = do
  throw_if (st.digits == 0) (invalid_argument "missing prefix length in IPv4 netblock")
  ok (record { prefix = st.prefix; prefix_length = st.acc })

-- What follows the address: nothing, or a slash and the prefix length.
unfoldable pub read_suffix : List ℕ → Cursor → Result Inet4Netblock
unfolding end_length
read_suffix [] st = ok (record { prefix = st.prefix; prefix_length = 32 })
read_suffix (c ∷ s) st =
    if c == slash
    then read_length s st >>= end_length
    else err (invalid_argument "invalid character in IPv4 netblock")

unfoldable pub inet4_netblock : List ℕ → Result Inet4Netblock
inet4_netblock s = do
  (st, rest) ← read_address s (record { prefix = []; digits = 0; acc = 0 })
  full ← end_field st
  throw_if (ltb (length full.prefix) 4) (invalid_argument "too few fields in IPv4 address")
  read_suffix rest full
