-- ===== src/Wire/Input.antt =====
-- The buffer of horace/octet_reader.{h,cc}. `buffered` holds the octets from `_ptr` to `_end`, `size`
-- is `_limit - _buffer`, and `source` has the octets that `_read_direct` has still to deliver. How
-- many of them a call delivers is a parameter. A state is left also where an operation throws.
pub mod Contents
pub mod Refines
use libholmes_horace.Common.{
  ℕ, zero, suc, ◌+◌, ◌-◌, ◌*◌, ◌%◌, ◌^◌, min, not, List, [], ◌∷◌, ◌++◌, leb, ◌==◌, if◌then◌else◌,
  length, take, drop, eof_error, undefined_behaviour, out_of_fuel, Result, err, ok,
}

pub record OctetReader : Type 0 where
  pub size : ℕ
  pub buffered : List ℕ
  pub source : List ℕ

-- The octets that are still to come.
abbrev pub contents : OctetReader → List ℕ
contents r = r.buffered ++ r.source

-- One round of the loop in `_read`: `left` octets are still to be read.
pub data Round : Type 0 where
  finished out_of_octets : Round
  more : (left : ℕ) (got : List ℕ) (r : OctetReader) → Round

-- `*_ptr++`
unfoldable pub take_char : OctetReader → List ℕ → OctetReader × Result ℕ
take_char r [] = (r, err undefined_behaviour)
take_char r (c ∷ s) = (record r { buffered = s }, ok c)

unfoldable pub after_refill : OctetReader × Result (Unit {0}) → OctetReader × Result ℕ
unfolding take_char
after_refill (r, err e) = (r, err e)
after_refill (r, ok _) = take_char r r.buffered

unfoldable pub follow :
    Round
    → List ℕ
    → OctetReader
    → (ℕ → List ℕ → OctetReader → OctetReader × Result (List ℕ))
    → OctetReader × Result (List ℕ)
follow finished got r next = (r, ok got)
follow out_of_octets got r next = (r, err eof_error)
follow (more left got' r') got r next = next left got' r'

module _ (chunk : List ℕ → ℕ → ℕ) where
  -- `_refill`
  unfoldable pub refill : OctetReader → OctetReader × Result (Unit {0})
  refill r =
      let k = chunk r.source r.size in
      if k == 0
      then (r, err eof_error)
      else (record r { buffered = take k r.source; source = drop k r.source }, ok tt)

  -- `read()`
  unfoldable pub read : OctetReader → OctetReader × Result ℕ
  unfolding refill after_refill take_char
  read r = if length r.buffered == 0 then after_refill (refill r) else take_char r r.buffered

  unfoldable pub round : ℕ → List ℕ → OctetReader → Round
  round left got r =
      if left == 0
      then finished
      else if not (length r.buffered == 0)
      then (let k = min (length r.buffered) left in
          more (left - k) (got ++ take k r.buffered) (record r { buffered = drop k r.buffered }))
      else if leb r.size (left * 2 % 2 ^ 64)
      then (let k = chunk r.source left in
          if k == 0
          then out_of_octets
          else more (left - k) (got ++ take k r.source) (record r { source = drop k r.source }))
      else (let k = chunk r.source r.size in
          if k == 0
          then out_of_octets
          else more left got (record r { buffered = take k r.source; source = drop k r.source }))

  -- The loop in `_read`.
  unfoldable pub read_loop : ℕ → ℕ → List ℕ → OctetReader → OctetReader × Result (List ℕ)
  unfolding round follow
  read_loop zero left got r = (r, err out_of_fuel)
  read_loop (suc fuel) left got r = follow (round left got r) got r (read_loop fuel)

  -- `read(buf, nbyte)`. Two rounds are enough for each octet, and one more.
  unfoldable pub read_octets : ℕ → OctetReader → OctetReader × Result (List ℕ)
  unfolding read_loop
  read_octets n r =
      if leb n (length r.buffered)
      then (record r { buffered = drop n r.buffered }, ok (take n r.buffered))
      else read_loop (2 * n + 2) n [] r
