-- ===== src/Wire/Output.antt =====
-- The buffer of horace/octet_writer.{h,cc}. `_write_direct` belongs to a subclass: it is a parameter
-- that takes the blocks written before, and the new one, of which it may write a part and then throw.
-- An operation leaves a state also where it throws.
pub mod Contents
use libholmes_horace.Common.{
  ℕ, ◌-◌, ◌*◌, ◌%◌, ◌^◌, List, [], ◌∷◌, ◌++◌, leb, ◌==◌, if◌then◌else◌, length, take, Error,
  undefined_behaviour, Result, err, ok,
}

-- The size of the buffer, what it holds, and the blocks written directly.
pub record OctetWriter : Type 0 where
  pub capacity : ℕ
  pub buffer : List ℕ
  pub blocks : List (List ℕ)

-- The state that an operation leaves, and how it ends.
abbrev pub Ending : Type 0
Ending = OctetWriter × Result (Unit {0})

-- The rest of an operation runs if the first part did not throw.
unfoldable pub proceed : Ending → (OctetWriter → Ending) → Ending
proceed (w, err e) k = (w, err e)
proceed (w, ok u) k = k w

-- `memcpy(_ptr, buf, nbyte); _ptr += nbyte;`
unfoldable pub append_octets : OctetWriter → List ℕ → OctetWriter
append_octets w octets = record w { buffer = w.buffer ++ octets }

-- How a direct write ends: all is written, or an exception is thrown when this many octets are.
pub data Direct : Type 0 where
  whole : Direct
  partial : ℕ → Error → Direct

-- What a direct write leaves behind.
unfoldable pub store : OctetWriter → List ℕ → Direct → Ending
store w octets (partial count e) =
    (record w { blocks = w.blocks ++ (take count octets ∷ []) }, err e)
store w octets whole = (record w { blocks = w.blocks ++ (octets ∷ []) }, ok tt)

module _ (write_direct : List (List ℕ) → List ℕ → Direct) where
  unfoldable pub send : OctetWriter → List ℕ → Ending
  unfolding store
  send w octets = store w octets (write_direct w.blocks octets)

  -- `_ptr = _buffer` comes after the direct write.
  unfoldable pub flush : OctetWriter → Ending
  unfolding send proceed
  flush w =
      if length w.buffer == 0
      then (w, ok tt)
      else (proceed (send w w.buffer) λ w'. (record w' { buffer = [] }, ok tt))

  -- `write(char)`: without a buffer there is no octet to write to.
  unfoldable pub write_octet : OctetWriter → ℕ → Ending
  unfolding proceed flush append_octets
  write_octet w value =
      proceed (if length w.buffer == w.capacity then flush w else (w, ok tt)) λ w'.
        if length w'.buffer == w'.capacity
        then (w', err undefined_behaviour)
        else (append_octets w' (value ∷ []), ok tt)

  -- `write(buf, nbyte)`, and `_write`, which does the same first.
  unfoldable pub write_octets : OctetWriter → List ℕ → Ending
  unfolding proceed flush send append_octets
  write_octets w octets =
      if leb (length octets) (w.capacity - length w.buffer)
      then (append_octets w octets, ok tt)
      else (proceed (flush w) λ w'.
          if leb (w'.capacity - length w'.buffer) (length octets * 2 % 2 ^ 64)
          then send w' octets
          else (append_octets w' octets, ok tt))
