-- ===== src/SourceId.antt =====
-- horace/source_id.{h,cc}: source identifiers, checked when they are made. A char is an octet, and
-- `isalnum` is that of the C locale.
pub mod Accepted
use libholmes_horace.Common.{
  ℕ, Bool, false, not, ◌&&◌, ◌||◌, List, [], ◌∷◌, ltb, leb, ◌==◌, length, throw_if, ◌>>◌,
  horace_error, Result, ok,
}

-- A source identifier holds its text.
pub record SourceId : Type 0 where
  pub id : List ℕ

abbrev pub dash : ℕ
dash = 0x2d

abbrev pub full_stop : ℕ
full_stop = 0x2e

unfoldable pub between : ℕ → ℕ → ℕ → Bool
between low high c = leb low c && leb c high

unfoldable pub isalnum : ℕ → Bool
unfolding between
isalnum c = between 0x30 0x39 c || (between 0x41 0x5a c || between 0x61 0x7a c)

-- The loop over the characters.
unfoldable pub check_characters : List ℕ → Result (Unit {0})
unfolding isalnum
check_characters [] = ok tt
check_characters (c ∷ s) = do
  throw_if (not (isalnum c) && (not (c == dash) && not (c == full_stop)))
      (horace_error "invalid protocol ID (invalid character)")
  check_characters s

-- `_id[0] == '.'`, of a text that is not empty.
unfoldable pub starts_with : ℕ → List ℕ → Bool
starts_with c [] = false
starts_with c (b ∷ s) = b == c

unfoldable pub source_id : List ℕ → Result SourceId
unfolding check_characters starts_with
source_id id = do
  throw_if (length id == 0) (horace_error "invalid protocol ID (empty string)")
  throw_if (ltb 255 (length id)) (horace_error "invalid protocol ID (too long)")
  check_characters id
  throw_if (starts_with full_stop id) (horace_error "invalid protocol ID (initial full stop)")
  ok (record { id = id })
