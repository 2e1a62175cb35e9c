-- ===== src/Wire/Octets.antt =====
-- The plain reads of horace/octet_reader.{h,cc}, over the octets that are still to come.
use libholmes_horace.Common.{
  ℕ, List, [], ◌∷◌, leb, if◌then◌else◌, length, take, drop, eof_error, Result, ok, err,
}

-- An operation on the stream: it returns a value and leaves the octets that follow.
abbrev pub Reader {ℓ} : Type ℓ → Type ℓ
Reader A = List ℕ → Result (A × List ℕ)

-- `read()`: one octet.
unfoldable pub read : Reader ℕ
read [] = err eof_error
read (b ∷ s) = ok (b, s)

-- `read(buf, nbyte)`: exactly `nbyte` octets.
unfoldable pub read_octets : ℕ → Reader (List ℕ)
read_octets n s = if leb n (length s) then ok (take n s, drop n s) else err eof_error
