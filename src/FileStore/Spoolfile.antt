-- ===== src/FileStore/Spoolfile.antt =====
-- endpoints/horace+file/spoolfile.{h,cc}: the names of spoolfiles, which are decimal numbers. An
-- unsigned long has 64 bits.
pub mod Names
pub mod Canonical
use libholmes_horace.Common.Decimal.{is_digit}
use libholmes_horace.Common.{
  ℕ, zero, suc, ◌+◌, ◌-◌, ◌*◌, ◌/◌, ◌%◌, ◌^◌, Bool, false, not, List, [], ◌∷◌, ◌++◌, ltb, ◌==◌,
  if◌then◌else◌, length, throw_if, ◌>>=◌, ◌>>◌, out_of_range, invalid_argument, Result, ok,
}

abbrev pub ulong_max : ℕ
ulong_max = 2 ^ 64 - 1

pub record Spoolfile : Type 0 where
  pub filename : List ℕ
  pub filenum : ℕ

-- A round of the loop of the constructor from a filename.
unfoldable pub add_char : ℕ → ℕ → Result ℕ
add_char filenum c = do
  throw_if (not (is_digit c)) (invalid_argument "invalid spoolfile name")
  throw_if (ltb (ulong_max / 10) filenum) out_of_range
  throw_if (ltb (ulong_max - (c - 48)) (filenum * 10)) out_of_range
  ok (filenum * 10 + (c - 48))

unfoldable pub char_loop : ℕ → List ℕ → Result ℕ
unfolding add_char
char_loop filenum [] = ok filenum
char_loop filenum (c ∷ s) = add_char filenum c >>= λ n. char_loop n s

-- The constructor from a filename.
unfoldable pub from_filename : List ℕ → Result Spoolfile
unfolding char_loop
from_filename filename = do
  throw_if (length filename == 0) (invalid_argument "invalid spoolfile name")
  filenum ← char_loop 0 filename
  ok (record { filename = filename; filenum = filenum })

-- The decimal digits of a number that the stream writes, in front of others.
unfoldable pub digits_loop : ℕ → ℕ → List ℕ → List ℕ
digits_loop zero n others = others
digits_loop (suc fuel) n others =
    let s = (48 + n % 10) ∷ others in
    let more = digits_loop fuel (n / 10) s in if ltb n 10 then s else more

-- Twenty digits are enough for an unsigned long.
unfoldable pub digits : ℕ → List ℕ
unfolding digits_loop
digits n = digits_loop 20 n []

unfoldable pub zeros : ℕ → List ℕ
zeros zero = []
zeros (suc n) = 48 ∷ zeros n

-- `setw(minwidth)`: the unsigned number becomes an int, and where this is negative nothing is padded.
unfoldable pub field_width : ℕ → ℕ
field_width minwidth = if ltb minwidth (2 ^ 31) then minwidth else 0

-- `setfill('0')` and `setw(minwidth)`
unfoldable pub padded : ℕ → List ℕ → List ℕ
unfolding zeros field_width
padded minwidth s = zeros (field_width minwidth - length s) ++ s

-- The constructor from a number.
unfoldable pub from_filenum : ℕ → ℕ → Spoolfile
unfolding digits padded
from_filenum filenum minwidth = record {
  filename = padded minwidth (digits filenum);
  filenum = filenum;
}

-- `has_padding()`
unfoldable pub starts_with_zero : List ℕ → Bool
starts_with_zero [] = false
starts_with_zero (c ∷ s) = c == 48

abbrev pub has_padding : Spoolfile → Bool
has_padding sf = starts_with_zero sf.filename
