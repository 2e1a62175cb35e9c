-- ===== src/FileStore/Scanner.antt =====
-- endpoints/horace+file/filestore_scanner.{h,cc}: the numbers and the width of the names in a
-- directory. What the directory holds is an argument; an unsigned int has 32 bits.
pub mod Seen
pub mod Listing
pub mod Written
use libholmes_horace.FileStore.Spoolfile.{ulong_max, from_filename, has_padding, Spoolfile}
use libholmes_horace.Common.{
  ℕ, ◌+◌, ◌-◌, ◌%◌, ◌^◌, Bool, true, false, not, List, [], ◌∷◌, ltb, leb, ◌==◌, if◌then◌else◌,
  length, throw_if, ◌>>=◌, ◌>>◌, Error, runtime_error, Result, ok,
}

abbrev pub uint_max : ℕ
uint_max = 2 ^ 32 - 1

pub record Scan : Type 0 where
  pub first_filenum : ℕ
  pub next_filenum : ℕ
  pub minwidth : ℕ
  pub minwidth_fixed : Bool

-- A name that is passed over.
unfoldable pub is_hidden : List ℕ → Bool
is_hidden [] = true
is_hidden (c ∷ s) = c == 0x2e

abbrev inconsistent : Error
inconsistent = runtime_error "inconsistent padding in filestore"

-- The width that is kept, and whether it is fixed.
unfoldable pub check_width : Bool → ℕ → Spoolfile → Result (ℕ × Bool)
check_width false minwidth sf =
    let width = length sf.filename in
    if has_padding sf
    then throw_if (ltb minwidth width) inconsistent >> ok (width % 2 ^ 32, true)
    else ok (if ltb width minwidth then width % 2 ^ 32 else minwidth, false)
check_width true minwidth sf =
    let width = length sf.filename in
    if has_padding sf
    then throw_if (not (width == minwidth)) inconsistent >> ok (minwidth, true)
    else throw_if (ltb width minwidth) inconsistent >> ok (minwidth, true)

unfoldable pub count_spoolfile : Scan → Spoolfile → Result Scan
unfolding check_width
count_spoolfile st sf = do
  throw_if (sf.filenum == ulong_max) (runtime_error "file number overflow")
  (minwidth, fixed) ← check_width st.minwidth_fixed st.minwidth sf
  ok (record {
    first_filenum = if ltb sf.filenum st.first_filenum then sf.filenum else st.first_filenum;
    next_filenum = if leb st.next_filenum sf.filenum then sf.filenum + 1 else st.next_filenum;
    minwidth = minwidth;
    minwidth_fixed = fixed;
  })

-- A round of the loop.
unfoldable pub scan_name : Scan → List ℕ → Result Scan
unfolding is_hidden count_spoolfile
scan_name st name =
    if is_hidden name then ok st else from_filename name >>= λ sf. count_spoolfile st sf

unfoldable pub scan_loop : Scan → List (List ℕ) → Result Scan
unfolding scan_name
scan_loop st [] = ok st
scan_loop st (name ∷ names) = scan_name st name >>= λ st'. scan_loop st' names

abbrev pub start : Scan
start = record {
  first_filenum = ulong_max;
  next_filenum = 0;
  minwidth = uint_max;
  minwidth_fixed = false;
}

-- The numbers as they are left at the end.
unfoldable pub settled : Scan → Scan
settled st = record st {
  first_filenum = if st.first_filenum == ulong_max then 0 else st.first_filenum;
  minwidth = if st.minwidth == uint_max then 0 else st.minwidth;
}

unfoldable pub filestore_scanner : List (List ℕ) → Result Scan
unfolding scan_loop settled
filestore_scanner names = scan_loop start names >>= λ st. ok (settled st)
