-- ===== src/FileStore/Scanner/Listing.antt =====
-- What the scanner of horace+file has found: the names in the directory are those of the numbers, at
-- the width that is found.
use libholmes_horace.FileStore.Spoolfile.{
  add_char, char_loop, from_filename, digits, zeros, field_width, padded, from_filenum,
  starts_with_zero, Spoolfile,
}
use libholmes_horace.FileStore.Spoolfile.Canonical.{added, canonical, from_filename_parts}
use libholmes_horace.FileStore.Spoolfile.Names.{field_width_lem, from_filename-from_filenum}
use libholmes_horace.FileStore.Scanner.{
  uint_max, is_hidden, scan_loop, start, settled, filestore_scanner, Scan,
}
use libholmes_horace.FileStore.Scanner.Seen.{Fits, scan_loop-Seen, Seen, hidden, counted}
use libholmes_horace.Common.{
  ℕ, zero, suc, ◌+◌, ◌-◌, ◌^◌, ◌≤◌, ◌<◌, ◌≡◌, refl, sym, ap, ◌∙◌, ◌≢◌, inl, inr, Bool, true, false,
  List, [], ◌∷◌, ◌++◌, arith, ◌==◌, if◌then◌else◌, Bool-cases, test→eq, length, All, length-append,
  bind-eq-ok, ok,
}

-- A name that is passed over, or that the numbers and the width account for.
pub data Listed (r : Scan) (name : List ℕ) : Type 0 where
  passed_over : is_hidden name ≡ true → Listed r name
  number :
      (n : ℕ)
      → r.first_filenum ≤ n
      → n < r.next_filenum
      → name ≡ (from_filenum n r.minwidth).filename
      → Listed r name

pub length-zeros : (k : ℕ) → length (zeros k) ≡ k
unfolding zeros
length-zeros zero = refl
length-zeros (suc k) = ap suc (length-zeros k)

-- A name that goes with the width is that of its number.
named :
    (name : List ℕ) (n minwidth : ℕ) (fixed : Bool)
    → 1 ≤ length name
    → char_loop 0 name ≡ ok n
    → Fits minwidth fixed name
    → length name < 2 ^ 31
    → name ≡ padded minwidth (digits n)
unfolding padded
named name n minwidth fixed some_there read (wide, exact) short =
    let field = field_width_lem minwidth (omega (arith, wide, short)) in
    let (k, same, unpadded) = canonical name n some_there read in
    let total : length name ≡ k + length (digits n) =
      ap length same
      ∙ length-append (zeros k) (digits n)
      ∙ ap (λ x. x + length (digits n)) (length-zeros k) in
    elim (Bool-cases (starts_with_zero name)) [
      | inl z ↦
          let (_, width) = exact z in
          let room : k ≡ field_width minwidth - length (digits n) =
            omega (arith, total, width, field) in
          same ∙ ap (λ x. zeros x ++ digits n) room
      | inr z ↦
          let no_zeros = unpadded z in
          let room : k ≡ field_width minwidth - length (digits n) =
            omega (arith, total, no_zeros, wide, field) in
          same ∙ ap (λ x. zeros x ++ digits n) room
    ]

refused : (name : List ℕ) {sf : Spoolfile} → is_hidden name ≡ true → from_filename name ≢ ok sf
unfolding is_hidden char_loop
refused [] h e = let (some_there, _, _, _) = from_filename_parts [] _ e in omega (arith, some_there)
refused (c ∷ s) h e =
    let (_, digits_read, _, _) = from_filename_parts (c ∷ s) _ e in
    let (n, taken, _) = bind-eq-ok (add_char 0 c) _ digits_read in
    let (digit, _, _, _) = added 0 c n taken in omega (arith, digit, test→eq c 0x2e h)

settled-Listed :
    (st : Scan) (name : List ℕ) → length name < 2 ^ 31 → Seen st name → Listed (settled st) name
unfolding settled from_filenum
settled-Listed st name short (hidden h) = passed_over h
settled-Listed st name short (counted n read low high fits) =
    let (some_there, digits_read, _, _) = from_filename_parts name _ read in
    let narrow : (st.minwidth == uint_max) ≡ false = ground (arith, fits.0, short) in
    let kept : (if st.minwidth == uint_max then 0 else st.minwidth) ≡ st.minwidth =
      rw (narrow) refl in
    number n (ground (arith, low)) high (
      named name n st.minwidth st.minwidth_fixed some_there digits_read fits short
      ∙ ap (λ w. padded w (digits n)) (sym kept))

-- No name is that of the next number, at any width.
unused :
    (st : Scan) (name : List ℕ) (minwidth : ℕ)
    → st.next_filenum < 2 ^ 64
    → Seen st name
    → name ≢ (from_filenum st.next_filenum minwidth).filename
unfolding from_filenum
unused st name minwidth small (hidden h) e =
    refused (from_filenum st.next_filenum minwidth).filename (rw (e) at h)
      (from_filename-from_filenum st.next_filenum minwidth small)
unused st name minwidth small (counted n read low high fits) e =
    let own = from_filename-from_filenum st.next_filenum minwidth small in
    let twice : ok (from_filenum st.next_filenum minwidth)
        ≡ ok (record { filename = name; filenum = n }) =
      sym own ∙ ap from_filename (sym e) ∙ read in
    let same : st.next_filenum ≡ n = cc in omega (arith, same, high)

all_Listed :
    (st : Scan) (names : List (List ℕ))
    → All (λ name. length name < 2 ^ 31) names
    → All (Seen st) names
    → All (Listed (settled st)) names
all_Listed st [] h k = tt
all_Listed st (name ∷ names) h k = (settled-Listed st name h.0 k.0, all_Listed st names h.1 k.1)

all_unused :
    (st : Scan) (names : List (List ℕ)) (minwidth : ℕ)
    → st.next_filenum < 2 ^ 64
    → All (Seen st) names
    → All (λ name. name ≢ (from_filenum st.next_filenum minwidth).filename) names
all_unused st [] minwidth small k = tt
all_unused st (name ∷ names) minwidth small k =
    (unused st name minwidth small k.0, all_unused st names minwidth small k.1)

-- Where a directory whose names are shorter than 2 ^ 31 is scanned without an exception, each name
-- that is not passed over is the one that is made, at the width found, for a number from the first
-- to below the next, which fits 64 bits; and the name made for the next number, at any width, is not
-- in the directory.
pub filestore_scanner-Listed :
    (names : List (List ℕ)) (r : Scan)
    → All (λ name. length name < 2 ^ 31) names
    → filestore_scanner names ≡ ok r
    → (r.next_filenum < 2 ^ 64)
      × All (Listed r) names
      × ((minwidth : ℕ)
          → All (λ name. name ≢ (from_filenum r.next_filenum minwidth).filename) names)
unfolding filestore_scanner settled
filestore_scanner-Listed names r short e =
    let (st, scanned, last) = bind-eq-ok (scan_loop start names) _ e in
    let (_, small, seen) = scan_loop-Seen start st names (omega arith, omega arith) scanned in
    let same : settled st ≡ r = cc in
    rw (sym same) (
      small.0,
      all_Listed st names short seen,
      λ minwidth. all_unused st names minwidth small.0 seen,
    )
