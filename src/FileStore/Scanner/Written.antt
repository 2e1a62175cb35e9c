-- ===== src/FileStore/Scanner/Written.antt =====
-- A directory of names that horace+file makes at one width is scanned without an exception.
use libholmes_horace.FileStore.Spoolfile.{
  ulong_max, from_filename, digits_loop, digits, zeros, padded, from_filenum, starts_with_zero,
  Spoolfile,
}
use libholmes_horace.FileStore.Scanner.{
  uint_max, is_hidden, check_width, count_spoolfile, scan_name, scan_loop, start, settled,
  filestore_scanner, Scan,
}
use libholmes_horace.Common.{
  ℕ, zero, suc, ◌+◌, ◌-◌, ◌/◌, ◌%◌, ◌^◌, ◌≤◌, ◌<◌, ◌≡◌, refl, sym, ap, ◌∙◌, inl, inr, Bool, true,
  false, List, [], ◌∷◌, ◌++◌, arith, ltb, leb, ◌==◌, if◌then◌else◌, Bool-cases, test→eq, if-cases,
  length, All, length-append, ok,
}
use libholmes_horace.FileStore.Spoolfile.Names.{field_width_lem, from_filename-from_filenum}
use libholmes_horace.FileStore.Scanner.Listing.{length-zeros}

-- A name that is passed over, or one that is made at the width.
pub data Made (width : ℕ) (name : List ℕ) : Type 0 where
  other : is_hidden name ≡ true → Made width name
  spoolfile : (n : ℕ) → n < 2 ^ 64 - 1 → name ≡ (from_filenum n width).filename → Made width name

no_zero_first :
    (fuel n : ℕ) (s : List ℕ)
    → 1 ≤ n
    → n < 10 ^ fuel
    → starts_with_zero (digits_loop fuel n s) ≡ false
unfolding digits_loop starts_with_zero
no_zero_first zero n s some_there low = absurd (omega (arith, some_there, low))
no_zero_first (suc fuel) n s some_there low = elim (Bool-cases (ltb n 10)) [
  | inl t ↦ let same : n % 10 ≡ n = ground (arith, t) in rw (t, same) (ground (arith, some_there))
  | inr t ↦ rw (t) (no_zero_first fuel (n / 10) _ (ground (arith, t)) (omega (arith, low)))
]

bool_apart : {b : Bool} → b ≡ true → b ≡ false → ⊥
bool_apart h k = (let no : true ≡ false = sym h ∙ k in cc)

few_digits : (fuel n : ℕ) (s : List ℕ) → length (digits_loop fuel n s) ≤ fuel + length s
unfolding digits_loop
few_digits zero n s = omega arith
few_digits (suc fuel) n s =
    if-cases (λ t. length t ≤ suc fuel + length s) (ltb n 10) ((48 + n % 10) ∷ s) _
      (λ t. omega arith) (λ t. omega (arith, few_digits fuel (n / 10) ((48 + n % 10) ∷ s)))

length-digits_le : (n : ℕ) → length (digits n) ≤ 20
unfolding digits
length-digits_le n = few_digits 20 n []

zero_alone : (n : ℕ) → n < 2 ^ 64 → starts_with_zero (digits n) ≡ true → length (digits n) ≡ 1
unfolding digits
zero_alone n low z = elim (Bool-cases (n == 0)) [
  | inl e ↦ ap (λ m. length (digits m)) (test→eq n 0 e)
  | inr e ↦
      let no = no_zero_first 20 n [] (ground (arith, e)) (omega (arith, low)) in
      absurd (bool_apart z no)
]

ltb_le : {a b : ℕ} → ltb a b ≡ false → b ≤ a
ltb_le t = ground (arith, t)

padded-zeros :
    (width : ℕ) (s : List ℕ) → width < 2 ^ 31 → padded width s ≡ zeros (width - length s) ++ s
unfolding padded
padded-zeros width s small = ap (λ w. zeros (w - length s) ++ s) (field_width_lem width small)

exact_width :
    (n width : ℕ)
    → 1 ≤ width
    → width < 2 ^ 31
    → n < 2 ^ 64
    → ltb (length (digits n)) width ≡ false
    → starts_with_zero (padded width (digits n)) ≡ true
    → length (digits n) ≡ width
unfolding zeros
exact_width n width some_width small low t z =
    let wide : width ≤ length (digits n) = ltb_le t in
    let no_zeros : width - length (digits n) ≡ 0 = omega (arith, wide) in
    let digits_first : starts_with_zero (digits n) ≡ true =
      ap (λ k. starts_with_zero (zeros k ++ digits n)) (sym no_zeros)
      ∙ ap starts_with_zero (sym (padded-zeros width (digits n) small))
      ∙ z in
    let one = zero_alone n low digits_first in omega (arith, one, wide, some_width)

-- A name has the width at least, and just that if it starts with a zero.
length-padded :
    (n width : ℕ)
    → 1 ≤ width
    → width < 2 ^ 31
    → n < 2 ^ 64
    → (width ≤ length (padded width (digits n)))
      × (length (padded width (digits n)) ≤ width + 20)
      × (starts_with_zero (padded width (digits n)) ≡ true
          → length (padded width (digits n)) ≡ width)
length-padded n width some_width small low =
    let len : ℕ = length (digits n) in
    let total : length (padded width (digits n)) ≡ width - len + len =
      ap length (padded-zeros width (digits n) small)
      ∙ length-append (zeros (width - len)) (digits n)
      ∙ ap (λ x. x + len) (length-zeros (width - len)) in
    (
      omega (arith, total),
      omega (arith, total, length-digits_le n),
      elim (Bool-cases (ltb len width)) [
        | inl t ↦ λ z. (let room : len < width = ground (arith, t) in omega (arith, total, room))
        | inr t ↦ λ z.
            (let same = exact_width n width some_width small low t z in omega (arith, total, same))
      ],
    )

-- The width goes with the state.
abbrev Goes : ℕ → Bool → ℕ → Type 0
Goes width fixed minwidth = (width ≤ minwidth) × (fixed ≡ true → minwidth ≡ width)

width_passes :
    (width : ℕ) (fixed : Bool) (minwidth : ℕ) (sf : Spoolfile)
    → width < uint_max
    → Goes width fixed minwidth
    → width ≤ length sf.filename
    → length sf.filename < 2 ^ 32
    → (starts_with_zero sf.filename ≡ true → length sf.filename ≡ width)
    → (kept : ℕ × Bool) × (check_width fixed minwidth sf ≡ ok kept) × Goes width kept.1 kept.0
unfolding check_width
width_passes width false minwidth sf small goes wide short exact =
    elim (Bool-cases (starts_with_zero sf.filename)) [
      | inl z ↦
          let same = exact z in
          let fits : ltb minwidth (length sf.filename) ≡ false = ground (arith, same, goes.0) in
          (
            (length sf.filename % 2 ^ 32, true),
            rw (z, fits) refl,
            (omega (arith, same, small), λ _. omega (arith, same, small)),
          )
      | inr z ↦ (
        (
          if ltb (length sf.filename) minwidth then length sf.filename % 2 ^ 32 else minwidth,
          false,
        ),
        rw (z) refl,
        (ground (arith, wide, short, goes.0), λ no. cc),
      )
    ]
width_passes width true minwidth sf small goes wide short exact =
    let same = goes.1 refl in
    elim (Bool-cases (starts_with_zero sf.filename)) [
      | inl z ↦
          let just : (length sf.filename == minwidth) ≡ true = ground (arith, same, exact z) in
          ((minwidth, true), rw (z, just) refl, goes)
      | inr z ↦
          let fits : ltb (length sf.filename) minwidth ≡ false = ground (arith, same, wide) in
          ((minwidth, true), rw (z, fits) refl, goes)
    ]

count_spoolfile_passes :
    (width : ℕ) (st : Scan) (n : ℕ)
    → 1 ≤ width
    → width < 2 ^ 31
    → n < 2 ^ 64 - 1
    → Goes width st.minwidth_fixed st.minwidth
    → (st' : Scan) × (count_spoolfile st (from_filenum n width) ≡ ok st')
      × Goes width st'.minwidth_fixed st'.minwidth
unfolding count_spoolfile from_filenum
count_spoolfile_passes width st n some_width small low goes =
    let (wide, short, exact) = length-padded n width some_width small (omega (arith, low)) in
    let (kept, passes, goes') =
      width_passes width st.minwidth_fixed st.minwidth (from_filenum n width) (omega (arith, small))
        goes wide (omega (arith, short, small)) exact in
    let below : (n == ulong_max) ≡ false = ground (arith, low) in
    (
      record {
        first_filenum = if ltb n st.first_filenum then n else st.first_filenum;
        next_filenum = if leb st.next_filenum n then n + 1 else st.next_filenum;
        minwidth = kept.0;
        minwidth_fixed = kept.1;
      },
      rw (below, passes) refl,
      goes',
    )

scan_loop_passes :
    (width : ℕ) (st : Scan) (names : List (List ℕ))
    → 1 ≤ width
    → width < 2 ^ 31
    → All (Made width) names
    → Goes width st.minwidth_fixed st.minwidth
    → (st' : Scan) × (scan_loop st names ≡ ok st')
unfolding scan_loop scan_name
scan_loop_passes width st [] some_width small h goes = (st, refl)
scan_loop_passes width st (name ∷ names) some_width small (other t, h) goes =
    let (st', rest) = scan_loop_passes width st names some_width small h goes in (st', rw (t) rest)
scan_loop_passes width st (name ∷ names) some_width small (spoolfile n low e, h) goes =
    elim (Bool-cases (is_hidden name)) [
      | inl t ↦
          let (st', rest) = scan_loop_passes width st names some_width small h goes in
          (st', rw (t) rest)
      | inr t ↦
          let (mid, passes, goes') = count_spoolfile_passes width st n some_width small low goes in
          let (st', rest) = scan_loop_passes width mid names some_width small h goes' in
          let read : from_filename name ≡ ok (from_filenum n width) =
            ap from_filename e ∙ from_filename-from_filenum n width (omega (arith, low)) in
          (st', rw (t, read, passes) rest)
    ]

-- A directory that holds names made at one width, from 1 to 2 ^ 31 - 1, for numbers below 2 ^ 64 - 1,
-- in any order and among hidden names, is scanned without an exception.
pub filestore_scanner-Made :
    (width : ℕ) (names : List (List ℕ))
    → 1 ≤ width
    → width < 2 ^ 31
    → All (Made width) names
    → (r : Scan) × (filestore_scanner names ≡ ok r)
unfolding filestore_scanner
filestore_scanner-Made width names some_width small h =
    let (st, scanned) =
      scan_loop_passes width start names some_width small h (omega (arith, small), λ no. cc) in
    (settled st, rw (scanned) refl)
