-- ===== src/FileStore/Scanner/Seen.antt =====
-- What the loop of the scanner of horace+file has seen so far.
use libholmes_horace.FileStore.Spoolfile.{
  ulong_max, from_filename, padded, starts_with_zero, Spoolfile,
}
use libholmes_horace.FileStore.Scanner.{
  is_hidden, check_width, count_spoolfile, scan_name, scan_loop, Scan,
}
use libholmes_horace.Common.{
  ℕ, ◌+◌, ◌-◌, ◌%◌, ◌^◌, ◌≤◌, ◌<◌, ◌≡◌, refl, sym, ap, ◌∙◌, inl, inr, Bool, true, false, List, [],
  ◌∷◌, arith, ltb, leb, ◌==◌, if◌then◌else◌, Bool-cases, test→eq, length, All, bind-eq-ok, ok,
}
use libholmes_horace.FileStore.Spoolfile.Canonical.{from_filename_parts}

-- A name whose width goes with the width that is kept.
abbrev pub Fits : ℕ → Bool → List ℕ → Type 0
Fits minwidth fixed name =
    (minwidth ≤ length name)
    × (starts_with_zero name ≡ true → (fixed ≡ true) × (length name ≡ minwidth))

-- A name that has been passed over, or counted.
pub data Seen (st : Scan) (name : List ℕ) : Type 0 where
  hidden : is_hidden name ≡ true → Seen st name
  counted :
      (n : ℕ)
      → from_filename name ≡ ok (record { filename = name; filenum = n })
      → st.first_filenum ≤ n
      → n < st.next_filenum
      → Fits st.minwidth st.minwidth_fixed name
      → Seen st name

-- A later state of the scan.
pub record Later (st st' : Scan) : Type 0 where
  first_le : st'.first_filenum ≤ st.first_filenum
  next_ge : st.next_filenum ≤ st'.next_filenum
  narrower : st'.minwidth ≤ st.minwidth
  still_fixed :
      st.minwidth_fixed ≡ true → (st'.minwidth_fixed ≡ true) × (st'.minwidth ≡ st.minwidth)

Seen-Later : (st st' : Scan) (name : List ℕ) → Later st st' → Seen st name → Seen st' name
Seen-Later st st' name l (hidden h) = hidden h
Seen-Later st st' name l (counted n e low high (wide, padded)) =
    counted n e (omega (arith, l.first_le, low)) (omega (arith, l.next_ge, high)) (
      omega (arith, l.narrower, wide),
      λ z.
          let (fixed, width) = padded z in
          let (fixed', same) = l.still_fixed fixed in (fixed', width ∙ sym same),
    )

-- The width after a name, from the width before.
width_kept :
    (fixed fixed' : Bool) (minwidth minwidth' : ℕ) (sf : Spoolfile)
    → minwidth < 2 ^ 32
    → check_width fixed minwidth sf ≡ ok (minwidth', fixed')
    → Fits minwidth' fixed' sf.filename
      × (minwidth' ≤ minwidth)
      × (fixed ≡ true → (fixed' ≡ true) × (minwidth' ≡ minwidth))
unfolding check_width
width_kept false fixed' minwidth minwidth' sf small e =
    let width = length sf.filename in
    elim (Bool-cases (starts_with_zero sf.filename)) [
      | inl z ↦ elim (Bool-cases (ltb minwidth width)) [
        | inl t ↦ (let h = rw (z, t) at e in cc)
        | inr t ↦
            let h = rw (z, t) at e in
            let kept : minwidth' ≡ width % 2 ^ 32 = cc in
            let fixed : fixed' ≡ true = cc in
            let whole : width ≡ minwidth' = ground (arith, t, small, kept) in
            ((omega (arith, whole), λ _. (fixed, whole)), ground (arith, whole, t), λ no. cc)
      ]
      | inr z ↦ elim (Bool-cases (ltb width minwidth)) [
        | inl t ↦
            let h = rw (z, t) at e in
            let kept : minwidth' ≡ width % 2 ^ 32 = cc in
            let whole : width ≡ minwidth' = ground (arith, t, small, kept) in
            ((omega (arith, whole), λ y. cc), ground (arith, whole, t), λ no. cc)
        | inr t ↦
            let h = rw (z, t) at e in
            let kept : minwidth' ≡ minwidth = cc in
            ((ground (arith, t, kept), λ y. cc), omega (arith, kept), λ no. cc)
      ]
    ]
width_kept true fixed' minwidth minwidth' sf small e =
    let width = length sf.filename in
    elim (Bool-cases (starts_with_zero sf.filename)) [
      | inl z ↦ elim (Bool-cases (width == minwidth)) [
        | inl t ↦
            let h = rw (z, t) at e in
            let kept : minwidth' ≡ minwidth = cc in
            let fixed : fixed' ≡ true = cc in
            let same : width ≡ minwidth' = test→eq width minwidth t ∙ sym kept in
            ((omega (arith, same), λ _. (fixed, same)), omega (arith, kept), λ _. (fixed, kept))
        | inr t ↦ (let h = rw (z, t) at e in cc)
      ]
      | inr z ↦ elim (Bool-cases (ltb width minwidth)) [
        | inl t ↦ (let h = rw (z, t) at e in cc)
        | inr t ↦
            let h = rw (z, t) at e in
            let kept : minwidth' ≡ minwidth = cc in
            let fixed : fixed' ≡ true = cc in
            ((ground (arith, t, kept), λ y. cc), omega (arith, kept), λ _. (fixed, kept))
      ]
    ]

Later-refl : (st : Scan) → Later st st
Later-refl st = record {
  first_le = omega arith;
  next_ge = omega arith;
  narrower = omega arith;
  still_fixed = λ h. (h, refl);
}

Later-trans : (a b c : Scan) → Later a b → Later b c → Later a c
Later-trans a b c h k = record {
  first_le = omega (arith, h.first_le, k.first_le);
  next_ge = omega (arith, h.next_ge, k.next_ge);
  narrower = omega (arith, h.narrower, k.narrower);
  still_fixed = λ f. let (g, e) = h.still_fixed f in let (g', e') = k.still_fixed g in (g', e' ∙ e);
}

-- The state goes with machine integers.
abbrev pub Small : Scan → Type 0
Small st = (st.next_filenum < 2 ^ 64) × (st.minwidth < 2 ^ 32)

numbers_kept :
    (x f n f' n' : ℕ)
    → x < 2 ^ 64
    → (x == ulong_max) ≡ false
    → n < 2 ^ 64
    → f' ≡ (if ltb x f then x else f)
    → n' ≡ (if leb n x then x + 1 else n)
    → (f' ≤ f) × (f' ≤ x) × (n ≤ n') × (x < n') × (n' < 2 ^ 64)
numbers_kept x f n f' n' fits t small first next =
    let below : x < 2 ^ 64 - 1 = ground (arith, fits, t) in
    (
      ground (arith, first),
      ground (arith, first),
      ground (arith, next),
      ground (arith, next),
      ground (arith, next, below, small),
    )

count_spoolfile-Seen :
    (st st' : Scan) (name : List ℕ) (sf : Spoolfile)
    → Small st
    → from_filename name ≡ ok sf
    → count_spoolfile st sf ≡ ok st'
    → Later st st' × Small st' × Seen st' name
unfolding count_spoolfile
count_spoolfile-Seen st st' name sf small read e =
    let (some_there, number, same, fits) = from_filename_parts name sf read in
    elim (Bool-cases (sf.filenum == ulong_max)) [
      | inl t ↦ (let h = rw (t) at e in cc)
      | inr t ↦
          let h = rw (t) at e in
          let (kept, width, rest) = bind-eq-ok (check_width st.minwidth_fixed st.minwidth sf) _ h in
          let (goes, narrower, still) =
            width_kept st.minwidth_fixed kept.1 st.minwidth kept.0 sf small.1 width in
          let first : st'.first_filenum
              ≡ (if ltb sf.filenum st.first_filenum then sf.filenum else st.first_filenum) =
            cc in
          let next : st'.next_filenum
              ≡ (if leb st.next_filenum sf.filenum then sf.filenum + 1 else st.next_filenum) =
            cc in
          let minwidth : st'.minwidth ≡ kept.0 = cc in
          let fixed : st'.minwidth_fixed ≡ kept.1 = cc in
          let (first_le, low, next_ge, high, next_small) =
            numbers_kept sf.filenum st.first_filenum st.next_filenum st'.first_filenum
              st'.next_filenum fits t small.0 first next in
          let read_as : from_filename name ≡ ok (record { filename = name; filenum = sf.filenum }) =
            read ∙ ap (λ f. ok (record { filename = f; filenum = sf.filenum })) same in
          (
            record {
              first_le = first_le;
              next_ge = next_ge;
              narrower = omega (arith, minwidth, narrower);
              still_fixed = λ f. (let (g, m) = still f in (fixed ∙ g, minwidth ∙ m));
            },
            (next_small, omega (arith, minwidth, narrower, small.1)),
            counted sf.filenum read_as low high (rw (same, sym minwidth, sym fixed) at goes),
          )
    ]

scan_name-Seen :
    (st st' : Scan) (name : List ℕ)
    → Small st
    → scan_name st name ≡ ok st'
    → Later st st' × Small st' × Seen st' name
unfolding scan_name
scan_name-Seen st st' name small e = elim (Bool-cases (is_hidden name)) [
  | inl t ↦
      let h = rw (t) at e in
      let same : st ≡ st' = cc in rw (sym same) (Later-refl st, small, hidden t)
  | inr t ↦
      let h = rw (t) at e in
      let (sf, read, rest) = bind-eq-ok (from_filename name) _ h in
      count_spoolfile-Seen st st' name sf small read rest
]

pub scan_loop-Seen :
    (st st' : Scan) (names : List (List ℕ))
    → Small st
    → scan_loop st names ≡ ok st'
    → Later st st' × Small st' × All (Seen st') names
unfolding scan_loop
scan_loop-Seen st st' [] small e =
    let same : st ≡ st' = cc in rw (sym same) (Later-refl st, small, tt)
scan_loop-Seen st st' (name ∷ names) small e =
    let (mid, one, rest) = bind-eq-ok (scan_name st name) _ e in
    let (later, small', seen) = scan_name-Seen st mid name small one in
    let (later', small'', others) = scan_loop-Seen mid st' names small' rest in
    (Later-trans st mid st' later later', small'', (Seen-Later mid st' name later' seen, others))
