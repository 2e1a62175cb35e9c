-- ===== src/FileStore/Input/Position.antt =====
-- Which spoolfile the session reader of horace+file has open, also after a reset.
use mathlib.Core.Path.{subst}
use libholmes_horace.FileStore.Scanner.{Scan}
use libholmes_horace.FileStore.Spoolfile.{ulong_max, from_filenum}
use libholmes_horace.FileStore.Input.{
  Outcome, proceed, attempt, next_pathname, scan_first, open_spoolfile, ensure_open, reset_from,
  reset, SpoolfileReader, FileSessionReader,
}
use libholmes_horace.Common.{
  ℕ, ◌+◌, ◌-◌, ◌%◌, ◌^◌, ◌≤◌, ◌<◌, ◌≡◌, refl, sym, ap, ◌∙◌, inl, inr, false, none, some, List,
  arith, ◌==◌, Bool-cases, if-cases, Error, Result, err, ok,
}

-- The spoolfile with the number is open.
pub record At (n : ℕ) (st : FileSessionReader) : Type 0 where
  pub spoolfile : SpoolfileReader
  pub is_open : st.spoolfile ≡ some spoolfile
  pub pathname : spoolfile.pathname ≡ (from_filenum n st.minwidth).filename
  pub following : spoolfile.next_pathname ≡ (from_filenum (n + 1) st.minwidth).filename
  pub number : st.next_filenum ≡ n + 2

pub proceed-cases :
    {A B : Type 0} (P : Outcome B → Type 0) (o : Outcome A)
    (rest : FileSessionReader → A → Outcome B)
    → ((st : FileSessionReader) (e : Error) → o ≡ (st, err e) → P (st, err e))
    → ((st : FileSessionReader) (a : A) → o ≡ (st, ok a) → P (rest st a))
    → P (proceed o rest)
unfolding proceed
proceed-cases P (st, err e) rest h k = h st e refl
proceed-cases P (st, ok a) rest h k = k st a refl

pub attempt-cases :
    {A B : Type 0} (P : Outcome B → Type 0) (st : FileSessionReader) (x : Result A)
    (rest : A → Outcome B)
    → ((e : Error) → x ≡ err e → P (st, err e))
    → ((a : A) → x ≡ ok a → P (rest a))
    → P (attempt st x rest)
attempt-cases P st (err e) rest h k = h e refl
attempt-cases P st (ok a) rest h k = k a refl

next_pathname_parts :
    (st st' : FileSessionReader) (name : List ℕ)
    → next_pathname st ≡ (st', ok name)
    → (name ≡ (from_filenum st.next_filenum st.minwidth).filename)
      × (st' ≡ record st { next_filenum = st.next_filenum + 1 })
unfolding next_pathname
next_pathname_parts st st' name h = elim (Bool-cases (st.next_filenum == ulong_max)) [
  | inl t ↦ (let no = rw (t) at h in cc)
  | inr t ↦ (let e = rw (t) at h in (cc, cc))
]

abbrev pub Keeps : FileSessionReader → FileSessionReader → Type 0
Keeps st st' = (st'.deleted ≡ st.deleted) × (st'.minwidth ≡ st.minwidth)

next_pathname-Keeps : (st : FileSessionReader) → Keeps st (next_pathname st).0
unfolding next_pathname
next_pathname-Keeps st =
    if-cases (λ (o : Outcome (List ℕ)). Keeps st o.0) (st.next_filenum == ulong_max) _ _
      (λ t. (refl, refl)) (λ t. (refl, refl))

-- An operation that returns has opened the spoolfile with the number, and deleted these.
abbrev pub Opens : ℕ → List (List ℕ) → Outcome (Unit {0}) → Type 0
Opens n deleted o = o.1 ≡ ok tt → At n o.0 × (o.0.deleted ≡ deleted)

throws :
    (n : ℕ) (deleted : List (List ℕ)) (st : FileSessionReader) (e : Error)
    → Opens n deleted (st, err e)
throws n deleted st e h = cc

module _ (first_scan : Result Scan) (open_file : List ℕ → Result (List ℕ)) where
  pub open_spoolfile-Opens :
      (st : FileSessionReader) (name : List ℕ) (n : ℕ)
      → name ≡ (from_filenum n st.minwidth).filename
      → st.next_filenum ≡ n + 1
      → Opens n st.deleted (open_spoolfile first_scan open_file name st)
  unfolding open_spoolfile
  open_spoolfile-Opens st name n same number =
      proceed-cases (Opens n st.deleted) (next_pathname st) _ (λ st' e _. throws n st.deleted st' e)
        (λ st' next taken.
          let (following, after) = next_pathname_parts st st' next taken in
          attempt-cases (Opens n st.deleted) st' (open_file name) _
            (λ e _. throws n st.deleted st' e)
            (λ octets _ _.
              let width : st'.minwidth ≡ st.minwidth = ap (λ x. x.minwidth) after in
              let count : st'.next_filenum ≡ st.next_filenum + 1 = ap (λ x. x.next_filenum) after in
              (
                record {
                  spoolfile = _;
                  is_open = refl;
                  pathname = rw (width) same;
                  following = rw (width, sym number) following;
                  number = omega (arith, count, number);
                },
                ap (λ x. x.deleted) after,
              )))

  -- Where no spoolfile is open, the next one is opened.
  ensure_open-Opens :
      (st : FileSessionReader)
      → 1 ≤ st.minwidth
      → Opens st.next_filenum st.deleted (ensure_open first_scan open_file none st)
  unfolding ensure_open scan_first proceed
  ensure_open-Opens st width =
      let scanned : (st.minwidth == 0) ≡ false = ground (arith, width) in
      rw (scanned) (
        proceed-cases (Opens st.next_filenum st.deleted) (next_pathname st)
          (λ st2 pathname. open_spoolfile first_scan open_file pathname st2)
          (λ st' e _. throws st.next_filenum st.deleted st' e)
          (λ st' name taken.
            let (own, after) = next_pathname_parts st st' name taken in
            let same : name ≡ (from_filenum st.next_filenum st'.minwidth).filename =
              own ∙ ap (λ x. (from_filenum st.next_filenum x.minwidth).filename) (sym after) in
            rw (ap (λ x. x.deleted) (sym after)) (
              open_spoolfile-Opens st' name st.next_filenum same (ap (λ x. x.next_filenum) after))))

  reset-Opens :
      (st : FileSessionReader) (n : ℕ)
      → At n st
      → 1 ≤ st.minwidth
      → n + 2 < 2 ^ 64
      → Opens
          (n + 1)
          st.deleted
          (ensure_open first_scan open_file (reset st).0.spoolfile (reset st).0)
  unfolding reset reset_from
  reset-Opens st n at_n width small =
      let count : (st.next_filenum + 2 ^ 64 - 1) % 2 ^ 64 ≡ n + 1 =
        omega (arith, at_n.number, small) in
      let st' : FileSessionReader = record st {
        spoolfile = none;
        next_filenum = (st.next_filenum + 2 ^ 64 - 1) % 2 ^ 64;
        sec = 0;
        nsec = 0;
        seqnum = 0;
        awaiting_sync = false;
      } in
      rw (at_n.is_open) (
        subst (λ k. Opens k st.deleted (ensure_open first_scan open_file none st')) count
          (ensure_open-Opens st' width))

  -- Where a reader is reset and then opens a spoolfile without an exception, this is not the one that
  -- was open before, whose number is below 2 ^ 64 - 2, but the one behind it; and none is deleted.
  pub reset-At :
      (st : FileSessionReader) (n : ℕ)
      → At n st
      → 1 ≤ st.minwidth
      → n + 2 < 2 ^ 64
      → (ensure_open first_scan open_file (reset st).0.spoolfile (reset st).0).1 ≡ ok tt
      → let o = ensure_open first_scan open_file (reset st).0.spoolfile (reset st).0 in
        At (n + 1) o.0 × (o.0.deleted ≡ st.deleted)
  reset-At st n at_n width small = reset-Opens st n at_n width small

  pub open_spoolfile-Keeps :
      (st : FileSessionReader) (name : List ℕ)
      → Keeps st (open_spoolfile first_scan open_file name st).0
  unfolding open_spoolfile
  open_spoolfile-Keeps st name =
      proceed-cases (λ (o : Outcome (Unit {0})). Keeps st o.0) (next_pathname st) _
        (λ st' e h. subst (λ x. Keeps st x.0) h (next_pathname-Keeps st))
        (λ st' next h.
          let kept : Keeps st st' = subst (λ x. Keeps st x.0) h (next_pathname-Keeps st) in
          attempt-cases (λ (o : Outcome (Unit {0})). Keeps st o.0) st' (open_file name) _
            (λ e _. kept) (λ octets _. kept))
