-- ===== src/FileStore/Input/Trail.antt =====
-- What the session reader of horace+file deletes over any sequence of calls.
use mathlib.Core.Path.{subst}
use libholmes_horace.Session.Labels.{channel_error, channel_warning, channel_sync}
use libholmes_horace.Record.{Record}
use libholmes_horace.FileStore.Input.{Outcome, proceed, read, write, FileSessionReader}
use libholmes_horace.FileStore.Input.Position.{proceed-cases, At}
use libholmes_horace.Common.{
  ℕ, ◌+◌, ◌≤◌, ◌<◌, ◌≡◌, refl, sym, ap, ◌∙◌, inl, inr, Bool, ◌||◌, List, [], ◌∷◌, ◌++◌,
  append_assoc, arith, ◌==◌, test→eq, if-cases, All, Result, ok,
}
use libholmes_horace.FileStore.Scanner.{Scan}
use libholmes_horace.FileStore.Spoolfile.{from_filenum}
use libholmes_horace.FileStore.Input.Acknowledged.{Kept, handle_sync-Answers}
use libholmes_horace.FileStore.Input.Reading.{Stays, read-Stays}

-- The name is that of a spoolfile from one number to below another.
abbrev Behind : ℕ → ℕ → ℕ → List ℕ → Type 0
Behind n m width name = (k : ℕ) × (n ≤ k) × (k < m) × (name ≡ (from_filenum k width).filename)

-- From spoolfile `n` the reader has come to `m`, and has deleted some of those between them.
pub data Moved (n : ℕ) (st st' : FileSessionReader) : Type 0 where
  moved :
      (m : ℕ) (names : List (List ℕ))
      → n ≤ m
      → At m st'
      → st'.minwidth ≡ st.minwidth
      → st'.deleted ≡ names ++ st.deleted
      → All (Behind n m st.minwidth) names
      → Moved n st st'

-- The spoolfiles deleted by one call and then by others.
append-Behind :
    (n m m' width : ℕ) (later earlier : List (List ℕ))
    → n ≤ m
    → m ≤ m'
    → All (Behind m m' width) later
    → All (Behind n m width) earlier
    → All (Behind n m' width) (later ++ earlier)
append-Behind n m m' width [] [] low high h k = tt
append-Behind n m m' width [] (name ∷ earlier) low high h ((i, above, below, same), k) = (
  (i, above, omega (arith, below, high), same),
  append-Behind n m m' width [] earlier low high tt k,
)
append-Behind n m m' width (name ∷ later) earlier low high ((i, above, below, same), h) k = (
  (i, omega (arith, above, low), below, same),
  append-Behind n m m' width later earlier low high h k,
)

goes_further :
    {n : ℕ} {st st1 st2 : FileSessionReader}
    → Moved n st st1
    → ((m : ℕ) → At m st1 → Moved m st1 st2)
    → Moved n st st2
goes_further {n} {st} {st1} {st2} (moved m names low at width same behind) next =
    further (next m at)
  where
    further : Moved m st1 st2 → Moved n st st2
    further (moved m' names' low' at' width' same' behind') =
        moved m' (names' ++ names) (omega (arith, low, low')) at' (width' ∙ width)
          (same' ∙ ap (λ t. names' ++ t) same ∙ sym (append_assoc names' names st.deleted))
          (append-Behind n m m' st.minwidth names' names low low'
            (subst (λ k. All (Behind m m' k) names') width behind') behind)

-- A call of the reader's operations.
pub data Request : Type 0 where
  reading : Request
  writing : Record → Request

module _ (first_scan : Result Scan) (open_file : List ℕ → Result (List ℕ))
    (unlink : List ℕ → Result (Unit {0})) (nodelete : Bool) where
  answered-Moved :
      (n : ℕ) (r : Record) (st st' : FileSessionReader)
      → At (n + 1) st'
      → st'.minwidth ≡ st.minwidth
      → Kept first_scan open_file unlink nodelete st n r (st', ok tt)
      → Moved n st st'
  answered-Moved n r st st' at width (inl e) = moved (n + 1) [] (omega arith) at width e tt
  answered-Moved n r st st' at width (inr (_, e)) =
      moved (n + 1) ((from_filenum n st.minwidth).filename ∷ []) (omega arith) at width e
        ((n, omega arith, omega arith, refl), tt)

  write-Moved :
      (n : ℕ) (r : Record) (st : FileSessionReader)
      → At n st
      → (write first_scan open_file unlink nodelete r st).1 ≡ ok tt
      → Moved n st (write first_scan open_file unlink nodelete r st).0
  unfolding write
  write-Moved n r st at =
      if-cases Moves (r.channel == channel_error || r.channel == channel_warning) _ _ (λ _ _. stood)
        (λ _.
          if-cases Moves (r.channel == channel_sync) _ _
            (λ t done.
              let (kept, goes_on) =
                handle_sync-Answers first_scan open_file unlink nodelete st n r at
                  (test→eq _ _ t) in
              let (_, at', width) = goes_on done in answered-Moved n r st _ at' width kept)
            (λ _ no. cc))
    where
      Moves : Outcome (Unit {0}) → Type 0
      Moves o = o.1 ≡ ok tt → Moved n st o.0

      stood : Moved n st st
      stood = moved n [] (omega arith) at refl refl tt

  unfoldable pub answer : Request → FileSessionReader → Outcome (Unit {0})
  answer reading st = proceed (read first_scan open_file st) λ st' _. (st', ok tt)
  answer (writing r) st = write first_scan open_file unlink nodelete r st

  -- Requests one after the other, up to the first that throws.
  unfoldable pub answer_all : List Request → FileSessionReader → Outcome (Unit {0})
  unfolding answer
  answer_all [] st = (st, ok tt)
  answer_all (q ∷ qs) st = proceed (answer q st) λ st' _. answer_all qs st'

  answer-Moved :
      (q : Request) (n : ℕ) (st : FileSessionReader)
      → At n st
      → (answer q st).1 ≡ ok tt
      → Moved n st (answer q st).0
  unfolding answer
  answer-Moved reading n st at =
      proceed-cases (λ (o : Outcome (Unit {0})). o.1 ≡ ok tt → Moved n st o.0)
        (read first_scan open_file st) _ (λ _ _ _ no. cc)
        (λ st' r h _.
          let (at', (deleted, width)) : Stays n st (st', ok r) =
            subst (λ (o : Outcome Record). Stays n st o) h
              (read-Stays first_scan open_file n st at) in
          moved n [] (omega arith) at' width deleted tt)
  answer-Moved (writing r) n st at = write-Moved n r st at

  -- Where a reader that has a spoolfile open reads and is written to, in any order and without an
  -- exception, each spoolfile that it deletes has the number of this one, or of one behind it that
  -- comes before the one that is open at the end: neither that nor one that follows is deleted.
  pub answer_all-Moved :
      (qs : List Request) (n : ℕ) (st : FileSessionReader)
      → At n st
      → (answer_all qs st).1 ≡ ok tt
      → Moved n st (answer_all qs st).0
  unfolding answer_all
  answer_all-Moved [] n st at = λ done. moved n [] (omega arith) at refl refl tt
  answer_all-Moved (q ∷ qs) n st at =
      proceed-cases (λ (o : Outcome (Unit {0})). o.1 ≡ ok tt → Moved n st o.0) (answer q st) _
        (λ _ _ _ no. cc)
        (λ st' u h done.
          goes_further
            (subst (λ (o : Outcome (Unit {0})). Moved n st o.0) h
              (answer-Moved q n st at (ap (λ x. x.1) h)))
            (λ m at'. answer_all-Moved qs m st' at' done))
