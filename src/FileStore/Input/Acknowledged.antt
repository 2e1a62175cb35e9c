-- ===== src/FileStore/Input/Acknowledged.antt =====
-- When the session reader of horace+file deletes a spoolfile and goes on to the next.
use mathlib.Core.Path.{subst}
use libholmes_horace.Session.Labels.{channel_error, channel_warning, channel_sync}
use libholmes_horace.Record.{Record}
use libholmes_horace.FileStore.Scanner.{Scan}
use libholmes_horace.FileStore.Spoolfile.{from_filenum}
use libholmes_horace.FileStore.Input.{
  Outcome, open_spoolfile, check_sync, delete_spoolfile, advance, handle_sync, write,
  SpoolfileReader, FileSessionReader,
}
use libholmes_horace.Common.{
  ℕ, ◌+◌, ◌≡◌, refl, sym, ap, ◌∙◌, ◌⊎◌, inl, inr, Bool, true, false, ◌||◌, some, List, ◌∷◌, arith,
  ◌==◌, test→eq, if-cases, Result, ok,
}
use libholmes_horace.FileStore.Input.Position.{
  proceed-cases, attempt-cases, Opens, open_spoolfile-Opens, open_spoolfile-Keeps, At,
}
use libholmes_horace.FileStore.Input.Response.{check_sync-Acknowledges, Acknowledges}

module _ (first_scan : Result Scan) (open_file : List ℕ → Result (List ℕ)) where
  module _ (unlink : List ℕ → Result (Unit {0})) (nodelete : Bool) where
    -- The spoolfile is deleted, or not, and nothing else changes.
    delete_parts :
        (st : FileSessionReader) (name : List ℕ)
        → let o = delete_spoolfile first_scan open_file unlink nodelete name st in
          ((o.0.deleted ≡ st.deleted) ⊎ (o.0.deleted ≡ name ∷ st.deleted))
          × (o.0.next_filenum ≡ st.next_filenum)
          × (o.0.minwidth ≡ st.minwidth)
    unfolding delete_spoolfile
    delete_parts st name =
        if-cases
          (λ (o : Outcome (Unit {0})).
            ((o.0.deleted ≡ st.deleted) ⊎ (o.0.deleted ≡ name ∷ st.deleted))
            × (o.0.next_filenum ≡ st.next_filenum)
            × (o.0.minwidth ≡ st.minwidth))
          nodelete _ _ (λ _. (inl refl, refl, refl))
          (λ _.
            attempt-cases
              (λ (o : Outcome (Unit {0})).
                ((o.0.deleted ≡ st.deleted) ⊎ (o.0.deleted ≡ name ∷ st.deleted))
                × (o.0.next_filenum ≡ st.next_filenum)
                × (o.0.minwidth ≡ st.minwidth))
              st (unlink name) _ (λ e _. (inl refl, refl, refl)) (λ _ _. (inr refl, refl, refl)))

    -- Nothing more is deleted, or the spoolfile with the number is.
    abbrev Deletes : FileSessionReader → ℕ → List (List ℕ) → Type 0
    Deletes st n deleted =
        (deleted ≡ st.deleted) ⊎ (deleted ≡ (from_filenum n st.minwidth).filename ∷ st.deleted)

    -- What the end of `_handle_sync` may delete, and where it goes on.
    abbrev GoesOn : FileSessionReader → ℕ → Outcome (Unit {0}) → Type 0
    GoesOn st n o =
        Deletes st n o.0.deleted × (o.1 ≡ ok tt → At (n + 1) o.0 × (o.0.minwidth ≡ st.minwidth))

    deletes_own :
        (st : FileSessionReader) (name own : List ℕ) (deleted : List (List ℕ))
        → name ≡ own
        → (deleted ≡ st.deleted) ⊎ (deleted ≡ name ∷ st.deleted)
        → (deleted ≡ st.deleted) ⊎ (deleted ≡ own ∷ st.deleted)
    deletes_own st name own deleted same (inl e) = inl e
    deletes_own st name own deleted same (inr e) = inr (e ∙ ap (λ x. x ∷ st.deleted) same)

    advance-GoesOn :
        (st : FileSessionReader) (n : ℕ) (f : SpoolfileReader)
        → f.pathname ≡ (from_filenum n st.minwidth).filename
        → f.next_pathname ≡ (from_filenum (n + 1) st.minwidth).filename
        → st.next_filenum ≡ n + 2
        → GoesOn st n (advance first_scan open_file unlink nodelete (some f) st)
    unfolding advance
    advance-GoesOn st n f own following number =
        let removal = delete_spoolfile first_scan open_file unlink nodelete f.pathname st in
        let (removed, count, width) = delete_parts st f.pathname in
        let deleted = deletes_own st f.pathname _ removal.0.deleted own removed in
        proceed-cases (GoesOn st n) removal _
          (λ st1 e h. (subst (Deletes st n) (ap (λ x. x.0.deleted) h) deleted, λ no. cc))
          (λ st1 _ h.
            let opening = open_spoolfile first_scan open_file f.next_pathname st1 in
            let kept : removal.0.deleted ≡ opening.0.deleted =
              ap (λ x. x.0.deleted) h
              ∙ sym (open_spoolfile-Keeps first_scan open_file st1 f.next_pathname).0 in
            let width1 : st1.minwidth ≡ st.minwidth = ap (λ x. x.0.minwidth) (sym h) ∙ width in
            let count1 : st1.next_filenum ≡ st.next_filenum =
              ap (λ x. x.0.next_filenum) (sym h) ∙ count in
            let moved = subst (Deletes st n) kept deleted in
            proceed-cases (GoesOn st n) opening _
              (λ st2 e g. (subst (Deletes st n) (ap (λ x. x.0.deleted) g) moved, λ no. cc))
              (λ st2 _ g. (
                subst (Deletes st n) (ap (λ x. x.0.deleted) g) moved,
                λ _.
                    let opened =
                      open_spoolfile-Opens first_scan open_file st1 f.next_pathname (n + 1)
                        (rw (width1) following) (omega (arith, count1, number)) in
                    let (at, _) = subst (Opens (n + 1) st1.deleted) g opened refl in
                    (
                      record {
                        spoolfile = at.spoolfile;
                        is_open = at.is_open;
                        pathname = at.pathname;
                        following = at.following;
                        number = at.number;
                      },
                      ap (λ x. x.0.minwidth) (sym g)
                          ∙ (open_spoolfile-Keeps first_scan open_file st1 f.next_pathname).1
                          ∙ width1,
                    ),
              )))

    abbrev pub Kept : FileSessionReader → ℕ → Record → Outcome (Unit {0}) → Type 0
    Kept st n r o =
        (o.0.deleted ≡ st.deleted)
        ⊎ (Acknowledges st r × (o.0.deleted ≡ (from_filenum n st.minwidth).filename ∷ st.deleted))

    abbrev pub Answers : FileSessionReader → ℕ → Record → Outcome (Unit {0}) → Type 0
    Answers st n r o =
        Kept st n r o
        × (o.1 ≡ ok tt → Acknowledges st r × At (n + 1) o.0 × (o.0.minwidth ≡ st.minwidth))

    answered :
        (st : FileSessionReader) (n : ℕ) (r : Record) (deleted : List (List ℕ))
        → Acknowledges st r
        → Deletes st n deleted
        → (deleted ≡ st.deleted)
          ⊎ (Acknowledges st r × (deleted ≡ (from_filenum n st.minwidth).filename ∷ st.deleted))
    answered st n r deleted answer (inl e) = inl e
    answered st n r deleted answer (inr e) = inr (answer, e)

    pub handle_sync-Answers :
        (st : FileSessionReader) (n : ℕ) (r : Record)
        → At n st
        → r.channel ≡ channel_sync
        → Answers st n r (handle_sync first_scan open_file unlink nodelete r st)
    unfolding handle_sync
    handle_sync-Answers st n r at_n channel =
        attempt-cases (Answers st n r) st (check_sync first_scan open_file st r) _
          (λ e _. (inl refl, λ no. cc))
          (λ u checked.
            let answer = check_sync-Acknowledges first_scan open_file st r channel checked in
            let (deleted, goes_on) =
              advance-GoesOn st n at_n.spoolfile at_n.pathname at_n.following at_n.number in
            subst (λ f. Answers st n r (advance first_scan open_file unlink nodelete f st))
              (sym at_n.is_open)
              (
                answered st n r _ answer deleted,
                λ done. let (at, width) = goes_on done in (answer, at, width),
              ))

    write_sync :
        (st : FileSessionReader) (r : Record)
        → r.channel ≡ channel_sync
        → write first_scan open_file unlink nodelete r st
          ≡ handle_sync first_scan open_file unlink nodelete r st
    unfolding write
    write_sync st r channel =
        let quiet : (r.channel == channel_error || r.channel == channel_warning) ≡ false =
          rw (channel) refl in
        let sync : (r.channel == channel_sync) ≡ true = rw (channel) refl in rw (quiet, sync) refl

    -- A spoolfile is deleted only when a sync response with the source, the session and the sequence
    -- number of the reader is written while one is awaited, and it is the spoolfile that is open.
    pub write-Acknowledged :
        (st : FileSessionReader) (n : ℕ) (r : Record)
        → At n st
        → let o = write first_scan open_file unlink nodelete r st in
          (o.0.deleted ≡ st.deleted)
          ⊎ (Acknowledges st r × (o.0.deleted ≡ (from_filenum n st.minwidth).filename ∷ st.deleted))
    unfolding write
    write-Acknowledged st n r at_n =
        if-cases (Kept st n r) (r.channel == channel_error || r.channel == channel_warning) _ _
          (λ _. inl refl)
          (λ _.
            if-cases (Kept st n r) (r.channel == channel_sync) _ _
              (λ t. (handle_sync-Answers st n r at_n (test→eq _ _ t)).0) (λ _. inl refl))

    -- Where the write of a sync record returns, the record was the answer that the reader awaited, and
    -- the spoolfile behind the one that was open is now open.
    pub write-Advances :
        (st : FileSessionReader) (n : ℕ) (r : Record)
        → At n st
        → r.channel ≡ channel_sync
        → (write first_scan open_file unlink nodelete r st).1 ≡ ok tt
        → Acknowledges st r × At (n + 1) (write first_scan open_file unlink nodelete r st).0
    write-Advances st n r at_n channel done =
        let same = write_sync st r channel in
        let (answer, at, _) =
          (subst (Answers st n r) (sym same) (handle_sync-Answers st n r at_n channel)).1 done in
        (answer, at)
