-- ===== src/FileStore/Input/Reading.antt =====
-- Reading from a spoolfile of horace+file leaves it open and deletes nothing.
use mathlib.Core.Path.{subst}
use libholmes_horace.Attribute.Lookup.{find_unsigned_integer}
use libholmes_horace.Attribute.Ids
use libholmes_horace.Session.{SessionContext}
use libholmes_horace.Session.Labels.{channel_session}
use libholmes_horace.Record
use libholmes_horace.Record.{is_event, Record}
use libholmes_horace.FileStore.Input.{
  Outcome, proceed, find_timespec, account, is_eof, take_record, read_from, ensure_open, read,
  FileSessionReader,
}
use libholmes_horace.FileStore.Input.Position.{attempt-cases, Keeps, At}
use libholmes_horace.Common.{ℕ, refl, sym, ◌&&◌, List, ◌==◌, if-cases, Result, err, ok}
use libholmes_horace.FileStore.Scanner.{Scan}

-- The spoolfile with the number is still open, and none was deleted.
abbrev pub Stays : {A : Type 0} → ℕ → FileSessionReader → Outcome A → Type 0
Stays n st o = At n o.0 × Keeps st o.0

account-Stays :
    (r : Record) (n : ℕ) (st st' : FileSessionReader)
    → At n st'
    → Keeps st st'
    → Stays n st (account r st')
unfolding account
account-Stays r n st st' at kept =
    if-cases (Stays n st) (r.channel == channel_session) _ _
      (λ _.
        attempt-cases (Stays n st) st' (find_timespec r) _ (λ e _. (at, kept))
          (λ ts _.
            if-cases (λ x. At n x × Keeps st x) (ts.0 == st'.sec && ts.1 == st'.nsec) _ _
              (λ _. (at, kept))
              (λ _. (
                record {
                  spoolfile = at.spoolfile;
                  is_open = at.is_open;
                  pathname = at.pathname;
                  following = at.following;
                  number = at.number;
                },
                kept,
              ))))
      (λ _.
        if-cases (Stays n st) (is_event r) _ _
          (λ _.
            attempt-cases (Stays n st) st' (find_unsigned_integer r.attributes Ids.attrid_seqnum) _
              (λ e _. (at, kept))
              (λ k _. (
                record {
                  spoolfile = at.spoolfile;
                  is_open = at.is_open;
                  pathname = at.pathname;
                  following = at.following;
                  number = at.number;
                },
                kept,
              )))
          (λ _. (at, kept)))

take_record-Stays :
    (n : ℕ) (st : FileSessionReader) (at : At n st)
    (x : Result ((Record × SessionContext) × List ℕ))
    → Stays n st (take_record at.spoolfile st x)
unfolding take_record
take_record-Stays n st at (err e) =
    if-cases (Stays n st) (is_eof e) _ _
      (λ _. (
        record {
          spoolfile = at.spoolfile;
          is_open = at.is_open;
          pathname = at.pathname;
          following = at.following;
          number = at.number;
        },
        (refl, refl),
      ))
      (λ _. (at, (refl, refl)))
take_record-Stays n st at (ok ((r, session), rest)) =
    account-Stays r n st _
      (record {
        spoolfile = record at.spoolfile { octets = rest };
        is_open = refl;
        pathname = at.pathname;
        following = at.following;
        number = at.number;
      })
      (refl, refl)

read_from-Stays :
    (n : ℕ) (st : FileSessionReader) → At n st → Stays n st (read_from st.spoolfile st)
unfolding read_from
read_from-Stays n st at =
    subst (λ f. Stays n st (read_from f st)) (sym at.is_open)
      (if-cases (Stays n st) st.awaiting_sync _ _ (λ _. (at, (refl, refl)))
        (λ _. take_record-Stays n st at (Record.parse st.session at.spoolfile.octets)))

module _ (first_scan : Result Scan) (open_file : List ℕ → Result (List ℕ)) where
  pub read-Stays :
      (n : ℕ) (st : FileSessionReader) → At n st → Stays n st (read first_scan open_file st)
  unfolding read ensure_open proceed
  read-Stays n st at =
      subst
        (λ f.
          Stays n st
            (proceed (ensure_open first_scan open_file f st) λ st' _. read_from st'.spoolfile st'))
        (sym at.is_open) (read_from-Stays n st at)
