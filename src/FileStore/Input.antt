-- ===== src/FileStore/Input.antt =====
-- endpoints/horace+file/file_session_reader.cc, with spoolfile_reader.cc: the records of a session,
-- read from one spoolfile after the other. The scan of a store that is not empty, the opening of a
-- spoolfile, with the octets up to its end once the next one is there, and its deletion are
-- parameters. A state is left also where an operation throws.
pub mod Position
pub mod Response
pub mod Acknowledged
pub mod Reading
pub mod Trail
use libholmes_horace.Attribute.{Attribute, timestamp, nil}
use libholmes_horace.Attribute.Ids
use libholmes_horace.Attribute.Equal.{octets_eq}
use libholmes_horace.Attribute.Lookup.{find_one, find_unsigned_integer, find_string}
use libholmes_horace.Session.{SessionContext}
use libholmes_horace.Session.Labels.{channel_session, channel_error, channel_warning, channel_sync}
use libholmes_horace.Record
use libholmes_horace.Record.{is_event, Record}
use libholmes_horace.FileStore.Scanner.{Scan}
use libholmes_horace.FileStore.Spoolfile.{ulong_max, from_filenum}
use libholmes_horace.Common.{
  ℕ, ◌+◌, ◌-◌, ◌%◌, ◌^◌, Bool, true, false, not, ◌&&◌, ◌||◌, Option, none, some, List, ◌∷◌, ◌==◌,
  if◌then◌else◌, throw_if, ◌>>=◌, ◌>>◌, Error, eof_error, bad_cast, undefined_behaviour,
  endpoint_error, horace_error, Result, err, ok,
}

pub record SpoolfileReader : Type 0 where
  pub pathname : List ℕ
  pub next_pathname : List ℕ
  pub octets : List ℕ

-- `deleted` has the spoolfiles that were deleted, the last one first.
pub record FileSessionReader : Type 0 where
  pub srcid : List ℕ
  pub session : SessionContext
  pub spoolfile : Option SpoolfileReader
  pub next_filenum : ℕ
  pub minwidth : ℕ
  pub sec : ℕ
  pub nsec : ℕ
  pub seqnum : ℕ
  pub awaiting_sync : Bool
  pub deleted : List (List ℕ)

abbrev pub Outcome : Type 0 → Type 0
Outcome A = FileSessionReader × Result A

unfoldable pub proceed :
    {A B : Type 0} → Outcome A → (FileSessionReader → A → Outcome B) → Outcome B
proceed (st, err e) rest = (st, err e)
proceed (st, ok a) rest = rest st a

-- An expression that leaves the state as it stands.
abbrev pub attempt : {A B : Type 0} → FileSessionReader → Result A → (A → Outcome B) → Outcome B
attempt st (err e) rest = (st, err e)
attempt st (ok a) rest = rest a

-- `_next_pathname()`
unfoldable pub next_pathname : FileSessionReader → Outcome (List ℕ)
next_pathname st =
    if st.next_filenum == ulong_max then (st, err (endpoint_error "file number overflow")) else (
      record st { next_filenum = st.next_filenum + 1 },
      ok (from_filenum st.next_filenum st.minwidth).filename,
    )

abbrev pub empty_sync : Record
empty_sync = record { channel = channel_sync; attributes = nil }

-- `find_one<timestamp_attribute>(attrid_ts).content()`
unfoldable pub timespec : Attribute → Result (ℕ × ℕ)
timespec (timestamp id sec nsec) = ok (sec, nsec)
timespec _ = err bad_cast

unfoldable pub find_timespec : Record → Result (ℕ × ℕ)
unfolding timespec
find_timespec r = do a ← find_one r.attributes Ids.attrid_ts; timespec a

-- What a record that was read does to the state.
unfoldable pub account : Record → FileSessionReader → Outcome Record
unfolding find_timespec
account r st =
    if r.channel == channel_session
    then attempt st (find_timespec r) (λ ts. (
      if ts.0 == st.sec && ts.1 == st.nsec
          then st
          else record st { sec = ts.0; nsec = ts.1; seqnum = 0 },
      ok r,
    ))
    else if is_event r
    then attempt st (find_unsigned_integer r.attributes Ids.attrid_seqnum)
        (λ n. (record st { seqnum = (n + 1) % 2 ^ 64 }, ok r))
    else (st, ok r)

-- `catch (eof_error& ex)`
unfoldable pub is_eof : Error → Bool
is_eof eof_error = true
is_eof _ = false

-- At the end of a spoolfile a sync record is returned.
unfoldable pub take_record :
    SpoolfileReader
    → FileSessionReader
    → Result ((Record × SessionContext) × List ℕ)
    → Outcome Record
unfolding account is_eof
take_record f st (err e) =
    if is_eof e then (record st { awaiting_sync = true }, ok empty_sync) else (st, err e)
take_record f st (ok ((r, session), rest)) =
    account r (record st { session = session; spoolfile = some (record f { octets = rest }) })

unfoldable pub read_from : Option SpoolfileReader → FileSessionReader → Outcome Record
unfolding take_record
read_from none st = (st, err undefined_behaviour)
read_from (some f) st =
    if st.awaiting_sync
    then (st, err (horace_error "sync record expected"))
    else take_record f st (Record.parse st.session f.octets)

module _ (first_scan : Result Scan) (open_file : List ℕ → Result (List ℕ)) where
  unfoldable pub scan_first : FileSessionReader → Outcome (Unit {0})
  scan_first st =
      if st.minwidth == 0
      then attempt st first_scan
          (λ r. (record st { next_filenum = r.first_filenum; minwidth = r.minwidth }, ok tt))
      else (st, ok tt)

  -- `std::make_unique<spoolfile_reader>(*this, pathname, _next_pathname())`
  unfoldable pub open_spoolfile : List ℕ → FileSessionReader → Outcome (Unit {0})
  unfolding next_pathname proceed
  open_spoolfile pathname st = proceed (next_pathname st) λ st' next.
      attempt st' (open_file pathname) λ octets. (
        record st' {
          spoolfile = some (record { pathname = pathname; next_pathname = next; octets = octets });
        },
        ok tt,
      )

  unfoldable pub ensure_open : Option SpoolfileReader → FileSessionReader → Outcome (Unit {0})
  unfolding scan_first next_pathname open_spoolfile proceed
  ensure_open none st =
      proceed (scan_first st)
        λ st1 _. proceed (next_pathname st1) λ st2 pathname. open_spoolfile pathname st2
  ensure_open (some f) st = (st, ok tt)

  unfoldable pub read : FileSessionReader → Outcome Record
  unfolding ensure_open read_from proceed
  read st = proceed (ensure_open st.spoolfile st) λ st' _. read_from st'.spoolfile st'

  -- The checks of `_handle_sync`.
  unfoldable pub check_sync : FileSessionReader → Record → Result (Unit {0})
  unfolding find_timespec
  check_sync st r = do
    throw_if (not st.awaiting_sync) (horace_error "unexpected sync response sent to session reader")
    source ← find_string r.attributes Ids.attrid_source
    throw_if (not (octets_eq source st.srcid)) (horace_error "incorrect source ID in sync response")
    (sec, nsec) ← find_timespec r
    throw_if (not (sec == st.sec) || not (nsec == st.nsec))
        (horace_error "incorrect timestamp in sync response")
    seqnum ← find_unsigned_integer r.attributes Ids.attrid_seqnum
    throw_if (not (seqnum == st.seqnum)) (horace_error "incorrect sequence number in sync response")
    ok tt

  module _ (unlink : List ℕ → Result (Unit {0})) (nodelete : Bool) where
    unfoldable pub delete_spoolfile : List ℕ → FileSessionReader → Outcome (Unit {0})
    delete_spoolfile pathname st =
        if nodelete
        then (st, ok tt)
        else attempt st (unlink pathname)
            λ _. (record st { deleted = pathname ∷ st.deleted }, ok tt)

    -- The rest of `_handle_sync`.
    unfoldable pub advance : Option SpoolfileReader → FileSessionReader → Outcome (Unit {0})
    unfolding delete_spoolfile open_spoolfile proceed
    advance none st = (st, err undefined_behaviour)
    advance (some f) st = proceed (delete_spoolfile f.pathname st) λ st1 _.
        proceed (open_spoolfile f.next_pathname st1)
          λ st2 _. (record st2 { awaiting_sync = false }, ok tt)

    unfoldable pub handle_sync : Record → FileSessionReader → Outcome (Unit {0})
    unfolding check_sync advance
    handle_sync r st = attempt st (check_sync st r) λ _. advance st.spoolfile st

    unfoldable pub write : Record → FileSessionReader → Outcome (Unit {0})
    unfolding handle_sync
    write r st =
        if r.channel == channel_error || r.channel == channel_warning
        then (st, ok tt)
        else if r.channel == channel_sync
        then handle_sync r st
        else (st, err (horace_error "unexpected record type sent to session reader"))

-- `reset()`: an unsigned number wraps.
unfoldable pub reset_from : Option SpoolfileReader → FileSessionReader → FileSessionReader
reset_from none st = st
reset_from (some f) st = record st {
  spoolfile = none;
  next_filenum = (st.next_filenum + 2 ^ 64 - 1) % 2 ^ 64;
  sec = 0;
  nsec = 0;
  seqnum = 0;
  awaiting_sync = false;
}

unfoldable pub reset : FileSessionReader → FileSessionReader × Bool
unfolding reset_from
reset st = (reset_from st.spoolfile st, true)
