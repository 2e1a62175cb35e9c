-- ===== src/Tests/SessionReaders.antt =====
-- A session reader of horace+file, at concrete inputs.
use libholmes_horace.Wire.Signed
use libholmes_horace.Attribute.Ids
use libholmes_horace.Attribute.Lookup
use libholmes_horace.Record
use libholmes_horace.FileStore.Spoolfile
use libholmes_horace.FileStore.Scanner
use libholmes_horace.FileStore.Input
use libholmes_horace.Common.{ℕ, ◌≡◌, refl, ◌⊎◌, true, false, some, List, [], ◌∷◌, arith, Result, ok}
use libholmes_horace.Attribute.{unsigned_integer, string, timestamp, nil, cons}
use libholmes_horace.Session.Labels.{channel_sync}
use libholmes_horace.Session.{empty_session}
use libholmes_horace.FileStore.Input.{SpoolfileReader, FileSessionReader}
use libholmes_horace.Tests.FileStores.{seven, eight, name_of_seven, name_of_eight, scanned, create}

abbrev first_scan : Result Scanner.Scan
first_scan = ok scanned

abbrev open_file : List ℕ → Result (List ℕ)
open_file name = ok []

abbrev spoolfile : SpoolfileReader
spoolfile = record { pathname = seven; next_pathname = eight; octets = [] }

-- The octets of the spoolfile have been read, and the answer is awaited.
abbrev reader : FileSessionReader
reader = record {
  srcid = 0x61 ∷ [];
  session = empty_session;
  spoolfile = some spoolfile;
  next_filenum = 9;
  minwidth = 3;
  sec = 100;
  nsec = 5;
  seqnum = 8;
  awaiting_sync = true;
  deleted = [];
}

abbrev response : Record.Record
response = record {
  channel = channel_sync;
  attributes =
      cons (string Ids.attrid_source (0x61 ∷ []))
        (cons (unsigned_integer Ids.attrid_seqnum 8) (cons (timestamp Ids.attrid_ts 100 5) nil));
}

reader-At : Input.Position.At 7 reader
reader-At = record {
  spoolfile = spoolfile;
  is_open = refl;
  pathname = name_of_seven;
  following = name_of_eight;
  number = refl;
}

abbrev after_reset : Input.Outcome (Unit {0})
after_reset =
    Input.ensure_open first_scan open_file (Input.reset reader).0.spoolfile (Input.reset reader).0

reopened : after_reset.1 ≡ ok tt
unfolding Input.ensure_open Input.scan_first Input.next_pathname Input.open_spoolfile Input.proceed
    Input.reset Input.reset_from
reopened = refl

reset-At_example : Input.Position.At 8 after_reset.0 × (after_reset.0.deleted ≡ [])
reset-At_example =
    Input.Position.reset-At first_scan open_file reader 7 reader-At (omega arith) (omega arith)
      reopened

written : (Input.write first_scan open_file create false response reader).1 ≡ ok tt
unfolding Input.write Input.handle_sync Input.check_sync Input.advance Input.delete_spoolfile
    Input.open_spoolfile Input.next_pathname Input.proceed Input.find_timespec Input.timespec
    Lookup.find_string Lookup.find_unsigned_integer Lookup.find_one Lookup.find_loop
    libholmes_horace.Attribute.Equal.octets_eq
written = refl

write-Acknowledged_example :
    ((Input.write first_scan open_file create false response reader).0.deleted ≡ [])
    ⊎ (Input.Response.Acknowledges reader response
        × ((Input.write first_scan open_file create false response reader).0.deleted
            ≡ (Spoolfile.from_filenum 7 3).filename ∷ []))
write-Acknowledged_example =
    Input.Acknowledged.write-Acknowledged first_scan open_file create false reader 7 response
      reader-At

write-Advances_example :
    Input.Response.Acknowledges reader response
    × Input.Position.At 8 (Input.write first_scan open_file create false response reader).0
write-Advances_example =
    Input.Acknowledged.write-Advances first_scan open_file create false reader 7 response reader-At
      refl written

-- The response is written, and the next spoolfile is read to its end, where an answer is awaited again.
abbrev requests : List Input.Trail.Request
requests = Input.Trail.writing response ∷ Input.Trail.reading ∷ []

requests_answered :
    (Input.Trail.answer_all first_scan open_file create false requests reader).1 ≡ ok tt
unfolding Input.Trail.answer_all Input.Trail.answer Input.write Input.handle_sync Input.check_sync
    Input.advance Input.delete_spoolfile Input.open_spoolfile Input.next_pathname Input.proceed
    Input.find_timespec Input.timespec Input.read Input.ensure_open Input.read_from
    Input.take_record Input.is_eof Record.parse Lookup.find_string Lookup.find_unsigned_integer
    Lookup.find_one Lookup.find_loop libholmes_horace.Attribute.Equal.octets_eq
    Signed.read_signed_base128
requests_answered = refl

answer_all-Moved_example :
    Input.Trail.Moved 7 reader
      (Input.Trail.answer_all first_scan open_file create false requests reader).0
answer_all-Moved_example =
    Input.Trail.answer_all-Moved first_scan open_file create false requests 7 reader reader-At
      requests_answered
