-- ===== src/Tests/FileStores.antt =====
-- The spoolfiles of horace+file, at concrete inputs.
use libholmes_horace.Wire.Unsigned
use libholmes_horace.Wire.Signed
use libholmes_horace.Attribute.Ids
use libholmes_horace.Attribute.Encode
use libholmes_horace.Session.{empty_session, get_attr_type}
use libholmes_horace.Record
use libholmes_horace.FileStore.Spoolfile
use libholmes_horace.FileStore.Scanner
use libholmes_horace.FileStore.Output
use libholmes_horace.Common.{
  ℕ, ◌^◌, ◌<◌, ◌≡◌, refl, sym, ap, ◌∙◌, ◌≢◌, true, false, none, some, List, [], ◌∷◌, ◌++◌, arith,
  length, All, Result, ok,
}
use libholmes_horace.Attribute.{unsigned_integer, timestamp, nil, cons}
use libholmes_horace.Session.Labels.{channel_session}
use libholmes_horace.Writer.{Call, session_start, event}

abbrev pub seven : List ℕ
seven = 48 ∷ 48 ∷ 55 ∷ []

abbrev pub eight : List ℕ
eight = 48 ∷ 48 ∷ 56 ∷ []

abbrev hidden : List ℕ
hidden = 0x2e ∷ []

from_filename-from_filenum_example :
    Spoolfile.from_filename (Spoolfile.from_filenum 7 3).filename ≡ ok (Spoolfile.from_filenum 7 3)
from_filename-from_filenum_example = Spoolfile.Names.from_filename-from_filenum 7 3 (omega arith)

pub name_of_seven : seven ≡ (Spoolfile.from_filenum 7 3).filename
unfolding Spoolfile.from_filenum Spoolfile.padded Spoolfile.zeros Spoolfile.digits
    Spoolfile.digits_loop
name_of_seven = refl

pub name_of_eight : eight ≡ (Spoolfile.from_filenum 8 3).filename
unfolding Spoolfile.from_filenum Spoolfile.padded Spoolfile.zeros Spoolfile.digits
    Spoolfile.digits_loop
name_of_eight = refl

dot_is_hidden : Scanner.is_hidden hidden ≡ true
unfolding Scanner.is_hidden
dot_is_hidden = refl

abbrev pub scanned : Scanner.Scan
scanned = record { first_filenum = 7; next_filenum = 9; minwidth = 3; minwidth_fixed = true }

scan_names : Scanner.filestore_scanner (eight ∷ hidden ∷ seven ∷ []) ≡ ok scanned
unfolding Scanner.filestore_scanner Scanner.scan_loop Scanner.scan_name Scanner.is_hidden
    Scanner.count_spoolfile Scanner.check_width Scanner.settled Spoolfile.from_filename
    Spoolfile.char_loop Spoolfile.add_char Spoolfile.starts_with_zero
scan_names = refl

filestore_scanner-Listed_example :
    (9 < 2 ^ 64)
    × All (Scanner.Listing.Listed scanned) (eight ∷ hidden ∷ seven ∷ [])
    × ((minwidth : ℕ)
        → All
            (λ name. name ≢ (Spoolfile.from_filenum 9 minwidth).filename)
            (eight ∷ hidden ∷ seven ∷ []))
filestore_scanner-Listed_example =
    Scanner.Listing.filestore_scanner-Listed (eight ∷ hidden ∷ seven ∷ []) scanned
      (omega arith, (omega arith, (omega arith, tt))) scan_names

filestore_scanner-Made_example :
    (r : Scanner.Scan) × (Scanner.filestore_scanner (eight ∷ hidden ∷ seven ∷ []) ≡ ok r)
filestore_scanner-Made_example =
    Scanner.Written.filestore_scanner-Made 3 (eight ∷ hidden ∷ seven ∷ []) (omega arith)
      (omega arith)
      (
        Scanner.Written.spoolfile 8 (omega arith) name_of_eight,
        (
          Scanner.Written.other dot_is_hidden,
          (Scanner.Written.spoolfile 7 (omega arith) name_of_seven, tt),
        ),
      )

abbrev pub create : List ℕ → Result (Unit {0})
create name = ok tt

abbrev session_record : Record.Record
session_record = record {
  channel = channel_session;
  attributes = cons (timestamp Ids.attrid_ts 100 5) nil;
}

abbrev event_record : Record.Record
event_record = record { channel = 0; attributes = cons (unsigned_integer Ids.attrid_seqnum 7) nil }

abbrev calls : List Call
calls = session_start session_record ∷ event event_record ∷ event event_record ∷ []

abbrev writer : Output.FileSessionWriter
writer = record { next_filenum = 9; minwidth = 3; spoolfile = none; closed = []; writable = false }

-- A spoolfile has room for the session record and one event, so the second event starts another.
run_returns : (Output.run create 18 true none calls writer).1 ≡ ok tt
unfolding Output.run Output.handle Output.session_of Output.and_then Output.begin_spoolfile
    Output.opened Output.write_first Output.close Output.write_current Output.write_spoolfile
    Output.after_write Output.full_length Output.write_if Output.write_in_session
    Output.write_record Output.write_to_new Record.write Signed.write_value Signed.of_value
    Unsigned.length_loop libholmes_horace.Common.Words.shift_right Signed.write Signed.high_loop
    Unsigned.write_loop Encode.list_length Encode.length_loop Unsigned.of_value Unsigned.write_value
    Unsigned.write Encode.write_list libholmes_horace.Wire.Fixed.write_signed
    libholmes_horace.Wire.Fixed.write_loop libholmes_horace.Wire.Fixed.write_unsigned
run_returns = refl

session_body : Encode.write_list session_record.attributes ≡ ok (117 ∷ 5 ∷ 100 ∷ 0 ∷ 0 ∷ 0 ∷ 5 ∷ [])
unfolding Encode.write_list Encode.list_length Encode.length_loop Signed.write_value Signed.of_value
    Unsigned.length_loop libholmes_horace.Common.Words.shift_right Signed.write Signed.high_loop
    Unsigned.write_loop Unsigned.of_value Unsigned.write_value Unsigned.write
    libholmes_horace.Wire.Fixed.write_signed libholmes_horace.Wire.Fixed.write_loop
    libholmes_horace.Wire.Fixed.write_unsigned
session_body = refl

event_body : Encode.write_list event_record.attributes ≡ ok (118 ∷ 1 ∷ 7 ∷ [])
unfolding Encode.write_list Encode.list_length Encode.length_loop Signed.write_value Signed.of_value
    Unsigned.length_loop libholmes_horace.Common.Words.shift_right Signed.write Signed.high_loop
    Unsigned.write_loop Unsigned.of_value Unsigned.write_value Unsigned.write
    libholmes_horace.Wire.Fixed.write_signed libholmes_horace.Wire.Fixed.write_loop
    libholmes_horace.Wire.Fixed.write_unsigned
event_body = refl

few_octets :
    (x : Result (List ℕ)) (few body : List ℕ)
    → x ≡ ok few
    → length few < 2 ^ 62
    → x ≡ ok body
    → length body < 2 ^ 62
few_octets x few body e small h =
    let found : ok few ≡ ok body = sym e ∙ h in
    let same : few ≡ body = cc in omega (arith, small, ap length same)

session_record-IsStorable : Output.Lengths.IsStorable session_record
unfolding get_attr_type
session_record-IsStorable = record {
  channel = omega arith;
  session = empty_session;
  valid = ((omega arith, refl, omega arith, omega arith, omega arith), tt);
  short =
      λ body h. few_octets _ (117 ∷ 5 ∷ 100 ∷ 0 ∷ 0 ∷ 0 ∷ 5 ∷ []) body session_body (omega arith) h;
}

event_record-IsStorable : Output.Lengths.IsStorable event_record
unfolding get_attr_type
event_record-IsStorable = record {
  channel = omega arith;
  session = empty_session;
  valid = ((omega arith, refl, omega arith), tt);
  short = λ body h. few_octets _ (118 ∷ 1 ∷ 7 ∷ []) body event_body (omega arith) h;
}

run-Stored_example :
    (es' : List Output.Contents.Entry) × Output.Contents.Stored 18
      (Output.Contents.files (Output.run create 18 true none calls writer).0)
      es'
    × Output.Contents.InForce
        (some session_record)
        (Output.run create 18 true none calls writer).0.spoolfile
        es'
    × (Output.Contents.payload es'
        ≡ Output.Contents.payload [] ++ Output.Added.all_added none calls)
unfolding Output.close Output.session_of
run-Stored_example =
    Output.Order.run-Stored create 18 true (omega arith) none calls writer [] tt
      (session_record-IsStorable, (event_record-IsStorable, (event_record-IsStorable, tt))) tt tt
      run_returns

abbrev session_octets : List ℕ
session_octets = 0x7f ∷ 7 ∷ 117 ∷ 5 ∷ 100 ∷ 0 ∷ 0 ∷ 0 ∷ 5 ∷ []

abbrev event_octets : List ℕ
event_octets = 0 ∷ 3 ∷ 118 ∷ 1 ∷ 7 ∷ []

write_event : Record.write event_record ≡ ok event_octets
unfolding Output.full_length Record.write Signed.write_value Signed.of_value Unsigned.length_loop
    libholmes_horace.Common.Words.shift_right Signed.write Signed.high_loop Unsigned.write_loop
    Encode.list_length Encode.length_loop Unsigned.of_value Unsigned.write_value Unsigned.write
    Encode.write_list libholmes_horace.Wire.Fixed.write_signed
    libholmes_horace.Wire.Fixed.write_loop libholmes_horace.Wire.Fixed.write_unsigned
write_event = refl
