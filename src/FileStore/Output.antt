-- ===== src/FileStore/Output.antt =====
-- endpoints/horace+file/spoolfile_writer.cc and file_session_writer.cc: the records of a session,
-- written to one spoolfile after the other. A file is the octets that its octet writer has got. The
-- creation of a file, which fails if there is one, and the state of the endpoint are parameters. A
-- state is left also where an operation throws.
pub mod Lengths
pub mod Contents
pub mod Added
pub mod Order
pub mod Limits
use libholmes_horace.Wire.Signed
use libholmes_horace.Wire.Unsigned
use libholmes_horace.Attribute.Encode.{list_length}
use libholmes_horace.Record
use libholmes_horace.Record.{Record}
use libholmes_horace.Writer.{Call, session_start, session_end, sync, signature, event, control}
use libholmes_horace.FileStore.Scanner.{Scan}
use libholmes_horace.FileStore.Spoolfile.{ulong_max, from_filenum}
use libholmes_horace.Common.Words.{extend}
use libholmes_horace.Common.{
  ℕ, ◌+◌, ◌%◌, ◌^◌, Bool, true, false, not, ◌&&◌, Option, none, some, List, [], ◌∷◌, ◌++◌, ltb,
  ◌==◌, if◌then◌else◌, ◌>>=◌, undefined_behaviour, endpoint_error, horace_error, Result, err, ok,
}

pub record SpoolfileWriter : Type 0 where
  pub filename : List ℕ
  pub octets : List ℕ
  pub size : ℕ
  pub capacity : ℕ
  pub first : Bool

abbrev pub new_spoolfile_writer : List ℕ → ℕ → SpoolfileWriter
new_spoolfile_writer filename capacity = record {
  filename = filename;
  octets = [];
  size = 0;
  capacity = capacity;
  first = true;
}

-- `full_len`
unfoldable pub full_length : Record → Result ℕ
full_length r = do
  content_len ← list_length r.attributes
  i ← Signed.of_value (extend r.channel)
  j ← Unsigned.of_value content_len
  ok ((i.length + j.length + content_len) % 2 ^ 64)

-- The record is written unless it does not fit.
unfoldable pub write_if : Record → SpoolfileWriter → ℕ → Result (SpoolfileWriter × Bool)
write_if r f full_len =
    if ltb f.capacity ((f.size + full_len) % 2 ^ 64) && not f.first then ok (f, false) else (do
      octets ← Record.write r
      ok (
        record f {
          octets = f.octets ++ octets;
          size = (f.size + full_len) % 2 ^ 64;
          first = false;
        },
        true,
      ))

-- `spoolfile_writer::write`
unfoldable pub write_spoolfile : Record → SpoolfileWriter → Result (SpoolfileWriter × Bool)
unfolding full_length write_if
write_spoolfile r f = full_length r >>= λ full_len. write_if r f full_len

-- `closed` has the spoolfiles before the one in progress, the last one first.
pub record FileSessionWriter : Type 0 where
  pub next_filenum : ℕ
  pub minwidth : ℕ
  pub spoolfile : Option SpoolfileWriter
  pub closed : List SpoolfileWriter
  pub writable : Bool

-- The constructor, from what the scanner has found.
unfoldable pub new_file_session_writer : Scan → FileSessionWriter
new_file_session_writer found = record {
  next_filenum = found.next_filenum;
  minwidth = if found.minwidth == 0 then 6 else found.minwidth;
  spoolfile = none;
  closed = [];
  writable = false;
}

-- `writable()`, with what the endpoint says.
unfoldable pub check_writable : Bool → FileSessionWriter → FileSessionWriter × Bool
check_writable ep_writable w =
    let now = if not w.writable then ep_writable else w.writable in
    (record w { writable = now }, now)

abbrev pub Ending : Type 0
Ending = FileSessionWriter × Result (Unit {0})

unfoldable pub close : Option SpoolfileWriter → List SpoolfileWriter → List SpoolfileWriter
close none closed = closed
close (some f) closed = f ∷ closed

-- What follows the attempt to write a record to the spoolfile in progress.
unfoldable pub after_write :
    FileSessionWriter
    → Result (SpoolfileWriter × Bool)
    → (FileSessionWriter → Ending)
    → (FileSessionWriter → Ending)
    → Ending
after_write w (err e) written not_written = (w, err e)
after_write w (ok (f, true)) written not_written = written (record w { spoolfile = some f })
after_write w (ok (f, false)) written not_written = not_written w

-- `_sfw->write(rec)`
unfoldable pub write_current :
    Record
    → FileSessionWriter
    → Option SpoolfileWriter
    → (FileSessionWriter → Ending)
    → (FileSessionWriter → Ending)
    → Ending
unfolding write_spoolfile after_write
write_current r w none written not_written = not_written w
write_current r w (some f) written not_written =
    after_write w (write_spoolfile r f) written not_written

-- The attempt to write a record to a spoolfile that has just been started.
unfoldable pub write_to_new : Record → FileSessionWriter → Ending
unfolding write_current
write_to_new r w =
    write_current r w w.spoolfile (λ w'. (w', ok tt))
      λ w'. (w', err (endpoint_error "failed to write record to new spoolfile"))

-- The session record that the session writer has at the next call.
unfoldable pub session_of : Call → Option Record → Option Record
session_of (session_start r) srec = some r
session_of _ srec = srec

unfoldable pub and_then : Ending → (FileSessionWriter → Ending) → Ending
and_then (w, err e) next = (w, err e)
and_then (w, ok _) next = next w

module _ (create : List ℕ → Result (Unit {0})) (filesize : ℕ) (ep_writable : Bool) where
  -- A new spoolfile with the number, once it is created.
  unfoldable pub opened :
      FileSessionWriter → List ℕ → Result (Unit {0}) → (FileSessionWriter → Ending) → Ending
  unfolding close
  opened w filename (err e) rest = (w, err e)
  opened w filename (ok _) rest = rest (record w {
    spoolfile = some (new_spoolfile_writer filename filesize);
    closed = close w.spoolfile w.closed;
  })

  -- The session record, written to a spoolfile that has just been created.
  unfoldable pub write_first : Record → (FileSessionWriter → Ending) → FileSessionWriter → Ending
  unfolding write_current
  write_first srec rest w =
      write_current srec w w.spoolfile (λ w'. rest (record w' { writable = ep_writable }))
        λ w'. (w', err (endpoint_error "failed to write session record to new spoolfile"))

  -- `_begin_spoolfile`. On an overflow the number is as it was.
  unfoldable pub begin_spoolfile :
      Record → FileSessionWriter → (FileSessionWriter → Ending) → Ending
  unfolding opened write_first
  begin_spoolfile srec w rest =
      if w.next_filenum == ulong_max
      then (w, err (endpoint_error "file number overflow"))
      else (let filename = (from_filenum w.next_filenum w.minwidth).filename in
          opened (record w { next_filenum = w.next_filenum + 1 }) filename (create filename)
            (write_first srec rest))

  -- `_write_record`, where `srec` is the session record.
  unfoldable pub write_record : Record → Record → FileSessionWriter → Ending
  unfolding write_current begin_spoolfile write_to_new
  write_record srec r w =
      write_current r w w.spoolfile (λ w'. (w', ok tt))
        λ w'. begin_spoolfile srec w' (write_to_new r)

  -- `session_record()`
  unfoldable pub write_in_session : Option Record → Record → FileSessionWriter → Ending
  unfolding write_record
  write_in_session none r w = (w, err (horace_error "no session in progress"))
  write_in_session (some srec) r w = write_record srec r w

  -- `sync()` has no effect on what the octet writer has got.
  unfoldable pub sync_spoolfile : Option SpoolfileWriter → FileSessionWriter → Ending
  sync_spoolfile none w = (w, err undefined_behaviour)
  sync_spoolfile (some f) w = (w, ok tt)

  -- The handlers, called with the session record of the session writer.
  unfoldable pub handle : Option Record → Call → FileSessionWriter → Ending
  unfolding begin_spoolfile write_in_session sync_spoolfile
  handle srec (session_start r) w = begin_spoolfile r w λ w'. (w', ok tt)
  handle srec (session_end r) w = write_in_session srec r w
  handle srec (sync r) w = sync_spoolfile w.spoolfile w
  handle srec (signature r) w = write_in_session srec r w
  handle srec (event r) w = write_in_session srec r w
  handle srec (control r) w = (w, ok tt)

  -- Calls of the handlers, as the session writer makes them, up to the first that throws.
  unfoldable pub run : Option Record → List Call → FileSessionWriter → Ending
  unfolding handle session_of and_then
  run srec [] w = (w, ok tt)
  run srec (c ∷ cs) w = and_then (handle srec c w) (run (session_of c srec) cs)
