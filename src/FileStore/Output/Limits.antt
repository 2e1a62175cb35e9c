-- ===== src/FileStore/Output/Limits.antt =====
-- When the session writer of horace+file can start a spoolfile for a record.
use libholmes_horace.Record
use libholmes_horace.Record.{Record}
use libholmes_horace.FileStore.Output.{write_spoolfile, close, SpoolfileWriter, FileSessionWriter}
use libholmes_horace.Common.{ℕ, ◌+◌, ◌≡◌, Bool, false, Option, none, some, List, Result, ok}

-- A spoolfile that has one record.
abbrev pub one_record : List ℕ → ℕ → List ℕ → ℕ → SpoolfileWriter
one_record filename capacity octets size = record {
  filename = filename;
  octets = octets;
  size = size;
  capacity = capacity;
  first = false;
}

-- The spoolfile in progress, if there is one, does not take the record.
abbrev pub Refuses : Option SpoolfileWriter → Record → Type 0
Refuses none r = Unit {0}
Refuses (some f) r = write_spoolfile r f ≡ ok (f, false)

module _ (create : List ℕ → Result (Unit {0})) (filesize : ℕ) (ep_writable : Bool) where
  -- The session writer with a new spoolfile in progress.
  abbrev pub started : FileSessionWriter → SpoolfileWriter → FileSessionWriter
  started w f = record w {
    next_filenum = w.next_filenum + 1;
    spoolfile = some f;
    closed = close w.spoolfile w.closed;
    writable = ep_writable;
  }
