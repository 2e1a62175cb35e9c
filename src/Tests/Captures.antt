-- ===== src/Tests/Captures.antt =====
-- A captured session with a signer, at a concrete event.
use libholmes_horace.NewWriter
use libholmes_horace.Attribute.{nil}
use libholmes_horace.Record.{Record}
use libholmes_horace.Session.Labels.{channel_session}
use libholmes_horace.NewWriter.{NewSessionWriter, Answer, accepted}
use libholmes_horace.Common.{ℕ, true, none, some, List, [], ◌∷◌, length}

abbrev willing : List Record → Record → Answer
willing l r = accepted true

abbrev same_octets : List ℕ → List ℕ
same_octets l = l

abbrev short_hash : List ℕ → List ℕ
short_hash l = length l ∷ []

abbrev occurrence : Record
occurrence = record { channel = 0; attributes = nil }

abbrev session_record : Record
session_record = record { channel = channel_session; attributes = nil }

abbrev at_start : NewSessionWriter
at_start = record {
  connected = true;
  srec = none;
  seqnum = 0;
  session_hash = [];
  hattr = none;
  signer = some (record { seqnum = 0; hash = []; pending = none });
  written = [];
  alarms = 0;
}

abbrev begun : NewSessionWriter
begun = (NewWriter.begin_session willing same_octets (some short_hash) session_record at_start).0

abbrev captured_event : NewSessionWriter
captured_event = (NewWriter.write_event willing same_octets (some short_hash) occurrence begun).0
