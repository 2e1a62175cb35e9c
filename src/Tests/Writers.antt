-- ===== src/Tests/Writers.antt =====
-- A session writer and a leap second corrector, at concrete inputs.
use libholmes_horace.Attribute.{unsigned_integer, string, timestamp, nil, cons}
use libholmes_horace.Attribute.Ids
use libholmes_horace.Attribute.Lookup
use libholmes_horace.Attribute.Order
use libholmes_horace.Session.Labels.{channel_session, channel_sync}
use libholmes_horace.Record
use libholmes_horace.Writer
use libholmes_horace.Writer.{new_writer, SimpleSessionWriter, Call, sync}
use libholmes_horace.LeapSecond
use libholmes_horace.LeapSecond.{Timespec, Timex, LeapSecondCorrector}
use libholmes_horace.Common.{
  ℕ, ◌+◌, ◌%◌, ◌^◌, ◌≡◌, refl, true, false, none, some, List, [], ◌∷◌, arith, Result, ok,
}

abbrev succeed : Call → Result (Unit {0})
succeed c = ok tt

abbrev source : List ℕ
source = 0x61 ∷ []

abbrev session_record : Record.Record
session_record = record {
  channel = channel_session;
  attributes = cons (string Ids.attrid_source source) (cons (timestamp Ids.attrid_ts 100 5) nil);
}

abbrev event_record : Record.Record
event_record = record { channel = 0; attributes = cons (unsigned_integer Ids.attrid_seqnum 7) nil }

abbrev sync_record : Record.Record
sync_record = record { channel = channel_sync; attributes = nil }

abbrev opened : SimpleSessionWriter
opened = record {
  srcid = source;
  srec = some session_record;
  seqnum = 0;
  ended = false;
  reply = none;
  calls = Writer.session_start session_record ∷ [];
}

abbrev after_event : SimpleSessionWriter
after_event = record opened { seqnum = 8; calls = Writer.event event_record ∷ opened.calls }

abbrev reply : Record.Record
reply = record {
  channel = channel_sync;
  attributes =
      cons (string Ids.attrid_source source)
        (cons (unsigned_integer Ids.attrid_seqnum 8) (cons (timestamp Ids.attrid_ts 100 5) nil));
}

write_session : Writer.write succeed (new_writer source) session_record ≡ (opened, ok tt)
unfolding Writer.write Lookup.find_string Lookup.find_one Lookup.find_loop
    libholmes_horace.Attribute.Equal.octets_eq
write_session = refl

write_event : Writer.write succeed opened event_record ≡ (after_event, ok tt)
unfolding Writer.write Record.is_event Lookup.find_unsigned_integer Lookup.find_one Lookup.find_loop
write_event = refl

made_reply : Writer.sync_reply session_record ((7 + 1) % 2 ^ 64) ≡ ok reply
unfolding Writer.sync_reply Lookup.find_string Lookup.find_one Lookup.find_loop Order.insert
    Order.attrid_less Order.order
made_reply = refl

found_ts : Writer.find_timestamp session_record ≡ ok (timestamp Ids.attrid_ts 100 5)
unfolding Writer.find_timestamp Lookup.find_one Lookup.find_loop
found_ts = refl

found_seqnum : Lookup.find_unsigned_integer event_record.attributes Ids.attrid_seqnum ≡ ok 7
unfolding Lookup.find_unsigned_integer Lookup.find_one Lookup.find_loop
found_seqnum = refl

event_record-is_event : Record.is_event event_record ≡ true
unfolding Record.is_event
event_record-is_event = refl

opened-IsSound : Writer.Discipline.IsSound opened
unfolding Writer.Discipline.is_open
opened-IsSound = record { flag = refl; disciplined = tt; before = λ e. cc }

write-IsSound_example : Writer.Discipline.IsSound (Writer.write succeed opened event_record).0
write-IsSound_example =
    Writer.Discipline.write-IsSound succeed opened event_record refl opened-IsSound

write-again_example : Writer.write succeed opened session_record ≡ (opened, ok tt)
write-again_example =
    Writer.Sync.write-again succeed (new_writer source) opened session_record
      (timestamp Ids.attrid_ts 100 5) refl found_ts write_session

read-write_sync_example :
    (Writer.write succeed after_event sync_record ≡ (
      record after_event { reply = some reply; calls = sync sync_record ∷ after_event.calls },
      ok tt,
    ))
    × (Writer.read (Writer.write succeed after_event sync_record).0 ≡ (
      record after_event { reply = none; calls = sync sync_record ∷ after_event.calls },
      ok reply,
    ))
    × (Lookup.find_unsigned_integer reply.attributes Ids.attrid_seqnum ≡ ok ((7 + 1) % 2 ^ 64))
read-write_sync_example =
    Writer.Reply.read-write_sync succeed opened after_event session_record event_record sync_record
      reply 7 refl event_record-is_event found_seqnum write_event refl refl made_reply

-- The last second of the first day, while a leap second is in progress.
abbrev last_second : Timespec
last_second = record { tv_sec = 86_399; tv_nsec = 500 }

abbrev waiting : Timex
waiting = record {
  state = LeapSecond.time_wait;
  time = record { tv_sec = 86_400; tv_usec = 1 };
  nano = false;
}

abbrev corrector : LeapSecondCorrector
corrector = record {
  index = 1;
  clock_states =
      record { index = 1; time = record { tv_sec = 86_399; tv_usec = 0 }; state = 1 }
      ∷ record { index = 3; time = record { tv_sec = 86_399; tv_usec = 9 }; state = 3 }
      ∷ [];
}

correct-IsLabelling_example :
    LeapSecond.Corrected.IsLabelling last_second
      (LeapSecond.correct corrector waiting last_second).1
correct-IsLabelling_example =
    LeapSecond.Corrected.correct-IsLabelling corrector waiting last_second (omega arith)
      (omega arith) (omega arith)
