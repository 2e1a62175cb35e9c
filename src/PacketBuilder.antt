-- ===== src/PacketBuilder.antt =====
-- horace/packet_record_builder.{h,cc}: the records of a captured packet. `content` gives the octets
-- that stand from the pointer on, in the number that is asked for, and `pending` the records in the
-- order in which `next` returns them. A timespec is a pair of seconds and nanoseconds. The attributes
-- are values here: the program keeps pointers to members of the builder, and a record is used before
-- the next one is built.
pub mod Numbers
pub mod Delivered
use libholmes_horace.Attribute.{unsigned_integer, binary, timestamp, AttributeList, nil}
use libholmes_horace.Attribute.Ids
use libholmes_horace.Attribute.Order.{insert}
use libholmes_horace.Record.{Record}
use libholmes_horace.Builder.{define_attribute, SessionBuilder}
use libholmes_horace.Common.Text.{octets_of}
use libholmes_horace.Common.{
  ℕ, ◌^◌, not, ◌&&◌, Option, none, some, List, [], ◌∷◌, ltb, leb, ◌==◌, if◌then◌else◌, throw_if,
  ◌>>=◌, ◌>>◌, horace_error, Result, err, ok,
}

pub record PacketRecordBuilder : Type 0 where
  pub channel : ℕ
  pub pkt_id : ℕ
  pub origlen_id : ℕ
  pub rpt_id : ℕ
  pub pending : List Record

unfoldable pub new_packet_record_builder :
    SessionBuilder → ℕ → Result (SessionBuilder × PacketRecordBuilder)
unfolding define_attribute octets_of
new_packet_record_builder session channel = do
  (with_packet, packet) ← define_attribute session (octets_of "packet") Ids.type_binary
  (with_len, len) ← define_attribute with_packet (octets_of "packet_len") Ids.type_unsigned_integer
  (with_repeat, repeat) ← define_attribute with_len (octets_of "repeat") Ids.type_unsigned_integer
  ok (
    with_repeat,
    record { channel = channel; pkt_id = packet; origlen_id = len; rpt_id = repeat; pending = [] },
  )

-- `timestamp_attribute(_ts_attr.attrid(), *ts)`, inserted if there is a timestamp.
unfoldable pub insert_ts : Option (ℕ × ℕ) → AttributeList → Result AttributeList
insert_ts none attrs = ok attrs
insert_ts (some (sec, nsec)) attrs =
    throw_if (leb 2000000000 nsec && ltb nsec (2 ^ 63))
      (horace_error "invalid nsec field in timestamp attribute")
    >> ok (insert (timestamp Ids.attrid_ts sec nsec) attrs)

-- `_ts_attr`, which was set before, inserted if there is a timestamp.
unfoldable pub insert_ts_again : Option (ℕ × ℕ) → AttributeList → AttributeList
insert_ts_again none attrs = attrs
insert_ts_again (some (sec, nsec)) attrs = insert (timestamp Ids.attrid_ts sec nsec) attrs

unfoldable pub insert_origlen : ℕ → ℕ → ℕ → AttributeList → AttributeList
insert_origlen id origlen snaplen attrs =
    if not (snaplen == origlen) then insert (unsigned_integer id origlen) attrs else attrs

-- A record of the channel, on top of those that wait.
unfoldable pub push : AttributeList → PacketRecordBuilder → PacketRecordBuilder
push attrs p = record p { pending = record { channel = p.channel; attributes = attrs } ∷ p.pending }

abbrev pub emptied : PacketRecordBuilder → PacketRecordBuilder
emptied p = record p { pending = [] }

unfoldable pub push_dropped :
    ℕ → AttributeList → PacketRecordBuilder → PacketRecordBuilder × Result (Unit {0})
unfolding push
push_dropped dropped attrs p = (push (insert (unsigned_integer p.rpt_id dropped) attrs) p, ok tt)

-- An exception of the timestamp leaves nothing that waits.
unfoldable pub from_ts :
    PacketRecordBuilder
    → Result AttributeList
    → (AttributeList → PacketRecordBuilder × Result (Unit {0}))
    → PacketRecordBuilder × Result (Unit {0})
from_ts p (err e) rest = (emptied p, err e)
from_ts p (ok attrs) rest = rest attrs

unfoldable pub build_packet :
    Option (ℕ × ℕ)
    → (ℕ → List ℕ)
    → ℕ
    → ℕ
    → ℕ
    → PacketRecordBuilder
    → PacketRecordBuilder × Result (Unit {0})
unfolding insert_ts insert_ts_again insert_origlen push push_dropped from_ts
build_packet ts content origlen snaplen dropped p = from_ts p (insert_ts ts nil) λ attrs.
    let with_packet = insert (binary p.pkt_id (content snaplen)) attrs in
    let packet = push (insert_origlen p.origlen_id origlen snaplen with_packet) (emptied p) in
    if not (dropped == 0)
    then push_dropped dropped (insert_ts_again ts nil) packet
    else (packet, ok tt)

unfoldable pub build_dropped :
    Option (ℕ × ℕ) → ℕ → PacketRecordBuilder → PacketRecordBuilder × Result (Unit {0})
unfolding insert_ts push_dropped from_ts
build_dropped ts dropped p =
    if not (dropped == 0)
    then from_ts p (insert_ts ts nil) (λ attrs. push_dropped dropped attrs (emptied p))
    else (emptied p, ok tt)

unfoldable pub take_pending :
    PacketRecordBuilder → List Record → PacketRecordBuilder × Option Record
take_pending p [] = (p, none)
take_pending p (r ∷ rs) = (record p { pending = rs }, some r)

unfoldable pub next : PacketRecordBuilder → PacketRecordBuilder × Option Record
unfolding take_pending
next p = take_pending p p.pending
