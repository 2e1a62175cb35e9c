-- ===== src/PacketBuilder/Delivered.antt =====
-- The records that `next` of horace/packet_record_builder.cc returns after a packet was built.
use libholmes_horace.Attribute.{
  attrid, Attribute, unsigned_integer, binary, timestamp, AttributeList, nil, cons,
}
use libholmes_horace.Attribute.Ids
use libholmes_horace.Attribute.Order.{attrid_less, insert, Precedes, attrid_less_iff}
use libholmes_horace.Record.{Record}
use libholmes_horace.Builder.{SessionBuilder}
use libholmes_horace.PacketBuilder.Numbers.{new_packet_record_builder-HasIds, HasIds}
use libholmes_horace.PacketBuilder.{
  new_packet_record_builder, insert_ts, insert_ts_again, insert_origlen, push, push_dropped,
  from_ts, build_packet, take_pending, next, PacketRecordBuilder,
}
use libholmes_horace.Common.{
  ℕ, ◌^◌, ◌≤◌, ◌<◌, ◌≡◌, refl, ap, ◌∙◌, ◌⊎◌, inl, inr, false, Option, none, some, List, [], ◌∷◌,
  ◌++◌, arith, leb, ◌==◌, if◌then◌else◌, Bool-cases, ok,
}

-- Called again and again, `next` returns these records, and then none.
pub data Delivers : PacketRecordBuilder → List Record → Type 0 where
  no_more : (p : PacketRecordBuilder) → (next p).1 ≡ none → Delivers p []
  one_more :
      (p : PacketRecordBuilder) (r : Record) (rs : List Record)
      → (next p).1 ≡ some r
      → Delivers (next p).0 rs
      → Delivers p (r ∷ rs)

-- The attributes of a record of the packet and of one of the loss, in canonical order.
pub stamp : Option (ℕ × ℕ) → AttributeList → AttributeList
stamp none attrs = attrs
stamp (some (sec, nsec)) attrs = cons (timestamp Ids.attrid_ts sec nsec) attrs

insert_behind :
    (a b : Attribute) (l : AttributeList)
    → attrid a < 2 ^ 31
    → attrid b < 2 ^ 32
    → (2 ^ 31 ≤ attrid b) ⊎ (attrid b ≤ attrid a)
    → insert a (cons b l) ≡ cons b (insert a l)
unfolding insert
insert_behind a b l low int behind = elim (Bool-cases (attrid_less a b)) [
  | inl t ↦
      let before : Precedes (attrid a) (attrid b) =
        (attrid_less_iff a b (omega (arith, low)) int).0 t in
      absurd (ground arith)
  | inr t ↦ rw (t) refl
]

taken : (p : PacketRecordBuilder) (rs : List Record) → Delivers (record p { pending = rs }) rs
unfolding next take_pending
taken p [] = no_more _ refl
taken p (r ∷ rs) = one_more _ r rs refl (taken p rs)

abbrev pub IsTime : Option (ℕ × ℕ) → Type 0
IsTime none = Unit {0}
IsTime (some (sec, nsec)) = nsec < 2000000000

insert_ts-stamp : (ts : Option (ℕ × ℕ)) → IsTime ts → insert_ts ts nil ≡ ok (stamp ts nil)
unfolding insert_ts stamp insert
insert_ts-stamp none h = refl
insert_ts-stamp (some (sec, nsec)) h =
    let small : leb 2000000000 nsec ≡ false = ground (arith, h) in rw (small) refl

insert_ts_again-stamp : (ts : Option (ℕ × ℕ)) → insert_ts_again ts nil ≡ stamp ts nil
unfolding insert_ts_again stamp insert
insert_ts_again-stamp none = refl
insert_ts_again-stamp (some (sec, nsec)) = refl

-- An attribute with a number of a user goes behind the timestamp.
insert-stamp :
    (a : Attribute) (ts : Option (ℕ × ℕ)) (l : AttributeList)
    → attrid a < 2 ^ 31
    → insert a (stamp ts l) ≡ stamp ts (insert a l)
unfolding stamp
insert-stamp a none l low = refl
insert-stamp a (some (sec, nsec)) l low =
    insert_behind a (timestamp Ids.attrid_ts sec nsec) l low (omega arith) (inl (omega arith))

-- The record of the packet: `snaplen` octets of it, and its length where it is not that.
unfoldable pub captured : PacketRecordBuilder → Option (ℕ × ℕ) → (ℕ → List ℕ) → ℕ → ℕ → Record
unfolding stamp
captured p ts content origlen snaplen = record {
  channel = p.channel;
  attributes = stamp ts (
      cons (binary p.pkt_id (content snaplen))
        (if snaplen == origlen then nil else cons (unsigned_integer p.origlen_id origlen) nil));
}

-- The record of the loss, where there is one.
unfoldable pub lost : PacketRecordBuilder → Option (ℕ × ℕ) → ℕ → List Record
unfolding stamp
lost p ts dropped =
    if dropped == 0
    then []
    else record {
      channel = p.channel;
      attributes = stamp ts (cons (unsigned_integer p.rpt_id dropped) nil);
    }
      ∷ []

packet_attributes :
    (p : PacketRecordBuilder) (ts : Option (ℕ × ℕ)) (content : List ℕ) (origlen snaplen : ℕ)
    → HasIds p
    → insert_origlen p.origlen_id origlen snaplen (insert (binary p.pkt_id content) (stamp ts nil))
      ≡ stamp ts (
          cons
            (binary p.pkt_id content)
            (if snaplen == origlen then nil else cons (unsigned_integer p.origlen_id origlen) nil))
unfolding insert_origlen insert
packet_attributes p ts content origlen snaplen h =
    let high = h.is_user in
    let in_order = h.in_order in
    let packet = insert-stamp (binary p.pkt_id content) ts nil (omega (arith, high, in_order)) in
    elim (Bool-cases (snaplen == origlen)) [
      | inl t ↦ rw (t, packet) refl
      | inr t ↦
          let len : Attribute = unsigned_integer p.origlen_id origlen in
          rw (t, packet)
            (insert-stamp len ts (cons (binary p.pkt_id content) nil)
                (omega (arith, high, in_order))
              ∙ ap (stamp ts) (
                  insert_behind len (binary p.pkt_id content) nil (omega (arith, high, in_order))
                    (omega (arith, high, in_order)) (inr (omega (arith, in_order)))))
    ]

built :
    (p : PacketRecordBuilder) (ts : Option (ℕ × ℕ)) (content : ℕ → List ℕ)
    (origlen snaplen dropped : ℕ)
    → HasIds p
    → IsTime ts
    → build_packet ts content origlen snaplen dropped p ≡ (
      record p { pending = lost p ts dropped ++ (captured p ts content origlen snaplen ∷ []) },
      ok tt,
    )
unfolding build_packet captured lost push push_dropped from_ts insert
built p ts content origlen snaplen dropped h k =
    let stamped = insert_ts-stamp ts k in
    let again = insert_ts_again-stamp ts in
    let attrs = packet_attributes p ts (content snaplen) origlen snaplen h in
    let loss : insert (unsigned_integer p.rpt_id dropped) (stamp ts nil)
        ≡ stamp ts (cons (unsigned_integer p.rpt_id dropped) nil) =
      insert-stamp (unsigned_integer p.rpt_id dropped) ts nil h.is_user in
    elim (Bool-cases (dropped == 0)) [
      | inl t ↦ rw (stamped, t, attrs) refl
      | inr t ↦ rw (stamped, t, again, attrs, loss) refl
    ]

-- A builder of packet records is made for a session with fewer than 2 ^ 31 attributes, and a packet
-- is built with a timestamp of less than two seconds of nanoseconds, or none, whatever still waits.
-- Then `next` returns a record of the loss, where packets were dropped, and then one of the packet,
-- each with the timestamp, and then none. The record of the packet has as many octets of it as the
-- fourth argument says, and the third argument as the length, where it is another number.
pub build_packet-Delivers :
    (session session' : SessionBuilder) (channel : ℕ) (p : PacketRecordBuilder)
    → session.attr_count < 2 ^ 31
    → new_packet_record_builder session channel ≡ ok (session', p)
    → (waiting : List Record) (ts : Option (ℕ × ℕ)) (content : ℕ → List ℕ)
      (origlen snaplen dropped : ℕ)
    → IsTime ts
    → let r = build_packet ts content origlen snaplen dropped (record p { pending = waiting }) in
      (r.1 ≡ ok tt)
      × Delivers r.0 (lost p ts dropped ++ (captured p ts content origlen snaplen ∷ []))
unfolding captured lost
build_packet-Delivers session session' channel p low e waiting ts content origlen snaplen dropped
      k =
    let h = new_packet_record_builder-HasIds session session' channel p low e in
    let ids : HasIds (record p { pending = waiting }) = record {
      is_user = h.is_user;
      in_order = h.in_order;
    } in
    let all = built (record p { pending = waiting }) ts content origlen snaplen dropped ids k in
    rw (all) (refl, taken p _)
