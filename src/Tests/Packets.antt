-- ===== src/Tests/Packets.antt =====
-- Records of a captured packet, at a concrete session and packet.
use libholmes_horace.Attribute.{nil}
use libholmes_horace.Builder.{SessionBuilder}
use libholmes_horace.Record.{Record}
use libholmes_horace.PacketBuilder.Delivered
use libholmes_horace.PacketBuilder.{new_packet_record_builder, build_packet, PacketRecordBuilder}
use libholmes_horace.Common.{ℕ, ◌≡◌, refl, some, List, [], ◌∷◌, ◌++◌, arith, take, Result, err, ok}

-- A session with five attributes.
abbrev five_attributes : SessionBuilder
five_attributes = record { attributes = nil; attr_count = 5; chan_count = 0 }

abbrev value_or_nothing :
    Result (SessionBuilder × PacketRecordBuilder) → SessionBuilder × PacketRecordBuilder
value_or_nothing (ok made) = made
value_or_nothing (err e) =
    (five_attributes, record { channel = 0; pkt_id = 0; origlen_id = 0; rpt_id = 0; pending = [] })

abbrev channel_two : SessionBuilder × PacketRecordBuilder
channel_two = value_or_nothing (new_packet_record_builder five_attributes 2)

-- The octets at the pointer.
abbrev content : ℕ → List ℕ
content n = take n (1 ∷ 2 ∷ 3 ∷ 4 ∷ 5 ∷ 6 ∷ [])

channel_two-made : new_packet_record_builder five_attributes 2 ≡ ok channel_two
unfolding new_packet_record_builder
channel_two-made = refl

abbrev one_waiting : List Record
one_waiting = record { channel = 2; attributes = nil } ∷ []

-- Four octets of a packet of six, behind three that were dropped, where a record still waits.
build_packet-Delivers_example :
    let r =
      build_packet (some (9, 8)) content 6 4 3 (record channel_two.1 { pending = one_waiting }) in
    (r.1 ≡ ok tt)
    × Delivered.Delivers r.0 (
        Delivered.lost channel_two.1 (some (9, 8)) 3
        ++ (Delivered.captured channel_two.1 (some (9, 8)) content 6 4 ∷ []))
build_packet-Delivers_example =
    Delivered.build_packet-Delivers five_attributes channel_two.0 2 channel_two.1 (omega arith)
      channel_two-made one_waiting (some (9, 8)) content 6 4 3 (omega arith)
