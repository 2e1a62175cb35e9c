-- ===== src/PacketBuilder/Numbers.antt =====
-- The numbers of attributes that the constructor in horace/packet_record_builder.cc gets.
use libholmes_horace.Attribute.Ids
use libholmes_horace.Builder.Defined.{numbered}
use libholmes_horace.Builder.{SessionBuilder}
use libholmes_horace.Common.Text.{octets_of}
use libholmes_horace.PacketBuilder.{new_packet_record_builder, PacketRecordBuilder}
use libholmes_horace.Common.{ℕ, ◌+◌, ◌^◌, ◌<◌, ◌≡◌, ◌∙◌, [], arith, bind-eq-ok, Result, ok}

-- The attribute numbers are as the constructor has got them from a session.
pub record HasIds (p : PacketRecordBuilder) : Type 0 where
  pub is_user : p.rpt_id < 2 ^ 31
  pub in_order : (p.pkt_id < p.origlen_id) × (p.origlen_id < p.rpt_id)

ids_in_order :
    (s s' : SessionBuilder) (p : PacketRecordBuilder) (packet len repeat channel : ℕ)
    → (len ≡ packet + 1) × (repeat ≡ len + 1) × (repeat < 2 ^ 31)
    → ◌≡◌ {A = Result (SessionBuilder × PacketRecordBuilder)}
        (ok (
          s,
          record {
            channel = channel;
            pkt_id = packet;
            origlen_id = len;
            rpt_id = repeat;
            pending = [];
          },
        ))
        (ok (s', p))
    → HasIds p
ids_in_order s s' p packet len repeat channel h e =
    let pkt_id : packet ≡ p.pkt_id = cc in
    let origlen_id : len ≡ p.origlen_id = cc in
    let rpt_id : repeat ≡ p.rpt_id = cc in
    record {
      is_user = omega (arith, h, rpt_id);
      in_order = (omega (arith, h, pkt_id, origlen_id), omega (arith, h, rpt_id, origlen_id));
    }

-- The constructor gets three numbers of attributes, one after the other, from the session.
pub new_packet_record_builder-HasIds :
    (session session' : SessionBuilder) (channel : ℕ) (p : PacketRecordBuilder)
    → session.attr_count < 2 ^ 31
    → new_packet_record_builder session channel ≡ ok (session', p)
    → HasIds p
unfolding new_packet_record_builder
new_packet_record_builder-HasIds session session' channel p low e =
    let (v1, e1, f1) = bind-eq-ok _ _ e in
    let (v2, e2, f2) = bind-eq-ok _ _ f1 in
    let (v3, e3, f3) = bind-eq-ok _ _ f2 in
    let first = numbered session v1.0 (octets_of "packet") Ids.type_binary v1.1 low e1 in
    let second =
      numbered v1.0 v2.0 (octets_of "packet_len") Ids.type_unsigned_integer v2.1 first.2 e2 in
    let third =
      numbered v2.0 v3.0 (octets_of "repeat") Ids.type_unsigned_integer v3.1 second.2 e3 in
    ids_in_order v3.0 session' p v1.1 v2.1 v3.1 channel
      (second.0 ∙ first.1, third.0 ∙ second.1, omega (arith, third.1, third.2)) f3
