-- ===== src/LogBuilder/Numbers.antt =====
-- The numbers of attributes that the constructor in horace/log_record_builder.cc gets.
use libholmes_horace.Attribute.{attrid, nil}
use libholmes_horace.Attribute.Ids
use libholmes_horace.Builder.{define_attribute, SessionBuilder}
use libholmes_horace.Builder.Defined.{numbered}
use libholmes_horace.Syslog.Message.{
  Call, priority, version, hostname, appname, procid, msgid, structured_data, message,
}
use libholmes_horace.LogBuilder.{
  new_log_record_builder, id_of, attribute_of, LogIds, LogRecordBuilder,
}
use libholmes_horace.Common.Text.{octets_of}
use libholmes_horace.Common.{
  ℕ, ◌+◌, ◌^◌, ◌≤◌, ◌<◌, ◌≡◌, refl, ◌∙◌, List, arith, ◌>>=◌, bind-eq-ok, Result, ok,
}

-- The kind of a call, in the order of the numbers.
unfoldable pub kind : Call → ℕ
kind (priority x) = 0
kind (version x) = 1
kind (Call.timestamp x) = 2
kind (hostname x) = 3
kind (appname x) = 4
kind (procid x) = 5
kind (msgid x) = 6
kind (structured_data x) = 7
kind (message x) = 8

pub attrid-attribute_of : (ids : LogIds) (c : Call) → attrid (attribute_of ids c) ≡ id_of ids c
unfolding attribute_of id_of
attrid-attribute_of ids (priority x) = refl
attrid-attribute_of ids (version x) = refl
attrid-attribute_of ids (Call.timestamp x) = refl
attrid-attribute_of ids (hostname x) = refl
attrid-attribute_of ids (appname x) = refl
attrid-attribute_of ids (procid x) = refl
attrid-attribute_of ids (msgid x) = refl
attrid-attribute_of ids (structured_data x) = refl
attrid-attribute_of ids (message x) = refl

-- The numbers follow each other.
pub record HasNumbers (ids : LogIds) : Type 0 where
  pub first : ℕ
  pub are_user : first + 8 < 2 ^ 31
  pub number : (c : Call) → id_of ids c ≡ first + kind c

kind_le : (c : Call) → kind c ≤ 8
unfolding kind
kind_le (priority x) = omega arith
kind_le (version x) = omega arith
kind_le (Call.timestamp x) = omega arith
kind_le (hostname x) = omega arith
kind_le (appname x) = omega arith
kind_le (procid x) = omega arith
kind_le (msgid x) = omega arith
kind_le (structured_data x) = omega arith
kind_le (message x) = omega arith

-- The numbers are not reserved ones.
pub id_of_lt : (ids : LogIds) (c : Call) → HasNumbers ids → id_of ids c < 2 ^ 31
id_of_lt ids c h = omega (arith, h.number c, h.are_user, kind_le c)

numbers :
    (ids : LogIds) (first : ℕ)
    → ids.priority_id ≡ first + 0
    → ids.version_id ≡ first + 1
    → ids.timestamp_id ≡ first + 2
    → ids.hostname_id ≡ first + 3
    → ids.appname_id ≡ first + 4
    → ids.procid_id ≡ first + 5
    → ids.msgid_id ≡ first + 6
    → ids.sd_id ≡ first + 7
    → ids.message_id ≡ first + 8
    → (c : Call) → id_of ids c ≡ first + kind c
unfolding id_of kind
numbers ids first h0 h1 h2 h3 h4 h5 h6 h7 h8 (priority x) = h0
numbers ids first h0 h1 h2 h3 h4 h5 h6 h7 h8 (version x) = h1
numbers ids first h0 h1 h2 h3 h4 h5 h6 h7 h8 (Call.timestamp x) = h2
numbers ids first h0 h1 h2 h3 h4 h5 h6 h7 h8 (hostname x) = h3
numbers ids first h0 h1 h2 h3 h4 h5 h6 h7 h8 (appname x) = h4
numbers ids first h0 h1 h2 h3 h4 h5 h6 h7 h8 (procid x) = h5
numbers ids first h0 h1 h2 h3 h4 h5 h6 h7 h8 (msgid x) = h6
numbers ids first h0 h1 h2 h3 h4 h5 h6 h7 h8 (structured_data x) = h7
numbers ids first h0 h1 h2 h3 h4 h5 h6 h7 h8 (message x) = h8

ids_in_order :
    (s s' : SessionBuilder) (b : LogRecordBuilder) (channel i0 i1 i2 i3 i4 i5 i6 i7 i8 : ℕ)
    → ◌≡◌ {A = Result (SessionBuilder × LogRecordBuilder)}
        (ok (
          s,
          record {
            channel = channel;
            ids = record {
              priority_id = i0;
              version_id = i1;
              timestamp_id = i2;
              hostname_id = i3;
              appname_id = i4;
              procid_id = i5;
              msgid_id = i6;
              sd_id = i7;
              message_id = i8;
            };
            attrs = nil;
          },
        ))
        (ok (s', b))
    → (i1 ≡ i0 + 1)
      × (i2 ≡ i1 + 1)
      × (i3 ≡ i2 + 1)
      × (i4 ≡ i3 + 1)
      × (i5 ≡ i4 + 1)
      × (i6 ≡ i5 + 1)
      × (i7 ≡ i6 + 1)
      × (i8 ≡ i7 + 1)
    → i8 < 2 ^ 31
    → HasNumbers b.ids
ids_in_order s s' b channel i0 i1 i2 i3 i4 i5 i6 i7 i8 e h low =
    let e0 : i0 ≡ b.ids.priority_id = cc in
    let e1 : i1 ≡ b.ids.version_id = cc in
    let e2 : i2 ≡ b.ids.timestamp_id = cc in
    let e3 : i3 ≡ b.ids.hostname_id = cc in
    let e4 : i4 ≡ b.ids.appname_id = cc in
    let e5 : i5 ≡ b.ids.procid_id = cc in
    let e6 : i6 ≡ b.ids.msgid_id = cc in
    let e7 : i7 ≡ b.ids.sd_id = cc in
    let e8 : i8 ≡ b.ids.message_id = cc in
    record {
      first = i0;
      are_user = omega (arith, h, low);
      number =
          numbers b.ids i0 (omega (arith, h, e0)) (omega (arith, h, e1)) (omega (arith, h, e2))
            (omega (arith, h, e3)) (omega (arith, h, e4)) (omega (arith, h, e5))
            (omega (arith, h, e6)) (omega (arith, h, e7)) (omega (arith, h, e8));
    }

-- An attribute is defined, and the rest of the constructor runs.
defined_then :
    {A Q : Type 0} (s : SessionBuilder) (label : List ℕ) (type : ℕ)
    (rest : SessionBuilder × ℕ → Result A) (r : A)
    → s.attr_count < 2 ^ 31
    → define_attribute s label type >>= rest ≡ ok r
    → ((s' : SessionBuilder) (id : ℕ)
        → s'.attr_count ≡ id + 1
        → s'.attr_count < 2 ^ 31
        → id ≡ s.attr_count
        → rest (s', id) ≡ ok r
        → Q)
    → Q
defined_then s label type rest r low e k =
    let (v, made, e') = bind-eq-ok _ _ e in
    let n = numbered s v.0 label type v.1 low made in k v.0 v.1 n.1 n.2 n.0 e'

pub new_log_record_builder-HasNumbers :
    (session session' : SessionBuilder) (channel : ℕ) (b : LogRecordBuilder)
    → session.attr_count < 2 ^ 31
    → new_log_record_builder session channel ≡ ok (session', b)
    → HasNumbers b.ids
unfolding new_log_record_builder
new_log_record_builder-HasNumbers session session' channel b low e =
    defined_then session (octets_of "syslog_priority") Ids.type_unsigned_integer _ _ low e
      λ s0 i0 n0 l0 m0 e0.
        defined_then s0 (octets_of "syslog_version") Ids.type_unsigned_integer _ _ l0 e0
          λ s1 i1 n1 l1 m1 e1.
            defined_then s1 (octets_of "syslog_timestamp") Ids.type_string _ _ l1 e1
              λ s2 i2 n2 l2 m2 e2.
                defined_then s2 (octets_of "hostname") Ids.type_string _ _ l2 e2
                  λ s3 i3 n3 l3 m3 e3.
                    defined_then s3 (octets_of "syslog_appname") Ids.type_string _ _ l3 e3
                      λ s4 i4 n4 l4 m4 e4.
                        defined_then s4 (octets_of "syslog_procid") Ids.type_string _ _ l4 e4
                          λ s5 i5 n5 l5 m5 e5.
                            defined_then s5 (octets_of "syslog_msgid") Ids.type_string _ _ l5 e5
                              λ s6 i6 n6 l6 m6 e6.
                                defined_then s6 (octets_of "syslog_sd") Ids.type_string _ _ l6 e6
                                  λ s7 i7 n7 l7 m7 e7.
                                    defined_then s7 (octets_of "message") Ids.type_string _ _ l7 e7
                                      λ s8 i8 n8 l8 m8 e8.
                                        ids_in_order s8 session' b channel i0 i1 i2 i3 i4 i5 i6 i7
                                          i8 e8
                                          (
                                            m1 ∙ n0,
                                            m2 ∙ n1,
                                            m3 ∙ n2,
                                            m4 ∙ n3,
                                            m5 ∙ n4,
                                            m6 ∙ n5,
                                            m7 ∙ n6,
                                            m8 ∙ n7,
                                          )
                                          (omega (arith, n8, l8))
