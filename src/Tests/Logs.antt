-- ===== src/Tests/Logs.antt =====
-- The record of a log message, at a concrete session and message.
use libholmes_horace.Attribute.Ids
use libholmes_horace.Attribute.Lookup.{find_one}
use libholmes_horace.LogBuilder.Built
use libholmes_horace.LogBuilder.{
  new_log_record_builder, id_of, attribute_of, add_calls, build, LogRecordBuilder,
}
use libholmes_horace.Syslog.Message.{Call, priority, hostname, message}
use libholmes_horace.Attribute.{Attribute, nil}
use libholmes_horace.Builder.{SessionBuilder}
use libholmes_horace.Common.{◌≡◌, refl, List, [], ◌∷◌, arith, All, Result, err, ok}

abbrev five_attributes : SessionBuilder
five_attributes = record { attributes = nil; attr_count = 5; chan_count = 0 }

abbrev empty_builder : LogRecordBuilder
empty_builder = record {
  channel = 0;
  ids = record {
    priority_id = 0;
    version_id = 0;
    timestamp_id = 0;
    hostname_id = 0;
    appname_id = 0;
    procid_id = 0;
    msgid_id = 0;
    sd_id = 0;
    message_id = 0;
  };
  attrs = nil;
}

abbrev value_or_nothing :
    Result (SessionBuilder × LogRecordBuilder) → SessionBuilder × LogRecordBuilder
value_or_nothing (ok made) = made
value_or_nothing (err e) = (five_attributes, empty_builder)

abbrev channel_two : SessionBuilder × LogRecordBuilder
channel_two = value_or_nothing (new_log_record_builder five_attributes 2)

channel_two-made : new_log_record_builder five_attributes 2 ≡ ok channel_two
unfolding new_log_record_builder
channel_two-made = refl

abbrev three_calls : List Call
three_calls = message (104 ∷ 105 ∷ []) ∷ priority 34 ∷ hostname (104 ∷ []) ∷ []

three_calls-AreApart : Built.AreApart three_calls
unfolding libholmes_horace.LogBuilder.Numbers.kind
three_calls-AreApart = ((refl, (refl, tt)), ((refl, tt), (tt, tt)))

build-add_calls_example :
    let b = channel_two.1 in
    let r = build 9 8 (add_calls (record b { attrs = nil }) three_calls) in
    (r.1.channel ≡ b.channel)
    × (find_one r.1.attributes Ids.attrid_ts ≡ ok (Attribute.timestamp Ids.attrid_ts 9 8))
    × All (λ c. find_one r.1.attributes (id_of b.ids c) ≡ ok (attribute_of b.ids c)) three_calls
    × (r.0.channel ≡ b.channel)
    × (r.0.ids ≡ b.ids)
    × (r.0.attrs ≡ nil)
build-add_calls_example =
    Built.build-add_calls five_attributes channel_two.0 2 channel_two.1 three_calls 9 8
      (omega arith) channel_two-made three_calls-AreApart
