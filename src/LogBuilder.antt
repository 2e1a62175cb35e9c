-- ===== src/LogBuilder.antt =====
-- horace/log_record_builder.{h,cc}: the record of a log message. At most one attribute of each kind
-- is added to a record, as the class asks for: the list refers to members of the builder, which a
-- second attribute of the kind would change.
pub mod Numbers
pub mod Built
use libholmes_horace.Attribute.{Attribute, unsigned_integer, string, AttributeList, nil}
use libholmes_horace.Attribute.Ids
use libholmes_horace.Attribute.Order.{insert}
use libholmes_horace.Record.{Record}
use libholmes_horace.Builder.{define_attribute, SessionBuilder}
use libholmes_horace.Syslog.Message.{
  Call, priority, version, hostname, appname, procid, msgid, structured_data, message,
}
use libholmes_horace.Common.Text.{octets_of}
use libholmes_horace.Common.{ℕ, List, [], ◌∷◌, ◌>>=◌, Result, ok}

-- The numbers of the attributes.
pub record LogIds : Type 0 where
  pub priority_id : ℕ
  pub version_id : ℕ
  pub timestamp_id : ℕ
  pub hostname_id : ℕ
  pub appname_id : ℕ
  pub procid_id : ℕ
  pub msgid_id : ℕ
  pub sd_id : ℕ
  pub message_id : ℕ

pub record LogRecordBuilder : Type 0 where
  pub channel : ℕ
  pub ids : LogIds
  pub attrs : AttributeList

unfoldable pub new_log_record_builder :
    SessionBuilder → ℕ → Result (SessionBuilder × LogRecordBuilder)
unfolding define_attribute octets_of
new_log_record_builder s0 channel = do
  (s1, priority_id) ← define_attribute s0 (octets_of "syslog_priority") Ids.type_unsigned_integer
  (s2, version_id) ← define_attribute s1 (octets_of "syslog_version") Ids.type_unsigned_integer
  (s3, timestamp_id) ← define_attribute s2 (octets_of "syslog_timestamp") Ids.type_string
  (s4, hostname_id) ← define_attribute s3 (octets_of "hostname") Ids.type_string
  (s5, appname_id) ← define_attribute s4 (octets_of "syslog_appname") Ids.type_string
  (s6, procid_id) ← define_attribute s5 (octets_of "syslog_procid") Ids.type_string
  (s7, msgid_id) ← define_attribute s6 (octets_of "syslog_msgid") Ids.type_string
  (s8, sd_id) ← define_attribute s7 (octets_of "syslog_sd") Ids.type_string
  (s9, message_id) ← define_attribute s8 (octets_of "message") Ids.type_string
  ok (
    s9,
    record {
      channel = channel;
      ids = record {
        priority_id = priority_id;
        version_id = version_id;
        timestamp_id = timestamp_id;
        hostname_id = hostname_id;
        appname_id = appname_id;
        procid_id = procid_id;
        msgid_id = msgid_id;
        sd_id = sd_id;
        message_id = message_id;
      };
      attrs = nil;
    },
  )

unfoldable pub id_of : LogIds → Call → ℕ
id_of ids (priority n) = ids.priority_id
id_of ids (version n) = ids.version_id
id_of ids (Call.timestamp s) = ids.timestamp_id
id_of ids (hostname s) = ids.hostname_id
id_of ids (appname s) = ids.appname_id
id_of ids (procid s) = ids.procid_id
id_of ids (msgid s) = ids.msgid_id
id_of ids (structured_data s) = ids.sd_id
id_of ids (message s) = ids.message_id

-- The attribute that a call adds; numbers are unsigned ints.
unfoldable pub attribute_of : LogIds → Call → Attribute
attribute_of ids (priority n) = unsigned_integer ids.priority_id n
attribute_of ids (version n) = unsigned_integer ids.version_id n
attribute_of ids (Call.timestamp s) = string ids.timestamp_id s
attribute_of ids (hostname s) = string ids.hostname_id s
attribute_of ids (appname s) = string ids.appname_id s
attribute_of ids (procid s) = string ids.procid_id s
attribute_of ids (msgid s) = string ids.msgid_id s
attribute_of ids (structured_data s) = string ids.sd_id s
attribute_of ids (message s) = string ids.message_id s

unfoldable pub add : LogRecordBuilder → Call → LogRecordBuilder
unfolding attribute_of
add b c = record b { attrs = insert (attribute_of b.ids c) b.attrs }

unfoldable pub add_calls : LogRecordBuilder → List Call → LogRecordBuilder
unfolding add
add_calls b [] = b
add_calls b (c ∷ cs) = add_calls (add b c) cs

-- `sec` and `nsec` are the time of the call. The list is moved to the record.
unfoldable pub build : ℕ → ℕ → LogRecordBuilder → LogRecordBuilder × Record
build sec nsec b = (
  record b { attrs = nil },
  record {
    channel = b.channel;
    attributes = insert (Attribute.timestamp Ids.attrid_ts sec nsec) b.attrs;
  },
)
