-- ===== src/Tests/Messages.antt =====
-- Syslog messages, at concrete texts.
use libholmes_horace.Syslog
use libholmes_horace.Common.Text.{octets_of}
use libholmes_horace.Syslog.Message.{
  priority, version, timestamp, hostname, appname, procid, msgid, message,
}
use libholmes_horace.Common.{ℕ, ◌≡◌, refl, List, [], ◌∷◌, ok}

abbrev old_message : List ℕ
old_message = octets_of "<34>Oct 11 22:14:15 host su: failed"

read_message-IsPassedOn_example :
    Syslog.Preserved.IsPassedOn old_message (Syslog.Message.read_message old_message)
read_message-IsPassedOn_example = Syslog.Preserved.read_message-IsPassedOn old_message

old_fields :
    Syslog.Message.read_message old_message
    ≡ ok (
        priority 34
        ∷ timestamp (octets_of "Oct 11 22:14:15")
        ∷ hostname (octets_of "host")
        ∷ message (octets_of "su: failed")
        ∷ [])
unfolding libholmes_horace.Syslog.Message.read_message Syslog.read_priority octets_of
    libholmes_horace.Common.Text.char_at Syslog.read_decimal Syslog.read_version
    libholmes_horace.Syslog.Fields.read_rfc3164_timestamp Syslog.read_token
old_fields = refl

new_fields :
    Syslog.Message.read_message (octets_of "<165>1 2003 h a p m [x y=\"]\"]z")
    ≡ ok (
        priority 165
        ∷ version 1
        ∷ timestamp (octets_of "2003")
        ∷ hostname (octets_of "h")
        ∷ appname (octets_of "a")
        ∷ procid (octets_of "p")
        ∷ msgid (octets_of "m")
        ∷ message (octets_of "[x y=\"]\"]z")
        ∷ [])
unfolding libholmes_horace.Syslog.Message.read_message Syslog.read_priority octets_of
    libholmes_horace.Common.Text.char_at Syslog.read_decimal Syslog.read_version Syslog.read_token
    libholmes_horace.Syslog.Fields.read_rfc5424_structured_data
new_fields = refl

-- A version number of 2 is lost.
lost_version :
    Syslog.Message.read_message (octets_of "<34>2 text")
    ≡ ok (priority 34 ∷ message (octets_of "text") ∷ [])
unfolding libholmes_horace.Syslog.Message.read_message Syslog.read_priority octets_of
    libholmes_horace.Common.Text.char_at Syslog.read_decimal Syslog.read_version
lost_version = refl

-- An hour of 59 is accepted.
late_hour :
    Syslog.Fields.read_rfc3164_timestamp (octets_of "Jan  1 59:00:00") 0
    ≡ (15, ok (octets_of "Jan  1 59:00:00"))
unfolding libholmes_horace.Syslog.Fields.read_rfc3164_timestamp octets_of
    libholmes_horace.Common.Text.char_at Syslog.read_decimal
late_hour = refl
