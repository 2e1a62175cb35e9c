-- ===== src/Session/Labels.antt =====
-- The labels of attributes and channels, in horace/session_context.cc.
use libholmes_horace.Attribute.Ids
use libholmes_horace.Common.Text.{octets_of}
use libholmes_horace.Common.{ℕ, List, [], ◌∷◌, if◌then◌else◌, Result}
use libholmes_horace.Common.Words.{sign32}
use libholmes_horace.Session.{find, found, SessionContext}

abbrev pub reserved_attr_labels : List (ℕ × List ℕ)
reserved_attr_labels =
    (Ids.attrid_protocol, octets_of "protocol")
    ∷ (Ids.attrid_attr_def, octets_of "attr_def")
    ∷ (Ids.attrid_attr_id, octets_of "attr_id")
    ∷ (Ids.attrid_attr_label, octets_of "attr_label")
    ∷ (Ids.attrid_chan_def, octets_of "chan_def")
    ∷ (Ids.attrid_chan_id, octets_of "chan_id")
    ∷ (Ids.attrid_chan_label, octets_of "chan_label")
    ∷ (Ids.attrid_type, octets_of "content_type")
    ∷ (Ids.attrid_source, octets_of "source")
    ∷ (Ids.attrid_seqnum, octets_of "seqnum")
    ∷ (Ids.attrid_ts, octets_of "ts")
    ∷ (Ids.attrid_time_system, octets_of "time_system")
    ∷ (Ids.attrid_message, octets_of "message")
    ∷ (Ids.attrid_hash, octets_of "hash")
    ∷ (Ids.attrid_hash_alg, octets_of "hash_alg")
    ∷ (Ids.attrid_sig, octets_of "hash_sig")
    ∷ (Ids.attrid_sig_alg, octets_of "hash_sig_alg")
    ∷ (Ids.attrid_sig_pubkey, octets_of "hash_sig_pubkey")
    ∷ []

abbrev pub channel_session : ℕ
channel_session = Ids.negative 1

abbrev pub channel_end : ℕ
channel_end = Ids.negative 2

abbrev pub channel_error : ℕ
channel_error = Ids.negative 3

abbrev pub channel_warning : ℕ
channel_warning = Ids.negative 4

abbrev pub channel_sync : ℕ
channel_sync = Ids.negative 5

abbrev pub channel_signature : ℕ
channel_signature = Ids.negative 6

abbrev pub reserved_chan_labels : List (ℕ × List ℕ)
reserved_chan_labels =
    (channel_error, octets_of "error")
    ∷ (channel_session, octets_of "session")
    ∷ (channel_sync, octets_of "sync")
    ∷ []

unfoldable pub get_attr_label : SessionContext → ℕ → Result (List ℕ)
unfolding find found
get_attr_label s id =
    found "unrecognised attribute ID" id
      (if sign32 id then find id reserved_attr_labels else find id s.attr_labels)

unfoldable pub get_channel_label : SessionContext → ℕ → Result (List ℕ)
unfolding find found
get_channel_label s id =
    found "unrecognised channel ID" id
      (if sign32 id then find id reserved_chan_labels else find id s.chan_labels)
