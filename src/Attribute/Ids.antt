-- ===== src/Attribute/Ids.antt =====
-- The content types and the reserved attribute IDs of horace/attribute.h.
use libholmes_horace.Common.{ℕ, ◌-◌, ◌^◌}

abbrev pub type_compound : ℕ
type_compound = 0

abbrev pub type_unsigned_integer : ℕ
type_unsigned_integer = 1

abbrev pub type_signed_integer : ℕ
type_signed_integer = 2

abbrev pub type_binary : ℕ
type_binary = 3

abbrev pub type_string : ℕ
type_string = 4

abbrev pub type_timestamp : ℕ
type_timestamp = 5

abbrev pub type_boolean : ℕ
type_boolean = 6

-- The pattern of a negative int.
abbrev pub negative : ℕ → ℕ
negative n = 2 ^ 32 - n

abbrev pub attrid_protocol : ℕ
attrid_protocol = negative 1

abbrev pub attrid_attr_def : ℕ
attrid_attr_def = negative 2

abbrev pub attrid_attr_id : ℕ
attrid_attr_id = negative 3

abbrev pub attrid_attr_label : ℕ
attrid_attr_label = negative 4

abbrev pub attrid_chan_def : ℕ
attrid_chan_def = negative 5

abbrev pub attrid_chan_id : ℕ
attrid_chan_id = negative 6

abbrev pub attrid_chan_label : ℕ
attrid_chan_label = negative 7

abbrev pub attrid_type : ℕ
attrid_type = negative 8

abbrev pub attrid_source : ℕ
attrid_source = negative 9

abbrev pub attrid_seqnum : ℕ
attrid_seqnum = negative 10

abbrev pub attrid_ts : ℕ
attrid_ts = negative 11

abbrev pub attrid_time_system : ℕ
attrid_time_system = negative 12

abbrev pub attrid_message : ℕ
attrid_message = negative 13

abbrev pub attrid_hash : ℕ
attrid_hash = negative 14

abbrev pub attrid_hash_alg : ℕ
attrid_hash_alg = negative 15

abbrev pub attrid_sig : ℕ
attrid_sig = negative 16

abbrev pub attrid_sig_alg : ℕ
attrid_sig_alg = negative 17

abbrev pub attrid_sig_pubkey : ℕ
attrid_sig_pubkey = negative 18
