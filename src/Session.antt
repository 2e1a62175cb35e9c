-- ===== src/Session.antt =====
-- horace/session_context.{h,cc}: the attribute and channel definitions seen in a session.
pub mod Labels
pub mod Definitions
pub mod Consistent
use libholmes_horace.Attribute.{unrecognised, AttributeList}
use libholmes_horace.Attribute.Ids
use libholmes_horace.Attribute.Lookup.{find_signed_integer, find_unsigned_integer, find_string}
use libholmes_horace.Common.{
  ℕ, String, Option, none, some, List, [], ◌∷◌, ◌==◌, if◌then◌else◌, ◌>>=◌, horace_error_id, Result,
  ok, err,
}
use libholmes_horace.Common.Words.{to_int, sign32}

-- A `std::map` from int: the last value put for a key comes first.
unfoldable pub find {ℓ} : {V : Type ℓ} → ℕ → List (ℕ × V) → Option V
find k [] = none
find k ((j, v) ∷ m) = if j == k then some v else find k m

unfoldable pub put {ℓ} : {V : Type ℓ} → ℕ → V → List (ℕ × V) → List (ℕ × V)
put k v m = (k, v) ∷ m

pub record SessionContext : Type 0 where
  pub attr_labels : List (ℕ × List ℕ)
  pub attr_types : List (ℕ × ℕ)
  pub chan_labels : List (ℕ × List ℕ)

abbrev pub empty_session : SessionContext
empty_session = record { attr_labels = []; attr_types = []; chan_labels = [] }

abbrev pub reserved_attr_types : List (ℕ × ℕ)
reserved_attr_types =
    (Ids.attrid_protocol, Ids.type_unsigned_integer)
    ∷ (Ids.attrid_attr_def, Ids.type_compound)
    ∷ (Ids.attrid_attr_id, Ids.type_signed_integer)
    ∷ (Ids.attrid_attr_label, Ids.type_string)
    ∷ (Ids.attrid_chan_def, Ids.type_compound)
    ∷ (Ids.attrid_chan_id, Ids.type_signed_integer)
    ∷ (Ids.attrid_chan_label, Ids.type_string)
    ∷ (Ids.attrid_type, Ids.type_unsigned_integer)
    ∷ (Ids.attrid_source, Ids.type_string)
    ∷ (Ids.attrid_seqnum, Ids.type_unsigned_integer)
    ∷ (Ids.attrid_ts, Ids.type_timestamp)
    ∷ (Ids.attrid_time_system, Ids.type_string)
    ∷ (Ids.attrid_message, Ids.type_string)
    ∷ (Ids.attrid_hash, Ids.type_binary)
    ∷ (Ids.attrid_hash_alg, Ids.type_string)
    ∷ (Ids.attrid_sig, Ids.type_binary)
    ∷ (Ids.attrid_sig_alg, Ids.type_string)
    ∷ (Ids.attrid_sig_pubkey, Ids.type_binary)
    ∷ []

-- What the code throws where a table has no entry.
unfoldable pub found {ℓ} : {V : Type ℓ} → String → ℕ → Option V → Result V
found what id none = err (horace_error_id what id)
found what id (some v) = ok v

unfoldable pub get_attr_type : SessionContext → ℕ → Result ℕ
unfolding find found
get_attr_type s id =
    found "unrecognised attribute ID" id
      (if sign32 id then find id reserved_attr_types else find id s.attr_types)

-- The ID, an int64_t, and the type, a uint64_t, are stored in an int.
unfoldable pub handle_attr_def : SessionContext → AttributeList → Result SessionContext
unfolding put
handle_attr_def s content = do
  id ← find_signed_integer content Ids.attrid_attr_id
  label ← find_string content Ids.attrid_attr_label
  type ← find_unsigned_integer content Ids.attrid_type
  ok (record s {
    attr_labels = put (to_int id) label s.attr_labels;
    attr_types = put (to_int id) (to_int type) s.attr_types;
  })

unfoldable pub handle_channel_def : SessionContext → AttributeList → Result SessionContext
unfolding put
handle_channel_def s content = do
  id ← find_signed_integer content Ids.attrid_chan_id
  label ← find_string content Ids.attrid_chan_label
  ok (record s { chan_labels = put (to_int id) label s.chan_labels })
