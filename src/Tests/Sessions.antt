-- ===== src/Tests/Sessions.antt =====
-- Sessions and their definitions, at concrete values.
use libholmes_horace.Attribute.{unsigned_integer, signed_integer, string, AttributeList, nil, cons}
use libholmes_horace.Attribute.Ids
use libholmes_horace.Attribute.Lookup
use libholmes_horace.Session
use libholmes_horace.Session.{empty_session, SessionContext}
use libholmes_horace.Common.{ℕ, ◌≡◌, refl, not, ◌&&◌, List, [], ◌∷◌, ◌==◌, if◌then◌else◌, ok}
use libholmes_horace.Common.Words.{to_int, sign32}

-- The attribute 0 is a string with the label "hi".
abbrev pub attr_def : AttributeList
attr_def = cons (signed_integer Ids.attrid_attr_id 0) (
    cons (string Ids.attrid_attr_label (0x68 ∷ 0x69 ∷ []))
      (cons (unsigned_integer Ids.attrid_type Ids.type_string) nil))

-- The channel 0 has the label "c".
abbrev chan_def : AttributeList
chan_def =
    cons (signed_integer Ids.attrid_chan_id 0) (cons (string Ids.attrid_chan_label (0x63 ∷ [])) nil)

abbrev pub defined : SessionContext
defined = record {
  attr_labels = (0, 0x68 ∷ 0x69 ∷ []) ∷ [];
  attr_types = (0, Ids.type_string) ∷ [];
  chan_labels = [];
}

abbrev with_channel : SessionContext
with_channel = record { attr_labels = []; attr_types = []; chan_labels = (0, 0x63 ∷ []) ∷ [] }

pub handle_attr_def-attr_def : Session.handle_attr_def empty_session attr_def ≡ ok defined
unfolding Session.handle_attr_def Lookup.find_signed_integer Lookup.find_one Lookup.find_loop
    Lookup.find_string Lookup.find_unsigned_integer
handle_attr_def-attr_def = refl

handle_channel_def-chan_def : Session.handle_channel_def empty_session chan_def ≡ ok with_channel
unfolding Session.handle_channel_def Lookup.find_signed_integer Lookup.find_one Lookup.find_loop
    Lookup.find_string
handle_channel_def-chan_def = refl

handle_attr_def-get_example :
    (k : ℕ) × (label : List ℕ) × (type : ℕ) × (Lookup.find_signed_integer attr_def
        Ids.attrid_attr_id
      ≡ ok k)
    × (Lookup.find_string attr_def Ids.attrid_attr_label ≡ ok label)
    × (Lookup.find_unsigned_integer attr_def Ids.attrid_type ≡ ok type)
    × (Session.get_attr_type defined 0 ≡ (
        if not (sign32 0) && (to_int k == 0)
        then ok (to_int type)
        else Session.get_attr_type empty_session 0))
    × (Session.Labels.get_attr_label defined 0 ≡ (
        if not (sign32 0) && (to_int k == 0)
        then ok label
        else Session.Labels.get_attr_label empty_session 0))
    × (Session.Labels.get_channel_label defined 0
        ≡ Session.Labels.get_channel_label empty_session 0)
handle_attr_def-get_example =
    Session.Definitions.handle_attr_def-get empty_session defined attr_def 0
      handle_attr_def-attr_def
