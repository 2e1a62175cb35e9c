-- ===== src/Session/Definitions.antt =====
-- What the definitions of a session record do to the lookups.
use libholmes_horace.Attribute.{AttributeList}
use libholmes_horace.Attribute.Ids
use libholmes_horace.Attribute.Lookup.{find_signed_integer, find_unsigned_integer, find_string}
use libholmes_horace.Session.{
  find, put, reserved_attr_types, found, get_attr_type, handle_attr_def, handle_channel_def,
  SessionContext,
}
use libholmes_horace.Session.Labels.{
  reserved_attr_labels, reserved_chan_labels, get_attr_label, get_channel_label,
}
use libholmes_horace.Common.{
  ℕ, String, ◌≡◌, refl, inl, inr, not, ◌&&◌, List, ◌==◌, if◌then◌else◌, Bool-cases, bind-eq-ok, ok,
}
use libholmes_horace.Common.Words.{to_int, sign32}

-- The lookup of an ID that is not reserved, after a `put` and before.
found-put {ℓ} :
    {V : Type ℓ} (what : String) (k id : ℕ) (v : V) (reserved m : List (ℕ × V))
    → found what id (if sign32 id then find id reserved else find id (put k v m)) ≡ (
        if not (sign32 id) && (k == id)
        then ok v
        else found what id (if sign32 id then find id reserved else find id m))
unfolding find put found
found-put what k id v reserved m = elim (Bool-cases (sign32 id)) [
  | inl e ↦ rw (e) refl
  | inr e ↦ elim (Bool-cases (k == id)) [ inl e' ↦ rw (e, e') refl | inr e' ↦ rw (e, e') refl ]
]

-- A definition of an attribute that is accepted has exactly one ID, label and type, of the right
-- classes. From then on its type and label are those of its ID, if this is not reserved; all other
-- types and labels, and the labels of the channels, stay as they were.
pub handle_attr_def-get :
    (s s' : SessionContext) (content : AttributeList) (id : ℕ)
    → handle_attr_def s content ≡ ok s'
    → (k : ℕ) × (label : List ℕ) × (type : ℕ) × (find_signed_integer content Ids.attrid_attr_id
        ≡ ok k)
      × (find_string content Ids.attrid_attr_label ≡ ok label)
      × (find_unsigned_integer content Ids.attrid_type ≡ ok type)
      × (get_attr_type s' id
          ≡ (if not (sign32 id) && (to_int k == id) then ok (to_int type) else get_attr_type s id))
      × (get_attr_label s' id
          ≡ (if not (sign32 id) && (to_int k == id) then ok label else get_attr_label s id))
      × (get_channel_label s' id ≡ get_channel_label s id)
unfolding handle_attr_def get_attr_type get_attr_label get_channel_label
handle_attr_def-get s s' content id e =
    let (k, ek, e₁) = bind-eq-ok (find_signed_integer content Ids.attrid_attr_id) _ e in
    let (label, el, e₂) = bind-eq-ok (find_string content Ids.attrid_attr_label) _ e₁ in
    let (type, et, e₃) = bind-eq-ok (find_unsigned_integer content Ids.attrid_type) _ e₂ in
    let types : s'.attr_types ≡ put (to_int k) (to_int type) s.attr_types = cc in
    let labels : s'.attr_labels ≡ put (to_int k) label s.attr_labels = cc in
    let channels : s'.chan_labels ≡ s.chan_labels = cc in
    (
      k,
      label,
      type,
      ek,
      el,
      et,
      rw (types) (
          found-put "unrecognised attribute ID" (to_int k) id (to_int type) reserved_attr_types
            s.attr_types),
      rw (labels) (
          found-put "unrecognised attribute ID" (to_int k) id label reserved_attr_labels
            s.attr_labels),
      rw (channels) refl,
    )

-- A definition of a channel that is accepted gives its label to its ID, if this is not reserved; all
-- other labels, and the types and labels of the attributes, stay as they were.
pub handle_channel_def-get :
    (s s' : SessionContext) (content : AttributeList) (id : ℕ)
    → handle_channel_def s content ≡ ok s'
    → (k : ℕ) × (label : List ℕ) × (find_signed_integer content Ids.attrid_chan_id ≡ ok k)
      × (find_string content Ids.attrid_chan_label ≡ ok label)
      × (get_channel_label s' id
          ≡ (if not (sign32 id) && (to_int k == id) then ok label else get_channel_label s id))
      × (get_attr_type s' id ≡ get_attr_type s id)
      × (get_attr_label s' id ≡ get_attr_label s id)
unfolding handle_channel_def get_attr_type get_attr_label get_channel_label
handle_channel_def-get s s' content id e =
    let (k, ek, e₁) = bind-eq-ok (find_signed_integer content Ids.attrid_chan_id) _ e in
    let (label, el, e₂) = bind-eq-ok (find_string content Ids.attrid_chan_label) _ e₁ in
    let types : s'.attr_types ≡ s.attr_types = cc in
    let labels : s'.attr_labels ≡ s.attr_labels = cc in
    let channels : s'.chan_labels ≡ put (to_int k) label s.chan_labels = cc in
    (
      k,
      label,
      ek,
      el,
      rw (channels) (
          found-put "unrecognised channel ID" (to_int k) id label reserved_chan_labels
            s.chan_labels),
      rw (types) refl,
      rw (labels) refl,
    )
