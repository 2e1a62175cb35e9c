-- ===== src/Session/Consistent.antt =====
-- The attributes that a session knows have both a type and a label.
use libholmes_horace.Attribute.{AttributeList}
use libholmes_horace.Attribute.Ids
use libholmes_horace.Attribute.Lookup.{find_signed_integer, find_unsigned_integer, find_string}
use libholmes_horace.Session.{
  find, put, reserved_attr_types, found, get_attr_type, handle_attr_def, handle_channel_def,
  SessionContext,
}
use libholmes_horace.Session.Labels.{reserved_attr_labels, get_attr_label}
use libholmes_horace.Common.{
  ℕ, String, ◌≡◌, refl, sym, ap, ◌↔◌, inl, inr, Bool, true, false, Option, none, some, List, [],
  ◌∷◌, ◌==◌, if◌then◌else◌, Bool-cases, bind-eq-ok, ok,
}
use libholmes_horace.Common.Words.{to_int, sign32}

abbrev pub keys {ℓ} : {V : Type ℓ} → List (ℕ × V) → List ℕ
keys [] = []
keys ((k, v) ∷ m) = k ∷ keys m

-- The two maps of definitions have the same keys.
abbrev pub IsConsistent : SessionContext → Type 0
IsConsistent s = keys s.attr_labels ≡ keys s.attr_types

find-keys {ℓ κ} :
    {V : Type ℓ} {W : Type κ} (k : ℕ) (m : List (ℕ × V)) (n : List (ℕ × W)) (v : V)
    → keys m ≡ keys n
    → find k m ≡ some v
    → (w : W) × (find k n ≡ some w)
unfolding find
find-keys k [] n v e f = cc
find-keys k (x ∷ m) [] v e f = cc
find-keys k ((i, x) ∷ m) ((j, y) ∷ n) v e f =
    let same : i ≡ j = cc in
    let rest : keys m ≡ keys n = cc in
    elim (Bool-cases (i == k)) [
      | inl t ↦ (y, rw (sym same, t) refl)
      | inr t ↦ let (w, h) = find-keys k m n v rest (rw (t) at f) in (w, rw (sym same, t) h)
    ]

found_inv {ℓ} :
    {V : Type ℓ} (what : String) (id : ℕ) (o : Option V) (v : V)
    → found what id o ≡ ok v
    → o ≡ some v
unfolding found
found_inv what id none v e = cc
found_inv what id (some w) v e = cc

found-some {ℓ} : {V : Type ℓ} (what : String) (id : ℕ) (v : V) → found what id (some v) ≡ ok v
unfolding found
found-some what id v = refl

-- One lookup finds something exactly if the other one does.
found-keys {ℓ κ} :
    {V : Type ℓ} {W : Type κ} (what : String) (id : ℕ) (b : Bool) (m m' : List (ℕ × V))
    (n n' : List (ℕ × W)) (v : V)
    → keys m ≡ keys n
    → keys m' ≡ keys n'
    → found what id (if b then find id m else find id m') ≡ ok v
    → (w : W) × (found what id (if b then find id n else find id n') ≡ ok w)
found-keys what id true m m' n n' v e e' f =
    let (w, h) = find-keys id m n v e (found_inv what id (find id m) v f) in
    (w, rw (h) (found-some what id w))
found-keys what id false m m' n n' v e e' f =
    let (w, h) = find-keys id m' n' v e' (found_inv what id (find id m') v f) in
    (w, rw (h) (found-some what id w))

-- In a consistent session an ID has a type exactly if it has a label; this holds of the reserved
-- IDs too.
pub get_attr_type_iff_label :
    (s : SessionContext) (id : ℕ)
    → IsConsistent s
    → ((type : ℕ) × (get_attr_type s id ≡ ok type))
      ↔ ((label : List ℕ) × (get_attr_label s id ≡ ok label))
unfolding get_attr_type get_attr_label
get_attr_type_iff_label s id same = (
  (λ (type, e).
      found-keys "unrecognised attribute ID" id (sign32 id) reserved_attr_types s.attr_types
        reserved_attr_labels s.attr_labels type refl (sym same) e),
  λ (label, e).
      found-keys "unrecognised attribute ID" id (sign32 id) reserved_attr_labels s.attr_labels
        reserved_attr_types s.attr_types label refl same e,
)

pub handle_attr_def-IsConsistent :
    (s s' : SessionContext) (content : AttributeList)
    → handle_attr_def s content ≡ ok s'
    → IsConsistent s
    → IsConsistent s'
unfolding handle_attr_def put
handle_attr_def-IsConsistent s s' content e same =
    let (k, ek, e₁) = bind-eq-ok (find_signed_integer content Ids.attrid_attr_id) _ e in
    let (label, el, e₂) = bind-eq-ok (find_string content Ids.attrid_attr_label) _ e₁ in
    let (type, et, e₃) = bind-eq-ok (find_unsigned_integer content Ids.attrid_type) _ e₂ in
    let types : (to_int k, to_int type) ∷ s.attr_types ≡ s'.attr_types = cc in
    let labels : (to_int k, label) ∷ s.attr_labels ≡ s'.attr_labels = cc in
    rw (sym types, sym labels) (ap (λ t. to_int k ∷ t) same)

pub handle_channel_def-IsConsistent :
    (s s' : SessionContext) (content : AttributeList)
    → handle_channel_def s content ≡ ok s'
    → IsConsistent s
    → IsConsistent s'
unfolding handle_channel_def
handle_channel_def-IsConsistent s s' content e same =
    let (k, ek, e₁) = bind-eq-ok (find_signed_integer content Ids.attrid_chan_id) _ e in
    let (label, el, e₂) = bind-eq-ok (find_string content Ids.attrid_chan_label) _ e₁ in
    let types : s.attr_types ≡ s'.attr_types = cc in
    let labels : s.attr_labels ≡ s'.attr_labels = cc in rw (sym types, sym labels) same
