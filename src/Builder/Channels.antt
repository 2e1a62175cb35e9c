-- ===== src/Builder/Channels.antt =====
-- The definitions of channels that a builder makes, seen by a session that handles them.
use libholmes_horace.Attribute.{size, compound, signed_integer, string, AttributeList, nil, cons}
use libholmes_horace.Attribute.Ids
use libholmes_horace.Attribute.Order.{insert}
use libholmes_horace.Attribute.Lookup.{
  contains, as_signed_integer, as_string, find_signed_integer, find_string, occurrences,
  find_one-occurrences,
}
use libholmes_horace.Session.{find, put, found, handle_channel_def, SessionContext}
use libholmes_horace.Session.Labels.{get_channel_label}
use libholmes_horace.Record.{handle_definition}
use libholmes_horace.Builder.{increment, chan_definition, define_channel, SessionBuilder}
use libholmes_horace.Builder.Defined.{occurrences-insert_same, occurrences-insert_other, found_one}
use libholmes_horace.Common.{
  ℕ, ◌+◌, ◌-◌, ◌^◌, ◌<◌, ◌≡◌, refl, sym, ◌∙◌, inl, inr, true, false, not, List, arith, ◌==◌,
  Bool-cases, ok,
}
use libholmes_horace.Common.Words.{to_int, sign32, extend}

size-nil : (l : AttributeList) → not (size l == 0) ≡ false → l ≡ nil
size-nil nil e = refl
size-nil (cons a l) e = ground arith

occurrences-nil : (l : AttributeList) (id : ℕ) → contains l id ≡ false → occurrences l id ≡ nil
occurrences-nil l id e = size-nil (occurrences l id) (sym (find_one-occurrences l id).1 ∙ e)

-- The session with the channel `n` defined.
abbrev with_channel : SessionContext → ℕ → List ℕ → SessionContext
with_channel s n label = record s { chan_labels = put (to_int (extend n)) label s.chan_labels }

channel-handled :
    (s : SessionContext) (n : ℕ) (label : List ℕ) (subattrs : AttributeList)
    → contains subattrs Ids.attrid_chan_id ≡ false
    → contains subattrs Ids.attrid_chan_label ≡ false
    → handle_definition s (compound Ids.attrid_chan_def (chan_definition n label subattrs))
      ≡ ok (with_channel s n label)
unfolding handle_definition chan_definition handle_channel_def find_signed_integer find_string
    as_signed_integer as_string
channel-handled s n label subattrs no_id no_label =
    let id_attr = signed_integer Ids.attrid_chan_id (extend n) in
    let label_attr = string Ids.attrid_chan_label label in
    let ids = found_one id_attr (insert label_attr (insert id_attr subattrs)) Ids.attrid_chan_id (
      occurrences-insert_other label_attr (insert id_attr subattrs) Ids.attrid_chan_id refl
      ∙ occurrences-insert_same id_attr subattrs Ids.attrid_chan_id refl
          (occurrences-nil subattrs Ids.attrid_chan_id no_id)) in
    let labels =
      found_one label_attr (insert label_attr (insert id_attr subattrs)) Ids.attrid_chan_label (
        occurrences-insert_same label_attr (insert id_attr subattrs) Ids.attrid_chan_label refl (
          occurrences-insert_other id_attr subattrs Ids.attrid_chan_label refl
          ∙ occurrences-nil subattrs Ids.attrid_chan_label no_label)) in
    rw (ids, labels) refl

channel-get :
    (s : SessionContext) (n : ℕ) (label : List ℕ)
    → n < 2 ^ 31
    → get_channel_label (with_channel s n label) n ≡ ok label
unfolding get_channel_label put found find
channel-get s n label h =
    let plain : sign32 n ≡ false = ground arith in
    let key : (to_int (extend n) == n) ≡ true = ground arith in rw (key, plain) refl

-- A channel that is defined, with attributes that hold no number and no label of a channel, gets
-- the number that is next, and any session that handles the definition then knows its label under
-- this number. The count of channels stays an int.
pub define_channel-handled :
    (b b' : SessionBuilder) (label : List ℕ) (subattrs : AttributeList) (id : ℕ)
    (s : SessionContext)
    → b.chan_count < 2 ^ 31
    → contains subattrs Ids.attrid_chan_id ≡ false
    → contains subattrs Ids.attrid_chan_label ≡ false
    → define_channel b label subattrs ≡ ok (b', id)
    → (id ≡ b.chan_count)
      × (b'.chan_count ≡ id + 1)
      × (b'.chan_count < 2 ^ 31)
      × ((content : AttributeList) × (s' : SessionContext) × (b'.attributes
            ≡ insert (compound Ids.attrid_chan_def content) b.attributes)
          × (handle_definition s (compound Ids.attrid_chan_def content) ≡ ok s')
          × (get_channel_label s' id ≡ ok label))
unfolding define_channel increment
define_channel-handled b b' label subattrs id s h no_id no_label e =
    elim (Bool-cases (b.chan_count == 2 ^ 31 - 1)) [
      | inl t ↦ (let h' = rw (t) at e in cc)
      | inr t ↦
          let made = rw (t) at e in
          let number : id ≡ b.chan_count = cc in
          let next : b'.chan_count ≡ b.chan_count + 1 = cc in
          let members : b'.attributes
              ≡ insert (compound Ids.attrid_chan_def (chan_definition b.chan_count label subattrs))
                  b.attributes =
            cc in
          let limit : b.chan_count + 1 < 2 ^ 31 = ground arith in
          (
            number,
            rw (number) next,
            rw (next) limit,
            (
              chan_definition b.chan_count label subattrs,
              with_channel s b.chan_count label,
              members,
              channel-handled s b.chan_count label subattrs no_id no_label,
              rw (number) (channel-get s b.chan_count label h),
            ),
          )
    ]
