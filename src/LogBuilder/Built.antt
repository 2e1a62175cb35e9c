-- ===== src/LogBuilder/Built.antt =====
-- What the record that horace/log_record_builder.cc builds has in it.
use libholmes_horace.Attribute.{Attribute, timestamp, AttributeList, nil, cons}
use libholmes_horace.Attribute.Ids
use libholmes_horace.Attribute.Order.{insert}
use libholmes_horace.Attribute.Lookup.{find_one, occurrences}
use libholmes_horace.Builder.{SessionBuilder}
use libholmes_horace.Builder.Defined.{occurrences-insert_same, occurrences-insert_other, found_one}
use libholmes_horace.Syslog.Message.{Call}
use libholmes_horace.LogBuilder.{
  new_log_record_builder, id_of, attribute_of, add, add_calls, build, LogIds, LogRecordBuilder,
}
use libholmes_horace.LogBuilder.Numbers.{
  kind, attrid-attribute_of, id_of_lt, new_log_record_builder-HasNumbers, HasNumbers,
}
use libholmes_horace.Common.{
  ℕ, ◌^◌, ◌<◌, ◌≡◌, refl, ◌∙◌, false, List, [], ◌∷◌, arith, ◌==◌, All, ok,
}

-- No call is of the same kind.
abbrev pub Apart : Call → List Call → Type 0
Apart c cs = All (λ d. (kind d == kind c) ≡ false) cs

abbrev pub AreApart : List Call → Type 0
AreApart [] = Unit {0}
AreApart (c ∷ cs) = Apart c cs × AreApart cs

two_ids :
    (ids : LogIds) (c d : Call)
    → HasNumbers ids
    → (kind d == kind c) ≡ false
    → ((id_of ids d == id_of ids c) ≡ false) × ((id_of ids c == id_of ids d) ≡ false)
two_ids ids c d h apart =
    let first = h.number c in
    let second = h.number d in
    (ground (arith, first, second, apart), ground (arith, first, second, apart))

other_calls :
    (b : LogRecordBuilder) (cs : List Call) (id : ℕ)
    → All (λ d. (id_of b.ids d == id) ≡ false) cs
    → occurrences (add_calls b cs).attrs id ≡ occurrences b.attrs id
unfolding add_calls add
other_calls b [] id h = refl
other_calls b (c ∷ cs) id h =
    other_calls (add b c) cs id h.1
    ∙ occurrences-insert_other (attribute_of b.ids c) b.attrs id
        (rw (attrid-attribute_of b.ids c) h.0)

kept :
    (b : LogRecordBuilder) (cs : List Call)
    → ((add_calls b cs).channel ≡ b.channel) × ((add_calls b cs).ids ≡ b.ids)
unfolding add_calls add
kept b [] = (refl, refl)
kept b (c ∷ cs) = kept (add b c) cs

distinct_ids :
    (ids : LogIds) (c : Call) (cs : List Call)
    → HasNumbers ids
    → Apart c cs
    → All (λ d. (id_of ids d == id_of ids c) ≡ false) cs
distinct_ids ids c [] h k = tt
distinct_ids ids c (d ∷ cs) h k = ((two_ids ids c d h k.0).0, distinct_ids ids c cs h k.1)

fresh :
    (b : LogRecordBuilder) (c : Call) (cs : List Call)
    → HasNumbers b.ids
    → Apart c cs
    → All (λ d. occurrences b.attrs (id_of b.ids d) ≡ nil) cs
    → All (λ d. occurrences (add b c).attrs (id_of b.ids d) ≡ nil) cs
unfolding add
fresh b c [] h k l = tt
fresh b c (d ∷ cs) h k l = (
  occurrences-insert_other (attribute_of b.ids c) b.attrs (id_of b.ids d)
        (rw (attrid-attribute_of b.ids c) (two_ids b.ids c d h k.0).1)
      ∙ l.0,
  fresh b c cs h k.1 l.1,
)

added :
    (b : LogRecordBuilder) (cs : List Call)
    → HasNumbers b.ids
    → AreApart cs
    → All (λ c. occurrences b.attrs (id_of b.ids c) ≡ nil) cs
    → All
        (λ c. occurrences (add_calls b cs).attrs (id_of b.ids c) ≡ cons (attribute_of b.ids c) nil)
        cs
unfolding add_calls add
added b [] h k l = tt
added b (c ∷ cs) h k l = (
  other_calls (add b c) cs (id_of b.ids c) (distinct_ids b.ids c cs h k.0)
      ∙ occurrences-insert_same (attribute_of b.ids c) b.attrs (id_of b.ids c)
          (attrid-attribute_of b.ids c) l.0,
  added (add b c) cs h k.1 (fresh b c cs h k.0 l.1),
)

not_ts :
    (ids : LogIds) (cs : List Call)
    → HasNumbers ids
    → All (λ d. (id_of ids d == Ids.attrid_ts) ≡ false) cs
not_ts ids [] h = tt
not_ts ids (d ∷ cs) h = (ground (arith, id_of_lt ids d h), not_ts ids cs h)

nothing_yet : (ids : LogIds) (cs : List Call) → All (λ c. occurrences nil (id_of ids c) ≡ nil) cs
unfolding occurrences
nothing_yet ids [] = tt
nothing_yet ids (c ∷ cs) = (refl, nothing_yet ids cs)

-- What is added is found, and is still found behind a timestamp.
all_found :
    (ids : LogIds) (l : AttributeList) (cs : List Call) (sec nsec : ℕ)
    → HasNumbers ids
    → All (λ c. occurrences l (id_of ids c) ≡ cons (attribute_of ids c) nil) cs
    → All
        (λ c.
          find_one (insert (timestamp Ids.attrid_ts sec nsec) l) (id_of ids c)
          ≡ ok (attribute_of ids c))
        cs
all_found ids l [] sec nsec h k = tt
all_found ids l (c ∷ cs) sec nsec h k = (
  found_one (attribute_of ids c) (insert (timestamp Ids.attrid_ts sec nsec) l) (id_of ids c) (
      occurrences-insert_other (timestamp Ids.attrid_ts sec nsec) l (id_of ids c)
        (ground (arith, id_of_lt ids c h))
      ∙ k.0),
  all_found ids l cs sec nsec h k.1,
)

-- A builder of log records is made for a session with fewer than 2 ^ 31 attributes, and any calls of
-- its operations are made, no two of one kind, before `build`. The record that is built belongs to
-- the channel, has the timestamp, and has the attribute of each call under its number; and the
-- builder is as it was before the calls.
pub build-add_calls :
    (session session' : SessionBuilder) (channel : ℕ) (b : LogRecordBuilder) (cs : List Call)
    (sec nsec : ℕ)
    → session.attr_count < 2 ^ 31
    → new_log_record_builder session channel ≡ ok (session', b)
    → AreApart cs
    → let r = build sec nsec (add_calls (record b { attrs = nil }) cs) in
      (r.1.channel ≡ b.channel)
      × (find_one r.1.attributes Ids.attrid_ts ≡ ok (timestamp Ids.attrid_ts sec nsec))
      × All (λ c. find_one r.1.attributes (id_of b.ids c) ≡ ok (attribute_of b.ids c)) cs
      × (r.0.channel ≡ b.channel)
      × (r.0.ids ≡ b.ids)
      × (r.0.attrs ≡ nil)
unfolding build occurrences
build-add_calls session session' channel b cs sec nsec low e apart =
    let h = new_log_record_builder-HasNumbers session session' channel b low e in
    let start : LogRecordBuilder = record b { attrs = nil } in
    let numbers : HasNumbers start.ids = record {
      first = h.first;
      are_user = h.are_user;
      number = h.number;
    } in
    let (same_channel, same_ids) = kept start cs in
    let ts : Attribute = timestamp Ids.attrid_ts sec nsec in
    let no_ts : occurrences (add_calls start cs).attrs Ids.attrid_ts ≡ nil =
      other_calls start cs Ids.attrid_ts (not_ts b.ids cs h) in
    (
      same_channel,
      found_one ts (insert ts (add_calls start cs).attrs) Ids.attrid_ts
          (occurrences-insert_same ts (add_calls start cs).attrs Ids.attrid_ts refl no_ts),
      all_found b.ids (add_calls start cs).attrs cs sec nsec h
          (added start cs numbers apart (nothing_yet b.ids cs)),
      same_channel,
      same_ids,
      refl,
    )
