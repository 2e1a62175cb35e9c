-- ===== src/Builder/Defined.antt =====
-- The definitions that a builder makes, seen by a session that handles them.
use libholmes_horace.Attribute.{attrid, Attribute, compound, AttributeList, nil, cons}
use libholmes_horace.Attribute.Ids
use libholmes_horace.Attribute.Order.{attrid_less, insert}
use libholmes_horace.Attribute.Lookup.{find_one, occurrences, verdict, find_one-occurrences}
use libholmes_horace.Session.{find, put, found, get_attr_type, SessionContext}
use libholmes_horace.Session.Labels.{get_attr_label}
use libholmes_horace.Record.{handle_definition}
use libholmes_horace.Builder.{increment, attr_definition, define_attribute, SessionBuilder}
use libholmes_horace.Common.{
  ℕ, ◌+◌, ◌-◌, ◌^◌, ◌<◌, ◌≡◌, refl, ap, ◌∙◌, inl, inr, true, false, List, arith, ◌==◌, Bool-cases,
  test_refl, ok,
}
use libholmes_horace.Common.Words.{to_int, sign32, extend}

-- A new member is found among the others.
pub occurrences-insert_same :
    (a : Attribute) (l : AttributeList) (id : ℕ)
    → attrid a ≡ id
    → occurrences l id ≡ nil
    → occurrences (insert a l) id ≡ cons a nil
unfolding occurrences insert
occurrences-insert_same a nil id e f = rw (e, test_refl id) refl
occurrences-insert_same a (cons b l) id e f = elim (Bool-cases (attrid b == id)) [
  | inl t ↦ (let h = rw (t) at f in cc)
  | inr t ↦
      let rest = rw (t) at f in
      elim (Bool-cases (attrid_less a b)) [
        | inl p ↦ rw (p, e, test_refl id, t, rest) refl
        | inr p ↦ rw (p, t) (occurrences-insert_same a l id e rest)
      ]
]

-- and leaves the search for another ID as it was.
pub occurrences-insert_other :
    (a : Attribute) (l : AttributeList) (id : ℕ)
    → (attrid a == id) ≡ false
    → occurrences (insert a l) id ≡ occurrences l id
unfolding occurrences insert
occurrences-insert_other a nil id e = rw (e) refl
occurrences-insert_other a (cons b l) id e = elim (Bool-cases (attrid_less a b)) [
  | inl p ↦ rw (p, e) refl
  | inr p ↦ elim (Bool-cases (attrid b == id)) [
    | inl t ↦ rw (p, t) (ap (λ m. cons b m) (occurrences-insert_other a l id e))
    | inr t ↦ rw (p, t) (occurrences-insert_other a l id e)
  ]
]

pub found_one :
    (a : Attribute) (l : AttributeList) (id : ℕ)
    → occurrences l id ≡ cons a nil
    → find_one l id ≡ ok a
unfolding verdict
found_one a l id e = (find_one-occurrences l id).0 ∙ rw (e) refl

-- The session with the attribute `n` defined.
abbrev defined : SessionContext → ℕ → List ℕ → ℕ → SessionContext
defined s n label type = record s {
  attr_labels = put (to_int (extend n)) label s.attr_labels;
  attr_types = put (to_int (extend n)) (to_int (extend type)) s.attr_types;
}

definition-handled :
    (s : SessionContext) (n : ℕ) (label : List ℕ) (type : ℕ)
    → handle_definition s (compound Ids.attrid_attr_def (attr_definition n label type))
      ≡ ok (defined s n label type)
unfolding handle_definition attr_definition libholmes_horace.Session.handle_attr_def
    libholmes_horace.Attribute.Lookup.find_signed_integer find_one
    libholmes_horace.Attribute.Lookup.find_loop insert attrid_less
    libholmes_horace.Attribute.Order.order libholmes_horace.Attribute.Lookup.find_string
    libholmes_horace.Attribute.Lookup.find_unsigned_integer
definition-handled s n label type = refl

defined-get :
    (s : SessionContext) (n : ℕ) (label : List ℕ) (type : ℕ)
    → n < 2 ^ 31
    → type < 2 ^ 31
    → (get_attr_type (defined s n label type) n ≡ ok type)
      × (get_attr_label (defined s n label type) n ≡ ok label)
unfolding get_attr_type get_attr_label put found find
defined-get s n label type h k =
    let plain : sign32 n ≡ false = ground arith in
    let key : (to_int (extend n) == n) ≡ true = ground arith in
    let content : to_int (extend type) ≡ type = ground arith in
    (rw (key, content, plain) refl, rw (key, plain) refl)

pub numbered :
    (b b' : SessionBuilder) (label : List ℕ) (type id : ℕ)
    → b.attr_count < 2 ^ 31
    → define_attribute b label type ≡ ok (b', id)
    → (id ≡ b.attr_count) × (b'.attr_count ≡ id + 1) × (b'.attr_count < 2 ^ 31)
unfolding define_attribute increment
numbered b b' label type id h e = elim (Bool-cases (b.attr_count == 2 ^ 31 - 1)) [
  | inl t ↦ (let h' = rw (t) at e in cc)
  | inr t ↦
      let made = rw (t) at e in
      let number : id ≡ b.attr_count = cc in
      let following : b'.attr_count ≡ b.attr_count + 1 = cc in
      (number, rw (number) following, ground (arith, following, h, t))
]

-- An attribute that is defined gets the number that is next, and any session that handles the
-- definition then knows it under this number, with its label and type; the type is an int that is
-- not negative. The count of attributes stays an int.
pub define_attribute-handled :
    (b b' : SessionBuilder) (label : List ℕ) (type id : ℕ) (s : SessionContext)
    → b.attr_count < 2 ^ 31
    → type < 2 ^ 31
    → define_attribute b label type ≡ ok (b', id)
    → (id ≡ b.attr_count)
      × (b'.attr_count ≡ id + 1)
      × (b'.attr_count < 2 ^ 31)
      × ((content : AttributeList) × (s' : SessionContext) × (b'.attributes
            ≡ insert (compound Ids.attrid_attr_def content) b.attributes)
          × (handle_definition s (compound Ids.attrid_attr_def content) ≡ ok s')
          × (get_attr_type s' id ≡ ok type)
          × (get_attr_label s' id ≡ ok label))
unfolding define_attribute increment
define_attribute-handled b b' label type id s h k e =
    elim (Bool-cases (b.attr_count == 2 ^ 31 - 1)) [
      | inl t ↦ (let h' = rw (t) at e in cc)
      | inr t ↦
          let made = rw (t) at e in
          let number : id ≡ b.attr_count = cc in
          let next : b'.attr_count ≡ b.attr_count + 1 = cc in
          let members : b'.attributes
              ≡ insert (compound Ids.attrid_attr_def (attr_definition b.attr_count label type))
                  b.attributes =
            cc in
          let limit : b.attr_count + 1 < 2 ^ 31 = ground arith in
          let (type_known, label_known) = defined-get s b.attr_count label type h k in
          (
            number,
            rw (number) next,
            rw (next) limit,
            (
              attr_definition b.attr_count label type,
              defined s b.attr_count label type,
              members,
              definition-handled s b.attr_count label type,
              rw (number) type_known,
              rw (number) label_known,
            ),
          )
    ]
