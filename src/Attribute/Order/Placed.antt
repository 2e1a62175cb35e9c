-- ===== src/Attribute/Order/Placed.antt =====
-- Insertion into an attribute list, in horace/attribute_list.cc, by the documented order of IDs.
use libholmes_horace.Attribute.{attrid, append, Attribute, AttributeList, nil, cons}
use libholmes_horace.Attribute.Order.{
  attrid_less, insert, place, Precedes, place_lt, attrid_less_iff,
}
use libholmes_horace.Common.Words.{IsInt}
use libholmes_horace.Common.{
  ℕ, ◌≡◌, refl, sym, ap, ◌∙◌, inl, inr, true, false, arith, ltb, Bool-cases,
}

-- The IDs are ints.
abbrev pub HaveInts : AttributeList → Type 0
HaveInts nil = Unit {0}
HaveInts (cons a l) = IsInt (attrid a) × HaveInts l

-- The ID precedes that of every member.
abbrev pub BeforeAll : ℕ → AttributeList → Type 0
BeforeAll id nil = Unit {0}
BeforeAll id (cons a l) = Precedes id (attrid a) × BeforeAll id l

-- The ID precedes that of no member.
abbrev pub BeforeNone : ℕ → AttributeList → Type 0
BeforeNone id nil = Unit {0}
BeforeNone id (cons a l) = (Precedes id (attrid a) → ⊥) × BeforeNone id l

-- No member precedes the ID.
abbrev pub NonePrecedes : AttributeList → ℕ → Type 0
NonePrecedes nil id = Unit {0}
NonePrecedes (cons a l) id = (Precedes (attrid a) id → ⊥) × NonePrecedes l id

-- No member precedes an earlier one.
abbrev pub IsOrdered : AttributeList → Type 0
IsOrdered nil = Unit {0}
IsOrdered (cons a l) = NonePrecedes l (attrid a) × IsOrdered l

-- What precedes an ID precedes all that do not precede it.
carried_over :
    (x a b : ℕ) → IsInt x → IsInt a → IsInt b → Precedes x a → (Precedes b a → ⊥) → Precedes x b
carried_over x a b ix ia ib before not_before = elim (Bool-cases (ltb (place b) (place a))) [
  | inl t ↦ absurd (not_before ((place_lt b a ib ia).0 t))
  | inr t ↦
      let lower : ltb (place x) (place a) ≡ true = (place_lt x a ix ia).1 before in
      (place_lt x b ix ib).0 (ground (arith, t, lower))
]

before_rest :
    (x a : ℕ) (l : AttributeList)
    → IsInt x
    → IsInt a
    → HaveInts l
    → Precedes x a
    → NonePrecedes l a
    → BeforeAll x l
before_rest x a nil ix ia h before none_before = tt
before_rest x a (cons b l) ix ia (ib, h) before (k, none_before) =
    (carried_over x a (attrid b) ix ia ib before k, before_rest x a l ix ia h before none_before)

-- In a list in the documented order, where IDs are ints, a new attribute goes behind all members that
-- it does not precede and in front of all that it precedes, and moves nothing else: reserved IDs
-- come first, and those of one kind go by absolute value.
pub insert_placed :
    (attr : Attribute) (l : AttributeList)
    → IsInt (attrid attr)
    → HaveInts l
    → IsOrdered l
    → (front back : AttributeList) × (l ≡ append front back)
      × (insert attr l ≡ append front (cons attr back))
      × BeforeNone (attrid attr) front
      × BeforeAll (attrid attr) back
unfolding insert
insert_placed attr nil i h s = (nil, nil, refl, refl, tt, tt)
insert_placed attr (cons a l) i (ia, h) (none_before, s) = elim (Bool-cases (attrid_less attr a)) [
  | inl e ↦
      let before = (attrid_less_iff attr a i ia).0 e in
      (
        nil,
        cons a l,
        refl,
        rw (e) refl,
        tt,
        (before, before_rest (attrid attr) (attrid a) l i ia h before none_before),
      )
  | inr e ↦
      let (front, back, p, q, f, b) = insert_placed attr l i h s in
      (
        cons a front,
        back,
        ap (λ t. cons a t) p,
        rw (e) (ap (λ t. cons a t) q),
        (
          λ before.
              (let bad : true ≡ false = sym ((attrid_less_iff attr a i ia).1 before) ∙ e in cc),
          f,
        ),
        b,
      )
]
