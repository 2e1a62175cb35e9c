-- ===== src/Attribute/Order.antt =====
-- The canonical order of attributes, and insertion into an attribute list: `attrid_less` and
-- `insert` of horace/attribute_list.cc.
pub mod Placed
use libholmes_horace.Common.{
  ℕ, suc, ◌+◌, ◌-◌, ◌%◌, ◌^◌, ◌≤◌, ◌<◌, bit_xor, ◌≡◌, refl, ap, ◌↔◌, ◌⊎◌, inl, inr, Bool, true,
  arith, ltb, leb, if◌then◌else◌, ltb-false, Bool-cases,
}
use libholmes_horace.Common.Words.{shr, sign32, extend, IsInt}
use libholmes_horace.Attribute.{attrid, append, Attribute, AttributeList, nil, cons}
use libholmes_horace.Common.Bits.{xor-zero, xor_ones}

-- `-(id ^ (((id >> 63) - 1) >> 1))`, on the ID widened to a uint64_t.
unfoldable pub order : ℕ → ℕ
order id =
    (2 ^ 64 - bit_xor (extend id) (shr ((shr (extend id) 63 + 2 ^ 64 - 1) % 2 ^ 64) 1)) % 2 ^ 64

unfoldable pub attrid_less : Attribute → Attribute → Bool
attrid_less lhs rhs = ltb (order (attrid lhs)) (order (attrid rhs))

-- `std::upper_bound` finds the first member of the sorted vector that the new attribute is less
-- than, and the attribute goes in front of it.
unfoldable pub insert : Attribute → AttributeList → AttributeList
insert attr nil = cons attr nil
insert attr (cons a l) = if attrid_less attr a then cons attr (cons a l) else cons a (insert attr l)

-- The place of an ID: reserved (negative) IDs first, then the others, each by absolute value.
unfoldable pub place : ℕ → ℕ
place id = if sign32 id then 2 ^ 32 - id else 2 ^ 63 + 1 + id

pub order-place : (id : ℕ) → IsInt id → order id ≡ place id
unfolding order place
order-place id h =
    ground (arith, xor-zero (extend id), xor_ones 63 (extend id) (2 ^ 63 - 1) (omega arith))

-- The documented order of IDs: a reserved ID, negative as an int, comes before any other, and two
-- IDs of one kind go by absolute value.
abbrev pub Precedes : ℕ → ℕ → Type 0
Precedes a b =
    ((2 ^ 31 ≤ a) × (b < 2 ^ 31))
    ⊎ (((2 ^ 31 ≤ a) × (2 ^ 31 ≤ b) × (2 ^ 32 - a < 2 ^ 32 - b))
        ⊎ ((a < 2 ^ 31) × (b < 2 ^ 31) × (a < b)))

pub place_lt : (a b : ℕ) → IsInt a → IsInt b → (ltb (place a) (place b) ≡ true) ↔ Precedes a b
unfolding place
place_lt a b h k = (
  λ e. elim (Bool-cases (leb (2 ^ 31) a)) [
    | inl p ↦ elim (Bool-cases (leb (2 ^ 31) b)) [
      | inl q ↦ inr (inl (ground arith, ground arith, ground arith))
      | inr q ↦ inl (ground arith, ground arith)
    ]
    | inr p ↦ inr (inr (ground arith, ground arith, ground arith))
  ],
  λ e. ground arith,
)

-- `attrid_less`, with its arithmetic on 64-bit words, holds exactly when the first ID precedes the
-- second in the documented order; the IDs are ints.
pub attrid_less_iff :
    (lhs rhs : Attribute)
    → IsInt (attrid lhs)
    → IsInt (attrid rhs)
    → (attrid_less lhs rhs ≡ true) ↔ Precedes (attrid lhs) (attrid rhs)
unfolding attrid_less
attrid_less_iff lhs rhs h k =
    rw (order-place (attrid lhs) h, order-place (attrid rhs) k)
      (place_lt (attrid lhs) (attrid rhs) h k)

-- Every member stands at or after the place `n`, and no member before an earlier one.
abbrev pub IsSortedFrom : ℕ → AttributeList → Type 0
IsSortedFrom n nil = Unit {0}
IsSortedFrom n (cons a l) = (n ≤ order (attrid a)) × IsSortedFrom (order (attrid a)) l

abbrev pub IsSorted : AttributeList → Type 0
IsSorted l = IsSortedFrom 0 l

insert-IsSortedFrom :
    (n : ℕ) (attr : Attribute) (l : AttributeList)
    → n ≤ order (attrid attr)
    → IsSortedFrom n l
    → IsSortedFrom n (insert attr l)
unfolding insert attrid_less
insert-IsSortedFrom n attr nil h s = (h, tt)
insert-IsSortedFrom n attr (cons a l) h (k, s) =
    elim (Bool-cases (ltb (order (attrid attr)) (order (attrid a)))) [
      | inl e ↦ rw e (h, (ground arith, s))
      | inr e ↦ rw e (k, insert-IsSortedFrom (order (attrid a)) attr l (ground arith) s)
    ]

-- Insertion keeps an attribute list in canonical order.
pub insert-IsSorted : (attr : Attribute) (l : AttributeList) → IsSorted l → IsSorted (insert attr l)
insert-IsSorted attr l s = insert-IsSortedFrom 0 attr l (omega arith) s

abbrev pub AllUpTo : ℕ → AttributeList → Type 0
AllUpTo n nil = Unit {0}
AllUpTo n (cons a l) = (order (attrid a) ≤ n) × AllUpTo n l

-- In a sorted list the new attribute goes behind every member of the same or an earlier place,
-- before every later one, and moves nothing else.
pub insert_position :
    (attr : Attribute) (n : ℕ) (l : AttributeList)
    → IsSortedFrom n l
    → (front back : AttributeList) × (l ≡ append front back)
      × (insert attr l ≡ append front (cons attr back))
      × AllUpTo (order (attrid attr)) front
      × IsSortedFrom (suc (order (attrid attr))) back
unfolding insert attrid_less
insert_position attr n nil s = (nil, nil, refl, refl, tt, tt)
insert_position attr n (cons a l) (k, s) =
    elim (Bool-cases (ltb (order (attrid attr)) (order (attrid a)))) [
      | inl e ↦ (nil, cons a l, refl, rw e, tt, (ground arith, s))
      | inr e ↦
          let (front, back, p, q, f, b) = insert_position attr (order (attrid a)) l s in
          (
            cons a front,
            back,
            ap (λ t. cons a t) p,
            rw e (ap (λ t. cons a t) q),
            (ground arith, f),
            b,
          )
    ]

-- An attribute that belongs at the end is put there.
pub insert_last :
    (attr : Attribute) (l : AttributeList)
    → AllUpTo (order (attrid attr)) l
    → insert attr l ≡ append l (cons attr nil)
unfolding insert attrid_less
insert_last attr nil h = refl
insert_last attr (cons a l) (h, hs) = rw (ltb-false h) (ap (λ t. cons a t) (insert_last attr l hs))
