-- ===== src/Attribute/Equal.antt =====
-- The comparisons of attributes and of attribute lists.
use libholmes_horace.Common.{
  ℕ, ◌+◌, ◌≤◌, ◌≡◌, refl, ◌↔◌, Bool, true, false, ◌&&◌, List, [], ◌∷◌, arith, leb, ◌==◌, and_parts,
  and_join, test→eq, test_refl, length,
}
use libholmes_horace.Attribute.{
  append, size, Attribute, compound, unsigned_integer, signed_integer, binary, string, timestamp,
  boolean, unrecognised, AttributeList, nil, cons,
}

-- `memcmp` on octets of one length, and equality of strings.
unfoldable pub octets_eq : List ℕ → List ℕ → Bool
octets_eq [] [] = true
octets_eq [] (y ∷ ys) = false
octets_eq (x ∷ xs) [] = false
octets_eq (x ∷ xs) (y ∷ ys) = x == y && octets_eq xs ys

unfoldable pub bool_eq : Bool → Bool → Bool
bool_eq true true = true
bool_eq false false = true
bool_eq true false = false
bool_eq false true = false

-- Two attributes are equal if they have one ID, one class and one content. The loop over two lists
-- of one size stops at the end of the first.
unfoldable mutual
  unfolding octets_eq bool_eq

  pub attribute_eq : Attribute → Attribute → Bool
  attribute_eq (compound id l) (compound id' l') =
      id == id' && (size l == size l' && members_eq l l')
  attribute_eq (unsigned_integer id n) (unsigned_integer id' n') = id == id' && n == n'
  attribute_eq (signed_integer id n) (signed_integer id' n') = id == id' && n == n'
  attribute_eq (binary id c) (binary id' c') =
      id == id' && (length c == length c' && octets_eq c c')
  attribute_eq (string id c) (string id' c') = id == id' && octets_eq c c'
  attribute_eq (timestamp id s n) (timestamp id' s' n') = id == id' && (s == s' && n == n')
  attribute_eq (boolean id b) (boolean id' b') = id == id' && bool_eq b b'
  attribute_eq (unrecognised id c) (unrecognised id' c') =
      id == id' && (length c == length c' && octets_eq c c')
  attribute_eq _ _ = false

  pub members_eq : AttributeList → AttributeList → Bool
  members_eq nil m = true
  members_eq (cons a l) nil = true
  members_eq (cons a l) (cons b m) = attribute_eq a b && members_eq l m

-- `operator==` and `operator<=`.
unfoldable pub list_eq : AttributeList → AttributeList → Bool
list_eq l m = size l == size m && members_eq l m

unfoldable pub list_le : AttributeList → AttributeList → Bool
list_le l m = leb (size l) (size m) && members_eq l m

pub octets_eq→eq : (xs ys : List ℕ) → octets_eq xs ys ≡ true → xs ≡ ys
unfolding octets_eq
octets_eq→eq [] [] h = refl
octets_eq→eq [] (y ∷ ys) h = cc
octets_eq→eq (x ∷ xs) [] h = cc
octets_eq→eq (x ∷ xs) (y ∷ ys) h = ground (arith, octets_eq→eq xs ys)

octets_eq_refl : (xs : List ℕ) → octets_eq xs xs ≡ true
unfolding octets_eq
octets_eq_refl [] = refl
octets_eq_refl (x ∷ xs) = ground (arith, octets_eq_refl xs)

bool_eq→eq : (b c : Bool) → bool_eq b c ≡ true → b ≡ c
unfolding bool_eq
bool_eq→eq true true h = refl
bool_eq→eq false false h = refl
bool_eq→eq true false h = cc
bool_eq→eq false true h = cc

bool_eq_refl : (b : Bool) → bool_eq b b ≡ true
unfolding bool_eq
bool_eq_refl true = refl
bool_eq_refl false = refl

size-append : (l m : AttributeList) → size (append l m) ≡ size l + size m
size-append nil m = omega arith
size-append (cons a l) m = omega (arith, size-append l m)

mutual
  unfolding attribute_eq

  attribute_eq→eq : (a b : Attribute) → attribute_eq a b ≡ true → a ≡ b
  attribute_eq→eq (compound id l) (compound id' l') h =
      let (i, r) = and_parts (id == id') _ h in
      let (n, m) = and_parts (size l == size l') _ r in
      cc (test→eq id id' i, members_eq→eq l l' m (test→eq (size l) (size l') n))
  attribute_eq→eq (unsigned_integer id n) (unsigned_integer id' n') h =
      let (i, c) = and_parts (id == id') _ h in cc (test→eq id id' i, test→eq n n' c)
  attribute_eq→eq (signed_integer id n) (signed_integer id' n') h =
      let (i, c) = and_parts (id == id') _ h in cc (test→eq id id' i, test→eq n n' c)
  attribute_eq→eq (binary id c) (binary id' c') h =
      let (i, r) = and_parts (id == id') _ h in
      let (n, m) = and_parts (length c == length c') _ r in
      cc (test→eq id id' i, octets_eq→eq c c' m)
  attribute_eq→eq (string id c) (string id' c') h =
      let (i, m) = and_parts (id == id') _ h in cc (test→eq id id' i, octets_eq→eq c c' m)
  attribute_eq→eq (timestamp id s n) (timestamp id' s' n') h =
      let (i, r) = and_parts (id == id') _ h in
      let (c, d) = and_parts (s == s') _ r in cc (test→eq id id' i, test→eq s s' c, test→eq n n' d)
  attribute_eq→eq (boolean id b) (boolean id' b') h =
      let (i, m) = and_parts (id == id') _ h in cc (test→eq id id' i, bool_eq→eq b b' m)
  attribute_eq→eq (unrecognised id c) (unrecognised id' c') h =
      let (i, r) = and_parts (id == id') _ h in
      let (n, m) = and_parts (length c == length c') _ r in
      cc (test→eq id id' i, octets_eq→eq c c' m)
  attribute_eq→eq _ _ h = cc

  members_eq→eq : (l m : AttributeList) → members_eq l m ≡ true → size l ≡ size m → l ≡ m
  members_eq→eq nil nil h e = refl
  members_eq→eq nil (cons b m) h e = absurd (omega arith)
  members_eq→eq (cons a l) nil h e = absurd (omega arith)
  members_eq→eq (cons a l) (cons b m) h e =
      let (x, y) = and_parts (attribute_eq a b) _ h in
      cc (attribute_eq→eq a b x, members_eq→eq l m y (omega arith))

mutual
  unfolding attribute_eq

  attribute_eq_refl : (a : Attribute) → attribute_eq a a ≡ true
  attribute_eq_refl (compound id l) = simp (test_refl, members_eq_refl l)
  attribute_eq_refl (unsigned_integer id n) = simp test_refl
  attribute_eq_refl (signed_integer id n) = simp test_refl
  attribute_eq_refl (binary id c) = simp (test_refl, octets_eq_refl)
  attribute_eq_refl (string id c) = simp (test_refl, octets_eq_refl)
  attribute_eq_refl (timestamp id s n) = simp test_refl
  attribute_eq_refl (boolean id b) = simp (test_refl, bool_eq_refl)
  attribute_eq_refl (unrecognised id c) = simp (test_refl, octets_eq_refl)

  members_eq_refl : (l : AttributeList) → members_eq l l ≡ true
  members_eq_refl nil = refl
  members_eq_refl (cons a l) = simp (attribute_eq_refl a, members_eq_refl l)

-- `operator==` on attributes, of any classes, holds exactly when class, ID and content are the same.
pub attribute_eq_iff : (a b : Attribute) → (attribute_eq a b ≡ true) ↔ (a ≡ b)
attribute_eq_iff a b = (attribute_eq→eq a b, λ e. rw (← e) (attribute_eq_refl a))

members_eq-append : (l m : AttributeList) → members_eq l (append l m) ≡ true
unfolding members_eq
members_eq-append nil m = refl
members_eq-append (cons a l) m = simp (attribute_eq_refl a, members_eq-append l m)

members_eq-IsPrefix :
    (l m : AttributeList)
    → members_eq l m ≡ true
    → size l ≤ size m
    → (rest : AttributeList) × (m ≡ append l rest)
unfolding members_eq
members_eq-IsPrefix nil m h e = (m, refl)
members_eq-IsPrefix (cons a l) nil h e = absurd (omega arith)
members_eq-IsPrefix (cons a l) (cons b m) h e =
    let (x, y) = and_parts (attribute_eq a b) _ h in
    let (rest, p) = members_eq-IsPrefix l m y (omega arith) in
    let same = attribute_eq→eq a b x in (rest, cc)

-- `operator==` on attribute lists is equality of members in order, and `operator<=` holds exactly
-- when the left list is a prefix of the right one.
pub list_comparisons :
    (l m : AttributeList)
    → ((list_eq l m ≡ true) ↔ (l ≡ m))
      × ((list_le l m ≡ true) ↔ ((rest : AttributeList) × (m ≡ append l rest)))
unfolding list_eq list_le
list_comparisons l m = (
  (
    λ h.
        let (n, e) = and_parts (size l == size m) _ h in
        members_eq→eq l m e (test→eq (size l) (size m) n),
    λ e. rw (← e) (simp (test_refl, members_eq_refl)),
  ),
  (
    λ h.
        let (n, e) = and_parts (leb (size l) (size m)) _ h in
        members_eq-IsPrefix l m e (ground arith),
    λ (rest, e).
        rw e (and_join _ _ (ground (arith, size-append l rest)) (members_eq-append l rest)),
  ),
)
