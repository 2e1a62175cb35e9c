-- ===== src/Attribute/Lookup.antt =====
-- `contains`, `_find_one` and `find_one` of horace/attribute_list.{h,cc}.
use libholmes_horace.Common.{
  ℕ, suc, ◌≡◌, refl, inl, inr, Bool, false, not, ◌||◌, Option, none, some, List, arith, ◌==◌,
  if◌then◌else◌, Bool-cases, ◌>>=◌, bad_cast, horace_error_id, Result, ok, err,
}
use libholmes_horace.Attribute.{
  attrid, size, Attribute, unsigned_integer, signed_integer, string, AttributeList, nil, cons,
}

unfoldable pub contains : AttributeList → ℕ → Bool
contains nil id = false
contains (cons a l) id = attrid a == id || contains l id

-- The loop of `_find_one`, with the attribute that `found` points to.
unfoldable pub find_loop : ℕ → Option Attribute → AttributeList → Result Attribute
find_loop id none nil = err (horace_error_id "expected attribute" id)
find_loop id (some a) nil = ok a
find_loop id none (cons a l) =
    let next = find_loop id (some a) l in
    let skip = find_loop id none l in if attrid a == id then next else skip
find_loop id (some b) (cons a l) =
    let skip = find_loop id (some b) l in
    if attrid a == id then err (horace_error_id "unexpected multiple attributes" id) else skip

unfoldable pub find_one : AttributeList → ℕ → Result Attribute
find_one l id = find_loop id none l

-- `dynamic_cast<T&>(…).content()`: the cast throws where the attribute is of another class.
unfoldable pub as_signed_integer : Attribute → Result ℕ
as_signed_integer (signed_integer _ content) = ok content
as_signed_integer _ = err bad_cast

unfoldable pub as_unsigned_integer : Attribute → Result ℕ
as_unsigned_integer (unsigned_integer _ content) = ok content
as_unsigned_integer _ = err bad_cast

unfoldable pub as_string : Attribute → Result (List ℕ)
as_string (string _ content) = ok content
as_string _ = err bad_cast

-- `find_one<T>(id).content()`
unfoldable pub find_signed_integer : AttributeList → ℕ → Result ℕ
unfolding as_signed_integer
find_signed_integer l id = do a ← find_one l id; as_signed_integer a

unfoldable pub find_unsigned_integer : AttributeList → ℕ → Result ℕ
unfolding as_unsigned_integer
find_unsigned_integer l id = do a ← find_one l id; as_unsigned_integer a

unfoldable pub find_string : AttributeList → ℕ → Result (List ℕ)
unfolding as_string
find_string l id = do a ← find_one l id; as_string a

-- The members with a given ID, in order.
unfoldable pub occurrences : AttributeList → ℕ → AttributeList
occurrences nil id = nil
occurrences (cons a l) id = if attrid a == id then cons a (occurrences l id) else occurrences l id

-- What the search should answer, from the members with the ID.
unfoldable pub verdict : ℕ → AttributeList → Result Attribute
verdict id nil = err (horace_error_id "expected attribute" id)
verdict id (cons a nil) = ok a
verdict id (cons a (cons b l)) = err (horace_error_id "unexpected multiple attributes" id)

find_loop-some :
    (id : ℕ) (b : Attribute) (l : AttributeList)
    → find_loop id (some b) l ≡ verdict id (cons b (occurrences l id))
unfolding find_loop occurrences verdict
find_loop-some id b nil = refl
find_loop-some id b (cons a l) = ground (arith, find_loop-some id b l)

suc_test : (n : ℕ) → (suc n == 0) ≡ false
suc_test n = ground arith

-- `find_one` returns the only member with the ID, and throws where there is none or more than one;
-- `contains` says whether there is one.
pub find_one-occurrences :
    (l : AttributeList) (id : ℕ)
    → (find_one l id ≡ verdict id (occurrences l id))
      × (contains l id ≡ not (size (occurrences l id) == 0))
unfolding find_one find_loop occurrences verdict contains
find_one-occurrences nil id = (refl, refl)
find_one-occurrences (cons a l) id =
    let (f, c) = find_one-occurrences l id in
    elim (Bool-cases (attrid a == id)) [
      | inl e ↦ rw e (find_loop-some id a l, rw (suc_test (size (occurrences l id))))
      | inr e ↦ rw e (f, c)
    ]
