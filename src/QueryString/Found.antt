-- ===== src/QueryString/Found.antt =====
-- What is found under a name when parameters have been assigned one after the other, as in the
-- constructor in horace/query_string.cc.
use libholmes_horace.QueryString.{Parameters, same_text, assign, find_text}
use libholmes_horace.Common.{
  ℕ, ◌≡◌, refl, ap, ◌∙◌, inl, inr, Bool, true, false, Option, some, List, [], ◌∷◌, arith, ◌==◌,
  if◌then◌else◌, Bool-cases, and_parts, and_join, test→eq,
}

-- The value of the last parameter with a name.
unfoldable pub last_value : List ℕ → Parameters → Option (List ℕ) → Option (List ℕ)
last_value name [] found = found
last_value name ((n, v) ∷ qs) found =
    last_value name qs (if same_text n name then some v else found)

unfoldable pub assigned : Parameters → Parameters → Parameters
assigned [] ps = ps
assigned ((name, value) ∷ qs) ps = assigned qs (assign name value ps)

same_text→eq : (s t : List ℕ) → same_text s t ≡ true → s ≡ t
unfolding same_text
same_text→eq [] [] h = refl
same_text→eq [] (b ∷ t) h = cc
same_text→eq (a ∷ s) [] h = cc
same_text→eq (a ∷ s) (b ∷ t) h =
    let (first, others) = and_parts (a == b) (same_text s t) h in
    rw (test→eq a b first, same_text→eq s t others) refl

same_text_refl : (s : List ℕ) → same_text s s ≡ true
unfolding same_text
same_text_refl [] = refl
same_text_refl (c ∷ s) = and_join (c == c) (same_text s s) (ground arith) (same_text_refl s)

if_twice :
    {A : Type 0} (b : Bool) (x y z : A)
    → (if b then x else z) ≡ (if b then x else if b then y else z)
if_twice true x y z = refl
if_twice false x y z = refl

-- Two tests that do not both hold.
if_exchanged :
    {A : Type 0} (b d : Bool) (x y z : A)
    → (b ≡ true → d ≡ true → ⊥)
    → (if b then y else if d then x else z) ≡ (if d then x else if b then y else z)
if_exchanged true true x y z h = absurd (h refl refl)
if_exchanged true false x y z h = refl
if_exchanged false d x y z h = refl

find_text-assign :
    (name n v : List ℕ) (ps : Parameters)
    → find_text name (assign n v ps) ≡ (if same_text n name then some v else find_text name ps)
unfolding find_text assign
find_text-assign name n v [] = refl
find_text-assign name n v ((n', v') ∷ ps) = elim (Bool-cases (same_text n' n)) [
  | inl t ↦ rw (t, same_text→eq n' n t) (if_twice (same_text n name) _ _ _)
  | inr t ↦
      let not_both : same_text n' name ≡ true → same_text n name ≡ true → ⊥ = λ b d.
        let same : same_text n' n ≡ true =
          rw (same_text→eq n' name b, same_text→eq n name d) (same_text_refl name) in
        cc in
      rw (t, find_text-assign name n v ps)
        (if_exchanged (same_text n' name) (same_text n name) _ _ _ not_both)
]

pub find_text-assigned :
    (name : List ℕ) (qs ps : Parameters)
    → find_text name (assigned qs ps) ≡ last_value name qs (find_text name ps)
unfolding assigned last_value
find_text-assigned name [] ps = refl
find_text-assigned name ((n, v) ∷ qs) ps =
    find_text-assigned name qs (assign n v ps)
    ∙ ap (last_value name qs) (find_text-assign name n v ps)
