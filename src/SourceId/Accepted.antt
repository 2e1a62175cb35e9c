-- ===== src/SourceId/Accepted.antt =====
-- Which source identifiers are accepted.
use libholmes_horace.SourceId.{
  dash, full_stop, between, isalnum, check_characters, starts_with, source_id,
}
use libholmes_horace.Common.{
  ℕ, ◌≤◌, ◌≡◌, refl, ◌↔◌, ◌⊎◌, inl, inr, Bool, true, false, not, ◌&&◌, List, [], ◌∷◌, arith, ltb,
  ◌==◌, Bool-cases, length, throw_if, bind-eq-ok, Error, ok,
}

-- A letter, a digit, a dash or a full stop.
abbrev pub IsIdCharacter : ℕ → Type 0
IsIdCharacter c =
    ((0x30 ≤ c) × (c ≤ 0x39))
    ⊎ (((0x41 ≤ c) × (c ≤ 0x5a)) ⊎ (((0x61 ≤ c) × (c ≤ 0x7a)) ⊎ ((c ≡ dash) ⊎ (c ≡ full_stop))))

abbrev pub AreIdCharacters : List ℕ → Type 0
AreIdCharacters [] = Unit {0}
AreIdCharacters (c ∷ s) = IsIdCharacter c × AreIdCharacters s

-- One to 255 characters of these kinds, the first of them no full stop.
abbrev pub IsSourceId : List ℕ → Type 0
IsSourceId id =
    (1 ≤ length id) × (length id ≤ 255) × AreIdCharacters id × (starts_with full_stop id ≡ false)

abbrev refused : ℕ → Bool
refused c = not (isalnum c) && (not (c == dash) && not (c == full_stop))

refused-false : (c : ℕ) → refused c ≡ false → IsIdCharacter c
unfolding isalnum between
refused-false c e = ground arith

refused_character : (c : ℕ) → IsIdCharacter c → refused c ≡ false
unfolding isalnum between
refused_character c h = ground arith

check_characters-ok : (s : List ℕ) → check_characters s ≡ ok tt → AreIdCharacters s
unfolding check_characters
check_characters-ok [] e = tt
check_characters-ok (c ∷ s) e = elim (Bool-cases (refused c)) [
  | inl t ↦ (let h = rw (t) at e in cc)
  | inr t ↦ (refused-false c t, check_characters-ok s (rw (t) at e))
]

check_characters-accepts : (s : List ℕ) → AreIdCharacters s → check_characters s ≡ ok tt
unfolding check_characters
check_characters-accepts [] h = refl
check_characters-accepts (c ∷ s) (h, k) = rw (refused_character c h) (check_characters-accepts s k)

throw_if-ok : (b : Bool) (e : Error) (u : Unit {0}) → throw_if b e ≡ ok u → b ≡ false
throw_if-ok true e u h = cc
throw_if-ok false e u h = refl

-- A text is accepted exactly if it has one to 255 characters, each a letter, a digit, a dash or a
-- full stop, and the first of them no full stop; the identifier then holds the text.
pub source_id_iff : (id : List ℕ) → (source_id id ≡ ok (record { id = id })) ↔ IsSourceId id
unfolding source_id
source_id_iff id = (
  (λ e.
      let (_, filled, e₁) = bind-eq-ok (throw_if (length id == 0) _) _ e in
      let (_, short, e₂) = bind-eq-ok (throw_if (ltb 255 (length id)) _) _ e₁ in
      let (_, valid, e₃) = bind-eq-ok (check_characters id) _ e₂ in
      let (_, start, _) = bind-eq-ok (throw_if (starts_with full_stop id) _) _ e₃ in
      let filled' = throw_if-ok _ _ _ filled in
      let short' = throw_if-ok _ _ _ short in
      (ground arith, ground arith, check_characters-ok id valid, throw_if-ok _ _ _ start)),
  λ (filled, short, characters, start).
      let filled' : (length id == 0) ≡ false = ground arith in
      let short' : ltb 255 (length id) ≡ false = ground arith in
      rw (filled', short', check_characters-accepts id characters, start) refl,
)
