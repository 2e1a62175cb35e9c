-- ===== src/Common/Text.antt =====
-- The operations of `std::string` that the program uses, on a string as the list of its octets.
use Prim.Native.Char.{code}
use Prim.Native.Nat.{ℕ, zero, suc, ◌-◌, ◌≤◌, ◌<◌}
use Prim.Native.String.{String}
use mathlib.Core.Path.{◌≡◌, refl, ap}
use mathlib.Core.Bool.{Bool, true, false}
use mathlib.Core.Option.{Option, none, some}
use mathlib.Core.List.{List, [], ◌∷◌, ◌++◌}
use native.Mathlib.Omega.{arith}
use native.Mathlib.Numerals.{unary_clauses}
use libholmes_horace.Common.Tests.{ltb, if◌then◌else◌, ltb-false, if-cases}
use libholmes_horace.Common.Lists.{length, take, drop, All}
use libholmes_horace.Common.Outcome.{throw_if, ◌>>◌, out_of_range, Result, ok}

abbrev pub Octets : List ℕ → Type 0
Octets s = All (λ c. c < 256) s

-- The octets of a text in ASCII.
unfoldable pub octets_of : String → List ℕ
octets_of String.[] = []
octets_of (String.◌∷◌ c s) = code c ∷ octets_of s

-- `s[index]`, which is the terminating NUL at the end. The program does not read further.
unfoldable pub char_at : List ℕ → ℕ → ℕ
char_at [] index = 0
char_at (c ∷ s) zero = c
char_at (c ∷ s) (suc index) = char_at s index

abbrev pub advance : Option ℕ → Option ℕ
advance none = none
advance (some n) = some (suc n)

-- `s.find(c, index)` and `s.find_first_of(cs, index)`, where `test` accepts the characters sought;
-- `npos` is `none`.
unfoldable pub find_if : (ℕ → Bool) → List ℕ → ℕ → Option ℕ
find_if test [] index = none
find_if test (c ∷ s) (suc index) = advance (find_if test s index)
find_if test (c ∷ s) zero =
    let rest = find_if test s zero in if test c then some 0 else advance rest

-- `if (index == npos) { index = s.length(); }`
abbrev pub or_length : List ℕ → Option ℕ → ℕ
or_length s none = length s
or_length s (some index) = index

-- `s.substr(index, count)`
unfoldable pub substr : List ℕ → ℕ → ℕ → Result (List ℕ)
substr s index count =
    throw_if (ltb (length s) index) out_of_range >> ok (take count (drop index s))

-- Where the search ends: at a character that is sought, or at the end of the string.
pub data Ends (test : ℕ → Bool) (s : List ℕ) (index : ℕ) : Option ℕ → Type 0 where
  at_match :
      (k : ℕ) → index ≤ k → k < length s → test (char_at s k) ≡ true → Ends test s index (some k)
  at_end : Ends test s index none

Ends-advance :
    (test : ℕ → Bool) (c : ℕ) (s : List ℕ) (index : ℕ) (found : Option ℕ)
    → Ends test s index found
    → Ends test (c ∷ s) (suc index) (advance found)
unfolding char_at
Ends-advance test c s index _ (at_match k low high h) =
    at_match (suc k) (omega arith) (omega arith) h
Ends-advance test c s index _ at_end = at_end

Ends-zero :
    (test : ℕ → Bool) (s : List ℕ) (index : ℕ) (found : Option ℕ)
    → Ends test s (suc index) found
    → Ends test s 0 found
Ends-zero test s index _ (at_match k low high h) = at_match k (omega arith) high h
Ends-zero test s index _ at_end = at_end

pub find_if-Ends :
    (test : ℕ → Bool) (s : List ℕ) (index : ℕ) → Ends test s index (find_if test s index)
unfolding find_if char_at
find_if-Ends test [] index = at_end
find_if-Ends test (c ∷ s) (suc index) = Ends-advance test c s index _ (find_if-Ends test s index)
find_if-Ends test (c ∷ s) zero =
    if-cases (Ends test (c ∷ s) 0) (test c) _ _ (λ h. at_match 0 (omega arith) (omega arith) h)
      (λ h. Ends-zero test (c ∷ s) 0 _ (Ends-advance test c s 0 _ (find_if-Ends test s 0)))

pub take-length : (s : List ℕ) → take (length s) s ≡ s
take-length [] = refl
take-length (c ∷ s) = ap (λ t. c ∷ t) (take-length s)

pub take-nil : (n : ℕ) → ◌≡◌ {A = List ℕ} (take n []) []
take-nil zero = refl
take-nil (suc n) = refl

-- A prefix is extended by the text between two positions.
pub take-between :
    (s : List ℕ) (low high : ℕ)
    → low ≤ high
    → take low s ++ take (high - low) (drop low s) ≡ take high s
take-between s zero high h = simp unary_clauses refl
take-between [] (suc low) zero h = absurd (omega arith)
take-between [] (suc low) (suc high) h = take-nil (suc high - suc low)
take-between (c ∷ s) (suc low) zero h = absurd (omega arith)
take-between (c ∷ s) (suc low) (suc high) h =
    let e : suc high - suc low ≡ high - low = omega arith in
    rw (e) (ap (λ t. c ∷ t) (take-between s low high (omega arith)))

-- A prefix is extended by the next character.
pub take-char_at :
    (s : List ℕ) (index : ℕ)
    → index < length s
    → take index s ++ (char_at s index ∷ []) ≡ take (suc index) s
unfolding char_at
take-char_at [] index h = absurd (omega arith)
take-char_at (c ∷ s) zero h = refl
take-char_at (c ∷ s) (suc index) h = ap (λ t. c ∷ t) (take-char_at s index (omega arith))

pub substr-eq :
    (s : List ℕ) (index count : ℕ)
    → index ≤ length s
    → substr s index count ≡ ok (take count (drop index s))
unfolding substr
substr-eq s index count h = rw (ltb-false h) refl

-- A position up to which a search has come: the end of the string, or a character that is sought.
abbrev pub Reached : (ℕ → Bool) → List ℕ → ℕ → Type 0
Reached test s index = index < length s → test (char_at s index) ≡ true

pub or_length-Reached :
    (test : ℕ → Bool) (s : List ℕ) (index : ℕ) (found : Option ℕ)
    → Ends test s index found
    → index ≤ length s
    → (index ≤ or_length s found)
      × (or_length s found ≤ length s)
      × Reached test s (or_length s found)
or_length-Reached test s index _ (at_match k low high h) le = (low, omega arith, λ below. h)
or_length-Reached test s index _ at_end le = (le, omega arith, λ below. absurd (omega arith))

-- No character of the text is one of those that `test` accepts.
abbrev pub Lacks : (ℕ → Bool) → List ℕ → Type 0
Lacks test text = All (λ c. test c ≡ false) text

or_length-advance :
    (c : ℕ) (s : List ℕ) (found : Option ℕ)
    → or_length (c ∷ s) (advance found) ≡ suc (or_length s found)
or_length-advance c s none = refl
or_length-advance c s (some k) = refl

nothing-Lacks : (test : ℕ → Bool) (n : ℕ) → Lacks test (take n [])
nothing-Lacks test zero = tt
nothing-Lacks test (suc n) = tt

-- A search stops at the first character that is sought.
pub find_if-Lacks :
    (test : ℕ → Bool) (s : List ℕ) (index : ℕ)
    → Lacks test (take (or_length s (find_if test s index) - index) (drop index s))
unfolding find_if
find_if-Lacks test [] zero = tt
find_if-Lacks test [] (suc index) = nothing-Lacks test (0 - suc index)
find_if-Lacks test (c ∷ s) (suc index) =
    let e : suc (or_length s (find_if test s index)) - suc index
        ≡ or_length s (find_if test s index) - index =
      omega arith in
    rw (or_length-advance c s (find_if test s index), e) (find_if-Lacks test s index)
find_if-Lacks test (c ∷ s) zero =
    if-cases (λ found. Lacks test (take (or_length (c ∷ s) found - 0) (c ∷ s))) (test c) _ _
      (λ h. tt)
      (λ h.
        let e : suc (or_length s (find_if test s 0)) - 0
            ≡ suc (or_length s (find_if test s 0) - 0) =
          omega arith in
        rw (or_length-advance c s (find_if test s 0), e) (h, find_if-Lacks test s 0))
