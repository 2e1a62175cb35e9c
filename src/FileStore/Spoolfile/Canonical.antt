-- ===== src/FileStore/Spoolfile/Canonical.antt =====
-- A name of a spoolfile is the number that it is read as, behind zeros.
use libholmes_horace.FileStore.Spoolfile.{
  ulong_max, add_char, char_loop, from_filename, digits_loop, digits, zeros, starts_with_zero,
  Spoolfile,
}
use libholmes_horace.Common.{
  ℕ, zero, suc, ◌+◌, ◌-◌, ◌*◌, ◌/◌, ◌%◌, ◌^◌, ◌≤◌, ◌<◌, ◌≡◌, refl, sym, ap, ◌∙◌, inl, inr, true,
  false, List, [], ◌∷◌, ◌++◌, append_assoc, append-nil, arith, ltb, ◌==◌, Bool-cases, test→eq,
  length, bind-eq-ok, ok,
}
use libholmes_horace.Common.Decimal.{is_digit, digit_range}

digits_loop-append :
    (fuel n : ℕ) (s t : List ℕ) → digits_loop fuel n (s ++ t) ≡ digits_loop fuel n s ++ t
unfolding digits_loop
digits_loop-append zero n s t = refl
digits_loop-append (suc fuel) n s t = elim (Bool-cases (ltb n 10)) [
  | inl e ↦ rw (e) refl
  | inr e ↦ rw (e) (digits_loop-append fuel (n / 10) ((48 + n % 10) ∷ s) t)
]

more_fuel :
    (fuel n : ℕ) (s : List ℕ)
    → n < 10 ^ suc fuel
    → digits_loop (suc (suc fuel)) n s ≡ digits_loop (suc fuel) n s
unfolding digits_loop
more_fuel zero n s low = let one : ltb n 10 ≡ true = ground (arith, low) in rw (one) refl
more_fuel (suc fuel) n s low = elim (Bool-cases (ltb n 10)) [
  | inl e ↦ rw (e) refl
  | inr e ↦ rw (e) (more_fuel fuel (n / 10) ((48 + n % 10) ∷ s) (omega arith))
]

step :
    (fuel n : ℕ) (s : List ℕ)
    → ltb n 10 ≡ false
    → digits_loop (suc fuel) n s ≡ digits_loop fuel (n / 10) ((48 + n % 10) ∷ s)
unfolding digits_loop
step fuel n s t = rw (t) refl

-- One digit more.
next_digit :
    (fuel m d : ℕ)
    → 1 ≤ m
    → d < 10
    → m < 10 ^ suc fuel
    → digits_loop (suc (suc fuel)) (m * 10 + d) []
      ≡ digits_loop (suc (suc fuel)) m [] ++ ((48 + d) ∷ [])
next_digit fuel m d some_there low fits =
    let more : ltb (m * 10 + d) 10 ≡ false = ground (arith, some_there) in
    let above : (m * 10 + d) / 10 ≡ m = omega (arith, low) in
    let last : (m * 10 + d) % 10 ≡ d = omega (arith, low) in
    step (suc fuel) (m * 10 + d) [] more
    ∙ rw (above, last) (sym (more_fuel fuel m ((48 + d) ∷ []) fits))
    ∙ digits_loop-append (suc (suc fuel)) m [] ((48 + d) ∷ [])

digits-next :
    (m d : ℕ)
    → 1 ≤ m
    → d < 10
    → m * 10 + d < 2 ^ 64
    → digits (m * 10 + d) ≡ digits m ++ ((48 + d) ∷ [])
unfolding digits
digits-next m d some_there low fits = next_digit 18 m d some_there low (omega (arith, fits))

-- A character that is taken is a digit, and the number stays one of 64 bits.
pub added :
    (m c n : ℕ)
    → add_char m c ≡ ok n
    → (c ≡ 48 + (c - 48)) × (c - 48 < 10) × (n ≡ m * 10 + (c - 48)) × (n < 2 ^ 64)
unfolding add_char
added m c n e = elim (Bool-cases (is_digit c)) [
  | inr t ↦ (let h = rw (t) at e in cc)
  | inl t ↦ elim (Bool-cases (ltb (ulong_max / 10) m)) [
    | inl u ↦ (let h = rw (t, u) at e in cc)
    | inr u ↦ elim (Bool-cases (ltb (ulong_max - (c - 48)) (m * 10))) [
      | inl v ↦ (let h = rw (t, u, v) at e in cc)
      | inr v ↦
          let h = rw (t, u, v) at e in
          let n_eq : n ≡ m * 10 + (c - 48) = cc in
          let range = digit_range c t in
          (omega (arith, range), omega (arith, range), n_eq, ground (arith, n_eq, v, range))
    ]
  ]
]

-- The rest of a name, behind a number that is not zero.
digits-char_loop :
    (m : ℕ) (s : List ℕ) (n : ℕ) → 1 ≤ m → char_loop m s ≡ ok n → digits n ≡ digits m ++ s
unfolding char_loop
digits-char_loop m [] n some_there e =
    let same : m ≡ n = cc in rw (same) (sym (append-nil (digits n)))
digits-char_loop m (c ∷ s) n some_there e =
    let (m', taken, rest) = bind-eq-ok _ _ e in
    let (digit, low, number, fits) = added m c m' taken in
    digits-char_loop m' s n (omega (arith, number, some_there)) rest
    ∙ ap (λ t. t ++ s)
        (ap digits number ∙ digits-next m (c - 48) some_there low (omega (arith, number, fits)))
    ∙ append_assoc (digits m) ((48 + (c - 48)) ∷ []) s
    ∙ ap (λ x. digits m ++ (x ∷ s)) (sym digit)

digits-small : (n : ℕ) → n < 10 → digits n ≡ (48 + n) ∷ []
unfolding digits digits_loop
digits-small n low =
    let t : ltb n 10 ≡ true = ground (arith, low) in
    let same : n % 10 ≡ n = omega (arith, low) in rw (t, same) refl

-- A name that is read as a number is the digits of the number behind zeros, behind none unless it
-- starts with one.
pub canonical :
    (s : List ℕ) (n : ℕ)
    → 1 ≤ length s
    → char_loop 0 s ≡ ok n
    → (k : ℕ) × (s ≡ zeros k ++ digits n) × (starts_with_zero s ≡ false → k ≡ 0)
unfolding char_loop zeros starts_with_zero
canonical [] n some_there e = absurd (omega (arith, some_there))
canonical (c ∷ []) n some_there e =
    let (m', taken, rest) = bind-eq-ok _ _ e in
    let (digit, low, number, fits) = added 0 c m' taken in
    let same : m' ≡ n = cc in
    let value : n ≡ c - 48 = omega (arith, same, number) in
    (0, rw (value, digits-small (c - 48) low, sym digit) refl, λ t. refl)
canonical (c ∷ d ∷ s) n some_there e =
    let (m', taken, rest) = bind-eq-ok _ _ e in
    let (digit, low, number, fits) = added 0 c m' taken in
    let value : m' ≡ c - 48 = omega (arith, number) in
    elim (Bool-cases (c == 48)) [
      | inl z ↦
          let nothing_yet : m' ≡ 0 = ground (arith, value, z) in
          let (k, same, unpadded) = canonical (d ∷ s) n (omega arith) (rw (nothing_yet) at rest) in
          (
            suc k,
            ap (λ x. x ∷ d ∷ s) (test→eq c 48 z) ∙ ap (λ t. 48 ∷ t) same,
            λ t. (let no = rw (z) at t in cc),
          )
      | inr z ↦
          let whole = digits-char_loop m' (d ∷ s) n (ground (arith, value, digit, z)) rest in
          let first : digits m' ≡ c ∷ [] =
            ap digits value ∙ digits-small (c - 48) low ∙ ap (λ x. x ∷ []) (sym digit) in
          (0, sym (whole ∙ ap (λ t. t ++ (d ∷ s)) first), λ t. refl)
    ]

char_loop_fits : (m : ℕ) (s : List ℕ) (n : ℕ) → m < 2 ^ 64 → char_loop m s ≡ ok n → n < 2 ^ 64
unfolding char_loop
char_loop_fits m [] n low e = let same : m ≡ n = cc in omega (arith, same, low)
char_loop_fits m (c ∷ s) n low e =
    let (m', taken, rest) = bind-eq-ok (add_char m c) _ e in
    let (_, _, _, fits) = added m c m' taken in char_loop_fits m' s n fits rest

-- A name that is accepted.
pub from_filename_parts :
    (name : List ℕ) (sf : Spoolfile)
    → from_filename name ≡ ok sf
    → (1 ≤ length name)
      × (char_loop 0 name ≡ ok sf.filenum)
      × (sf.filename ≡ name)
      × (sf.filenum < 2 ^ 64)
unfolding from_filename
from_filename_parts name sf e = elim (Bool-cases (length name == 0)) [
  | inl t ↦ (let h = rw (t) at e in cc)
  | inr t ↦
      let h = rw (t) at e in
      let (n, number, same) = bind-eq-ok (char_loop 0 name) _ h in
      let filenum : sf.filenum ≡ n = cc in
      let filename : sf.filename ≡ name = cc in
      (
        ground (arith, t),
        number ∙ ap ok (sym filenum),
        filename,
        rw (filenum) (char_loop_fits 0 name n (omega arith) number),
      )
]
