-- ===== src/FileStore/Spoolfile/Names.antt =====
-- The names that horace+file makes for spoolfiles are read back.
use libholmes_horace.FileStore.Spoolfile.{
  add_char, char_loop, from_filename, digits_loop, digits, zeros, field_width, padded, from_filenum,
}
use libholmes_horace.Common.{
  ℕ, zero, suc, ◌+◌, ◌-◌, ◌*◌, ◌/◌, ◌%◌, ◌^◌, ◌≤◌, ◌<◌, ◌≡◌, refl, ◌∙◌, inl, inr, true, false, List,
  [], ◌∷◌, ◌++◌, arith, ltb, ◌==◌, Bool-cases, if-cases, length, length-append, ok,
}

-- The next digit is taken as long as the number fits.
add_digit_fits : (n d : ℕ) → d < 10 → n * 10 + d < 2 ^ 64 → add_char n (48 + d) ≡ ok (n * 10 + d)
unfolding add_char
add_digit_fits n d low fits = ground arith

-- Reading the digits of a number behind those of another goes on from the number.
char_loop-digits_loop :
    (fuel n : ℕ) (others : List ℕ)
    → n < 10 ^ fuel
    → n < 2 ^ 64
    → char_loop 0 (digits_loop fuel n others) ≡ char_loop n others
unfolding char_loop digits_loop
char_loop-digits_loop zero n others low fits = let z : n ≡ 0 = omega arith in rw (z) refl
char_loop-digits_loop (suc fuel) n others low fits =
    let whole : n / 10 * 10 + n % 10 ≡ n = omega arith in
    elim (Bool-cases (ltb n 10)) [
      | inl t ↦
          let digit : n % 10 ≡ n = ground (arith, t) in
          let none_before : 0 * 10 + n ≡ n = omega arith in
          rw (t, digit, add_digit_fits 0 n (ground (arith, t)) (omega arith), none_before) refl
      | inr t ↦
          let fewer : n / 10 < 10 ^ fuel = omega arith in
          rw
            (
              t,
              char_loop-digits_loop fuel (n / 10) ((48 + n % 10) ∷ others) fewer (omega arith),
              add_digit_fits (n / 10) (n % 10) (omega arith) (omega arith),
              whole,
            )
            refl
    ]

char_loop-zeros : (k : ℕ) (s : List ℕ) → char_loop 0 (zeros k ++ s) ≡ char_loop 0 s
unfolding char_loop add_char zeros
char_loop-zeros zero s = refl
char_loop-zeros (suc k) s = char_loop-zeros k s

starts_somewhere :
    (fuel n : ℕ) (others : List ℕ) → 1 ≤ length others → 1 ≤ length (digits_loop fuel n others)
unfolding digits_loop
starts_somewhere zero n others h = h
starts_somewhere (suc fuel) n others h =
    if-cases (λ s. 1 ≤ length s) (ltb n 10) ((48 + n % 10) ∷ others) _ (λ t. omega arith)
      (λ t. starts_somewhere fuel (n / 10) ((48 + n % 10) ∷ others) (omega arith))

pub length-digits : (n : ℕ) → 1 ≤ length (digits n)
unfolding digits digits_loop
length-digits n =
    if-cases (λ s. 1 ≤ length s) (ltb n 10) ((48 + n % 10) ∷ []) _ (λ t. omega arith)
      (λ t. starts_somewhere 19 (n / 10) ((48 + n % 10) ∷ []) (omega arith))

pub field_width_lem : (minwidth : ℕ) → minwidth < 2 ^ 31 → field_width minwidth ≡ minwidth
unfolding field_width
field_width_lem minwidth small =
    let fits : ltb minwidth (2 ^ 31) ≡ true = ground (arith, small) in rw (fits) refl

-- A number below 2 ^ 64 is read back from the name that is made for it, with any minimum width.
pub from_filename-from_filenum :
    (n minwidth : ℕ)
    → n < 2 ^ 64
    → from_filename (from_filenum n minwidth).filename ≡ ok (from_filenum n minwidth)
unfolding from_filename from_filenum padded char_loop digits
from_filename-from_filenum n minwidth fits =
    let name : List ℕ = zeros (field_width minwidth - length (digits n)) ++ digits n in
    let some_there : 1 ≤ length name = omega (
      arith,
      length-digits n,
      length-append (zeros (field_width minwidth - length (digits n))) (digits n),
    ) in
    let there : (length name == 0) ≡ false = ground (arith, some_there) in
    let read : char_loop 0 name ≡ ok n =
      char_loop-zeros (field_width minwidth - length (digits n)) (digits n)
      ∙ char_loop-digits_loop 20 n [] (omega arith) fits in
    rw (there, read) refl
