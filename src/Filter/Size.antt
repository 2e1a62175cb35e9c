-- ===== src/Filter/Size.antt =====
-- How long the compiled program of horace/address_filter.cc is, and that it is kept whole.
use libholmes_horace.Common.{
  ℕ, ◌+◌, ◌*◌, ◌%◌, ◌^◌, ◌≤◌, ◌<◌, ◌≡◌, refl, sym, ap, ◌∙◌, inl, inr, false, List, [], ◌∷◌, ◌++◌,
  arith, ltb, ◌==◌, if◌then◌else◌, Bool-cases, length, take, length-append, ok,
}
use libholmes_horace.Netblock.Inet4.{Inet4Netblock}
use libholmes_horace.Netblock.Inet6.{Inet6Netblock}
use libholmes_horace.Filter.{
  instruction, accept, extra_count, inet4_count, test_inet4, test_all_inet4, test_word, test_inet6,
  test_all_inet6, program, total_count, compile_filter, Instruction, return_constant,
}

length-test_inet4 :
    (k : ℕ) (nb : Inet4Netblock)
    → length (test_inet4 k nb) * 2 ≡ 6 + (if nb.prefix_length == 32 then 0 else 2)
unfolding test_inet4
length-test_inet4 k nb = elim (Bool-cases (nb.prefix_length == 32)) [
  | inl t ↦ rw (t) refl
  | inr t ↦ rw (t) refl
]

pub length-test_all_inet4 :
    (k : ℕ) (nbs : List Inet4Netblock)
    → length (test_all_inet4 k nbs) * 2 ≡ length nbs * 6 + extra_count nbs
unfolding test_all_inet4 extra_count
length-test_all_inet4 k [] = refl
length-test_all_inet4 k (nb ∷ nbs) = omega (
  arith,
  length-append (test_inet4 k nb) (test_all_inet4 k nbs),
  length-test_inet4 k nb,
  length-test_all_inet4 k nbs,
)

pub extra_count-le : (nbs : List Inet4Netblock) → extra_count nbs ≤ length nbs * 2
unfolding extra_count
extra_count-le [] = omega arith
extra_count-le (nb ∷ nbs) = elim (Bool-cases (nb.prefix_length == 32)) [
  | inl t ↦ rw (t) (omega (arith, extra_count-le nbs))
  | inr t ↦ rw (t) (omega (arith, extra_count-le nbs))
]

length-test_all_inet6 :
    (k : ℕ) (nbs : List Inet6Netblock) → length (test_all_inet6 k nbs) ≡ length nbs * 13
unfolding test_all_inet6 test_inet6 test_word
length-test_all_inet6 k [] = refl
length-test_all_inet6 k (nb ∷ nbs) =
    omega
      (arith, length-append (test_inet6 k nb) (test_all_inet6 k nbs), length-test_all_inet6 k nbs)

length-program :
    (inet4 : List Inet4Netblock) (inet6 : List Inet6Netblock)
    → length (program inet4 inet6) ≡ 6 + length inet4 * 6 + extra_count inet4 + length inet6 * 26
unfolding program
length-program inet4 inet6 =
    let rest6 : List Instruction =
      test_all_inet6 38 inet6 ++ (instruction return_constant 0 0 accept ∷ []) in
    let rest : List Instruction =
      instruction return_constant 0 0 accept ∷ (test_all_inet6 22 inet6 ++ rest6) in
    omega (
      arith,
      length-append (test_all_inet4 26 inet4) (test_all_inet4 30 inet4 ++ rest),
      length-append (test_all_inet4 30 inet4) rest,
      length-append (test_all_inet6 22 inet6) rest6,
      length-append (test_all_inet6 38 inet6) (instruction return_constant 0 0 accept ∷ []),
      length-test_all_inet4 26 inet4,
      length-test_all_inet4 30 inet4,
      length-test_all_inet6 22 inet6,
      length-test_all_inet6 38 inet6,
    )

take_all : (code : List Instruction) → take (length code) code ≡ code
take_all [] = refl
take_all (x ∷ code) = ap (λ t. x ∷ t) (take_all code)

-- Where the netblocks are few enough, the whole program is kept.
pub compiled_parts :
    (inet4 : List Inet4Netblock) (inet6 : List Inet6Netblock) (code : List Instruction)
    → length inet4 < 2 ^ 28
    → length inet6 ≤ 2510
    → compile_filter inet4 inet6 ≡ ok code
    → (ltb 0xff ((1 + inet4_count inet4) % 2 ^ 32) ≡ false) × (program inet4 inet6 ≡ code)
unfolding compile_filter
compiled_parts inet4 inet6 code small small6 compiled =
    elim (Bool-cases (ltb 0xff ((1 + inet4_count inet4) % 2 ^ 32))) [
      | inl t ↦ let bad = rw (t) at compiled in cc
      | inr t ↦ elim (Bool-cases (ltb (total_count inet4 inet6) (length (program inet4 inet6)))) [
        | inl z ↦ let bad = rw (t, z) at compiled in cc
        | inr z ↦
            let good : ok (take (length (program inet4 inet6) % 2 ^ 16) (program inet4 inet6))
                ≡ ok code =
              rw (t, z) at compiled in
            let few : (1 + inet4_count inet4) % 2 ^ 32 ≤ 255 = ground (arith, t) in
            let count : inet4_count inet4 ≡ (length inet4 * 6 + 1 + extra_count inet4) % 2 ^ 32 =
              (unfold inet4_count in refl) in
            let short : length (program inet4 inet6) % 2 ^ 16 ≡ length (program inet4 inet6) =
              omega (
                arith,
                length-program inet4 inet6,
                few,
                count,
                extra_count-le inet4,
                small,
                small6,
              ) in
            let whole : take (length (program inet4 inet6) % 2 ^ 16) (program inet4 inet6)
                ≡ program inet4 inet6 =
              ap (λ n. take n (program inet4 inet6)) short ∙ take_all (program inet4 inet6) in
            let same : take (length (program inet4 inet6) % 2 ^ 16) (program inet4 inet6) ≡ code =
              cc in
            (t, sym whole ∙ same)
      ]
    ]
