-- ===== src/Wire/Unsigned/Length.antt =====
-- The encoded length that the constructor of unsigned_base128_integer computes.
use libholmes_horace.Common.{
  ℕ, zero, suc, ◌+◌, ◌-◌, ◌*◌, ◌/◌, ◌^◌, ◌≤◌, ◌<◌, ◌≡◌, refl, ap, ◌⊎◌, inl, inr, true, false, arith,
  ◌==◌, ==_iff, Bool-cases, undefined_behaviour, ok, err,
}
use libholmes_horace.Common.Words.{shift_right, pow-pos, div-eq-zero, div-ne-zero}
use libholmes_horace.Wire.Unsigned.{length_loop, of_value}

-- `len` is the number of groups of seven bits that `value` takes, and at least one.
pub record IsLength (value len : ℕ) : Type 0 where
  pub positive : 1 ≤ len
  pub enough : value < 2 ^ (7 * len)
  pub tight : (len ≡ 1) ⊎ (2 ^ (7 * (len - 1)) ≤ value)

pred_suc : {n : ℕ} → suc n - 1 ≡ n
pred_suc = omega arith

length_loop_done :
    (fuel value len : ℕ)
    → len ≤ 9
    → (value / 2 ^ (7 * len) == 0) ≡ true
    → length_loop (suc fuel) value (7 * len) len ≡ ok len
unfolding length_loop shift_right
length_loop_done fuel value len h e = ground arith

length_loop_more :
    (fuel value len : ℕ)
    → len ≤ 9
    → (value / 2 ^ (7 * len) == 0) ≡ false
    → length_loop (suc fuel) value (7 * len) len ≡ length_loop fuel value (7 * suc len) (suc len)
unfolding length_loop shift_right
length_loop_more fuel value len h e = ground arith

nine_groups : (value len : ℕ) → value < 2 ^ 63 → len ≤ 9 → 2 ^ (7 * len) ≤ value → len ≤ 8
nine_groups value len h k le = elim (Bool-cases (len == 9)) [
  | inl e ↦ let top = ap (λ t. 2 ^ (7 * t)) ((==_iff len 9).0 e) in absurd (omega (arith, top))
  | inr e ↦ ground arith
]

length_loop_fits :
    (fuel value len : ℕ)
    → value < 2 ^ 63
    → 1 ≤ len
    → len ≤ 9
    → 10 ≤ fuel + len
    → (len ≡ 1) ⊎ (2 ^ (7 * (len - 1)) ≤ value)
    → (n : ℕ) × (length_loop fuel value (7 * len) len ≡ ok n) × (n ≤ 9) × IsLength value n
length_loop_fits zero value len hv h1 h9 hf t = absurd (omega arith)
length_loop_fits (suc fuel) value len hv h1 h9 hf t =
    elim (Bool-cases (value / 2 ^ (7 * len) == 0)) [
      | inl e ↦ (
        len,
        length_loop_done fuel value len h9 e,
        h9,
        record { positive = h1; enough = div-eq-zero _ _ (pow-pos (7 * len)) e; tight = t },
      )
      | inr e ↦
          let le = div-ne-zero _ _ (pow-pos (7 * len)) e in
          let h8 = nine_groups value len hv h9 le in
          rw (length_loop_more fuel value len h9 e) (
            length_loop_fits fuel value (suc len) hv (omega arith) (omega arith) (omega arith)
              (inr (rw pred_suc le)))
    ]

-- The constructor shifts a uint64_t by 70 on every uint64_t from 2^63 on.
pub of_value_undefined :
    (value : ℕ) → 2 ^ 63 ≤ value → value < 2 ^ 64 → of_value value ≡ err undefined_behaviour
unfolding of_value length_loop shift_right
of_value_undefined value h k = ground arith

-- On every value below 2 ^ 63 the constructor finds the length, at most nine octets.
pub of_value_fits :
    (value : ℕ)
    → value < 2 ^ 63
    → (n : ℕ) × (of_value value ≡ ok (record { value = value; length = n }))
      × (n ≤ 9)
      × IsLength value n
unfolding of_value
of_value_fits value h =
    let (n, e, h9, l) =
      length_loop_fits 10 value 1 h (omega arith) (omega arith) (omega arith) (inl refl) in
    (n, rw e, h9, l)
