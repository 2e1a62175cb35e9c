-- ===== src/Attribute/Encode/Sizes.antt =====
-- The content lengths that the integer and timestamp attributes compute for themselves.
use mathlib.Core.Path.{ap₂}
use native.Mathlib.Nat.{div-le_self}
use libholmes_horace.Wire.Signed.{dvalue}
use libholmes_horace.Common.{
  ℕ, zero, suc, ◌+◌, ◌-◌, ◌*◌, ◌/◌, ◌^◌, ◌≤◌, ◌<◌, ◌≡◌, sym, ap, ◌∙◌, ◌⊎◌, inl, inr, true, false,
  arith, leb, ◌==◌, if◌then◌else◌, Bool-cases, test→eq, ok,
}
use libholmes_horace.Common.Words.{
  not64, sign64, sar64, pow_eight, pow-pos, div-eq-zero, div-ne-zero,
}
use libholmes_horace.Attribute.Encode.{octet_loop, shift_right_signed, signed_loop, signed_length}

octet_loop_more :
    (fuel v len : ℕ)
    → (v == 0) ≡ false
    → octet_loop (suc fuel) v len ≡ octet_loop fuel (v / 256) (len + 1)
unfolding octet_loop
octet_loop_more fuel v len e = rw e

octet_loop_done : (fuel v len : ℕ) → (v == 0) ≡ true → octet_loop (suc fuel) v len ≡ ok len
unfolding octet_loop
octet_loop_done fuel v len e = rw e

-- The loop adds the number of octets that the value takes: none for 0.
pub octet_loop_fits :
    (m fuel v len : ℕ)
    → m < fuel
    → v < 2 ^ (8 * m)
    → (n : ℕ) × (octet_loop fuel v len ≡ ok (len + n)) × (n ≤ m) × (v < 2 ^ (8 * n))
octet_loop_fits m zero v len hm fits = absurd (omega arith)
octet_loop_fits zero (suc fuel) v len hm fits =
    (0, octet_loop_done fuel v len (ground arith) ∙ ap ok (omega arith), omega arith, fits)
octet_loop_fits (suc m) (suc fuel) v len hm fits = elim (Bool-cases (v == 0)) [
  | inl e ↦ (0, octet_loop_done fuel v len e ∙ ap ok (omega arith), omega arith, ground arith)
  | inr e ↦
      let (n, r, hn, below) =
        octet_loop_fits m fuel (v / 256) (len + 1) (omega arith) (omega (arith, pow_eight m)) in
      (
        suc n,
        octet_loop_more fuel v len e ∙ r ∙ ap ok (omega arith),
        omega arith,
        omega (arith, pow_eight n),
      )
]

abbrev term : ℕ → ℕ
term content = if sign64 content then 2 ^ 64 - 1 else 0

-- What the loop of the signed attribute tests, by the bits that differ from the sign.
signed_test :
    (content k : ℕ)
    → content < 2 ^ 64
    → (sar64 content k == term content) ≡ (dvalue content / 2 ^ k == 0)
unfolding dvalue
signed_test content k h =
    ground (arith, div-le_self (not64 content) (2 ^ k), div-le_self content (2 ^ k))

ltb64 : (k : ℕ) → k ≤ 7 → leb 64 (8 * k + 7) ≡ false
ltb64 k h = ground arith

signed_loop_done :
    (k fuel content : ℕ)
    → k ≤ 7
    → (sar64 content (8 * k + 7) == term content) ≡ true
    → signed_loop (suc fuel) content (term content) (8 * k + 7) (k + 1) ≡ ok (k + 1)
unfolding signed_loop shift_right_signed
signed_loop_done k fuel content h7 e = rw (ltb64 k h7, e)

signed_loop_more :
    (k fuel content : ℕ)
    → k ≤ 7
    → (sar64 content (8 * k + 7) == term content) ≡ false
    → signed_loop (suc fuel) content (term content) (8 * k + 7) (k + 1)
      ≡ signed_loop fuel content (term content) (8 * suc k + 7) (suc k + 1)
unfolding signed_loop shift_right_signed
signed_loop_more k fuel content h7 e =
    rw (ltb64 k h7, e)
      (ap₂ (λ a b. signed_loop fuel content (term content) a b) (omega arith) (omega arith))

dvalue-lt : (v : ℕ) → v < 2 ^ 64 → dvalue v < 2 ^ 63
unfolding dvalue
dvalue-lt v h = ground arith

seven_more : (k d : ℕ) → k ≤ 7 → d < 2 ^ 63 → 2 ^ (8 * k + 7) ≤ d → suc k ≤ 7
seven_more k d h7 h le = elim (Bool-cases (k == 7)) [
  | inl e ↦ let top = ap (λ t. 2 ^ (8 * t + 7)) (test→eq k 7 e) in absurd (omega (arith, top))
  | inr e ↦ ground arith
]

signed_loop_fits :
    (k fuel content : ℕ)
    → content < 2 ^ 64
    → k ≤ 7
    → 8 ≤ fuel + k
    → (n : ℕ) × (signed_loop fuel content (term content) (8 * k + 7) (k + 1) ≡ ok (suc n))
      × (n ≤ 7)
      × (dvalue content < 2 ^ (8 * n + 7))
signed_loop_fits k zero content h h7 hf = absurd (omega arith)
signed_loop_fits k (suc fuel) content h h7 hf =
    let width = 8 * k + 7 in
    elim (Bool-cases (sar64 content width == term content)) [
      | inl e ↦ (
        k,
        signed_loop_done k fuel content h7 e ∙ ap ok (omega arith),
        h7,
        div-eq-zero _ _ (pow-pos width) (sym (signed_test content width h) ∙ e),
      )
      | inr e ↦
          let le = div-ne-zero _ _ (pow-pos width) (sym (signed_test content width h) ∙ e) in
          let k7 = seven_more k _ h7 (dvalue-lt content h) le in
          rw (signed_loop_more k fuel content h7 e)
            (signed_loop_fits (suc k) fuel content h k7 (omega arith))
    ]

-- A signed content, an int64_t, is 0, of no octets, or takes one to eight octets, which hold its sign too.
pub signed_length_fits :
    (content : ℕ)
    → content < 2 ^ 64
    → ((content ≡ 0) × (signed_length content ≡ ok 0))
      ⊎ ((n : ℕ) × (signed_length content ≡ ok (suc n))
          × (n ≤ 7)
          × (dvalue content < 2 ^ (8 * n + 7)))
unfolding signed_length
signed_length_fits content h = elim (Bool-cases (content == 0)) [
  | inl e ↦ inl (test→eq content 0 e, rw e)
  | inr e ↦
      let (n, r, h7, d) = signed_loop_fits 0 8 content h (omega arith) (omega arith) in
      inr (n, rw e r, h7, d)
]
