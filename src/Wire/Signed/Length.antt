-- ===== src/Wire/Signed/Length.antt =====
-- The encoded length that the constructor of signed_base128_integer computes.
use libholmes_horace.Common.{
  ℕ, zero, suc, ◌+◌, ◌*◌, ◌/◌, ◌^◌, ◌≤◌, ◌<◌, ◌≡◌, ap, inl, inr, true, false, arith, ◌==◌, ==_iff,
  Bool-cases, undefined_behaviour, ok, err,
}
use libholmes_horace.Common.Words.{shift_right, pow-pos, div-eq-zero, div-ne-zero}
use libholmes_horace.Wire.Unsigned.{length_loop}
use libholmes_horace.Wire.Signed.{dvalue, of_value}

-- With `k` octets after the first, six bits beside the sign go into the first octet and seven
-- into each other.
length_loop_more :
    (k fuel d : ℕ)
    → k ≤ 8
    → (d / 2 ^ (7 * k + 6) == 0) ≡ false
    → length_loop (suc fuel) d (7 * k + 6) (k + 1) ≡ length_loop fuel d (7 * suc k + 6) (suc k + 1)
unfolding length_loop shift_right
length_loop_more k fuel d h e = ground arith

length_loop_done :
    (k fuel d : ℕ)
    → k ≤ 8
    → (d / 2 ^ (7 * k + 6) == 0) ≡ true
    → length_loop (suc fuel) d (7 * k + 6) (k + 1) ≡ ok (k + 1)
unfolding length_loop shift_right
length_loop_done k fuel d h e = ground arith

eight_more : (k d : ℕ) → k ≤ 8 → d < 2 ^ 62 → 2 ^ (7 * k + 6) ≤ d → suc k ≤ 8
eight_more k d hk h le = elim (Bool-cases (k == 8)) [
  | inl e ↦ let top = ap (λ t. 2 ^ (7 * t + 6)) ((==_iff k 8).0 e) in absurd (omega (arith, top))
  | inr e ↦ ground arith
]

length_loop_below :
    (k fuel d : ℕ)
    → k ≤ 8
    → 9 ≤ fuel + k
    → d < 2 ^ 62
    → (n : ℕ) × (length_loop fuel d (7 * k + 6) (k + 1) ≡ ok (n + 1))
      × (n ≤ 8)
      × (d < 2 ^ (7 * n + 6))
length_loop_below k zero d hk hf h = absurd (omega arith)
length_loop_below k (suc fuel) d hk hf h = elim (Bool-cases (d / 2 ^ (7 * k + 6) == 0)) [
  | inl e ↦ (k, length_loop_done k fuel d hk e, hk, div-eq-zero _ _ (pow-pos (7 * k + 6)) e)
  | inr e ↦
      let k8 = eight_more k d hk h (div-ne-zero _ _ (pow-pos (7 * k + 6)) e) in
      rw (length_loop_more k fuel d hk e) (length_loop_below (suc k) fuel d k8 (omega arith) h)
]

-- On every value in -2^62 ≤ value < 2^62 the constructor finds a length: six bits beside the sign
-- in the first octet and seven in each other hold the value.
pub of_value_fits :
    (value : ℕ)
    → dvalue value < 2 ^ 62
    → (n : ℕ) × (of_value value ≡ ok (record { tcvalue = value; length = n + 1 }))
      × (n ≤ 8)
      × (dvalue value < 2 ^ (7 * n + 6))
unfolding of_value
of_value_fits value h =
    let (n, e, h8, l) = length_loop_below 0 10 (dvalue value) (omega arith) (omega arith) h in
    (n, rw e, h8, l)

-- The constructor shifts a uint64_t by 69 on every int64_t outside -2^62 ≤ value < 2^62.
pub of_value_out_of_range :
    (value : ℕ) → value < 2 ^ 64 → 2 ^ 62 ≤ dvalue value → of_value value ≡ err undefined_behaviour
unfolding of_value dvalue length_loop shift_right
of_value_out_of_range value h k = ground arith
