-- ===== src/Filter/Mask.antt =====
-- The masks of horace/address_filter.cc keep the leading bits of a word.
use native.Mathlib.Nat.{pow-suc, div-div-eq-div-mul, mul-div_cancel, mul-mod_left, mod-add-div}
use libholmes_horace.Common.{
  ℕ, zero, suc, ◌+◌, ◌-◌, ◌*◌, ◌/◌, ◌%◌, ◌^◌, ◌≤◌, ◌<◌, bit_and, ◌≡◌, refl, sym, ap, ◌∙◌, inl, inr,
  Bool, ◌&&◌, arith, leb, ◌==◌, if◌then◌else◌, ==_iff, Bool-cases, and_parts, and_join, test→eq,
}
use libholmes_horace.Common.Bits.{and_step}
use libholmes_horace.Common.Words.{pow-pos, div-lt}
use libholmes_horace.Filter.{negated_shift, ipv6_mask}

pow-add : (a b : ℕ) → 2 ^ (a + b) ≡ 2 ^ a * 2 ^ b
pow-add zero b = let e : 0 + b ≡ b = omega arith in rw (e) (omega arith)
pow-add (suc a) b =
    let e : suc a + b ≡ suc (a + b) = omega arith in
    let p : 2 ^ suc (a + b) ≡ 2 * 2 ^ (a + b) = omega (arith, pow-suc 2 (a + b)) in
    let q : 2 ^ suc a ≡ 2 * 2 ^ a = omega (arith, pow-suc 2 a) in
    rw (e, p, q, pow-add a b) (omega arith)

-- `a & m` for a mask of ones that covers `a`.
and_ones : (k a m : ℕ) → m + 1 ≡ 2 ^ k → a ≤ m → bit_and a m ≡ a
and_ones zero a m e h =
    let em : m ≡ 0 = omega arith in let ea : a ≡ 0 = omega arith in rw (em, ea) refl
and_ones (suc k) a m e h =
    let odd : m % 2 ≡ 1 = omega (arith, pow-suc 2 k) in
    ground (
      arith,
      and_step a m,
      rw (odd) at (and_step a m),
      and_ones k (a / 2) (m / 2) (omega (arith, pow-suc 2 k)) (omega arith),
    )

-- `a & (m << k)` for a mask of ones that covers `a >> k`.
and_high : (k j a m : ℕ) → m + 1 ≡ 2 ^ j → a / 2 ^ k ≤ m → bit_and a (m * 2 ^ k) ≡ a / 2 ^ k * 2 ^ k
and_high zero j a m e h =
    let em : m * 2 ^ 0 ≡ m = omega arith in
    let ea : a / 2 ^ 0 * 2 ^ 0 ≡ a = omega arith in
    rw (em, ea) (and_ones j a m e (omega (arith, h)))
and_high (suc k) j a m e h =
    let p : 2 ^ suc k ≡ 2 * 2 ^ k = omega (arith, pow-suc 2 k) in
    let d : a / 2 ^ suc k ≡ a / 2 / 2 ^ k = rw (p) (sym (div-div-eq-div-mul a 2 (2 ^ k))) in
    let ih = and_high k j (a / 2) m e (rw (sym d) h) in
    let dm : m * 2 ^ suc k ≡ 2 * (m * 2 ^ k) = rw (p) (omega arith) in
    let da : a / 2 ^ suc k * 2 ^ suc k ≡ 2 * (a / 2 / 2 ^ k * 2 ^ k) = rw (d, p) (omega arith) in
    rw (dm, da) (ground (arith, and_step a (2 * (m * 2 ^ k)), ih))

pred_mul : (p q : ℕ) → 1 ≤ p → (p - 1) * q ≡ p * q - q
pred_mul zero q h = absurd (omega arith)
pred_mul (suc p) q h = let e : suc p - 1 ≡ p = omega arith in rw (e) (omega arith)

le_product : (p q : ℕ) → 1 ≤ p → q ≤ p * q
le_product zero q h = absurd (omega arith)
le_product (suc p) q h = omega arith

negated_shift-eq : (s : ℕ) → s ≤ 32 → negated_shift s ≡ (2 ^ (32 - s) - 1) * 2 ^ s
unfolding negated_shift
negated_shift-eq s le =
    let e : (32 - s) + s ≡ 32 = omega arith in
    let product : 2 ^ (32 - s) * 2 ^ s ≡ 2 ^ 32 = sym (pow-add (32 - s) s) ∙ ap (λ n. 2 ^ n) e in
    omega (
      arith,
      pred_mul (2 ^ (32 - s)) (2 ^ s) (pow-pos (32 - s)),
      product,
      pow-pos s,
      pow-pos (32 - s),
      le_product (2 ^ (32 - s)) (2 ^ s) (pow-pos (32 - s)),
    )

-- A mask clears the last `s` bits of a word.
pub and-negated_shift :
    (s w : ℕ) → s ≤ 32 → w < 2 ^ 32 → bit_and w (negated_shift s) ≡ w / 2 ^ s * 2 ^ s
and-negated_shift s w le small =
    let e : (32 - s) + s ≡ 32 = omega arith in
    let product : 2 ^ (32 - s) * 2 ^ s ≡ 2 ^ 32 = sym (pow-add (32 - s) s) ∙ ap (λ n. 2 ^ n) e in
    let top : w / 2 ^ s < 2 ^ (32 - s) = div-lt w (2 ^ (32 - s)) s (rw (product) small) in
    rw (negated_shift-eq s le) (
      and_high s (32 - s) w (2 ^ (32 - s) - 1) (omega (arith, pow-pos (32 - s)))
        (omega (arith, top)))

-- The bits of the word at `index` that do not belong to the prefix.
unfoldable pub host_bits : ℕ → ℕ → ℕ
host_bits index prefix_length =
    if leb prefix_length index
    then 32
    else if leb (index + 32) prefix_length
    then 0
    else index + 32 - prefix_length

pub host_bits-le : (index prefix_length : ℕ) → host_bits index prefix_length ≤ 32
unfolding host_bits
host_bits-le index prefix_length = ground arith

pub ipv6_mask-eq :
    (index prefix_length : ℕ)
    → ipv6_mask index prefix_length ≡ negated_shift (host_bits index prefix_length)
unfolding ipv6_mask host_bits
ipv6_mask-eq index prefix_length = elim (Bool-cases (leb prefix_length index)) [
  | inl t ↦ rw (t) (unfold negated_shift in refl)
  | inr t ↦ elim (Bool-cases (leb (index + 32) prefix_length)) [
    | inl u ↦ rw (t, u) (unfold negated_shift in refl)
    | inr u ↦ rw (t, u) refl
  ]
]

-- A word has the prefix `p`, of which `s` bits of a word are no part: these are zero in `p`, and the
-- other bits are the same.
unfoldable pub has_prefix : ℕ → ℕ → ℕ → Bool
has_prefix s p w = (p % 2 ^ s == 0) && (w / 2 ^ s == p / 2 ^ s)

both_ways :
    (a b c d e f : ℕ)
    → (a ≡ b → (c ≡ d) × (e ≡ f))
    → ((c ≡ d) → (e ≡ f) → a ≡ b)
    → (a == b) ≡ ((c == d) && (e == f))
both_ways a b c d e f h k = elim (Bool-cases (a == b)) [
  | inl t ↦
      let r = h (test→eq a b t) in
      rw (t) (sym (and_join (c == d) (e == f) ((==_iff c d).1 r.0) ((==_iff e f).1 r.1)))
  | inr t ↦ elim (Bool-cases ((c == d) && (e == f))) [
    | inl u ↦
        let q = and_parts (c == d) (e == f) u in
        let x = (==_iff a b).1 (k (test→eq c d q.0) (test→eq e f q.1)) in cc
    | inr u ↦ rw (t, u) refl
  ]
]

-- The comparison with a masked word.
pub masked_test : (s p w : ℕ) → (w / 2 ^ s * 2 ^ s == p) ≡ has_prefix s p w
unfolding has_prefix
masked_test s p w =
    let pos : 0 < 2 ^ s = omega (arith, pow-pos s) in
    both_ways _ p (p % 2 ^ s) 0 (w / 2 ^ s) (p / 2 ^ s)
      (λ e. (
        rw (sym e) (mul-mod_left (w / 2 ^ s) (2 ^ s)),
        rw (sym e) (sym (mul-div_cancel (w / 2 ^ s) pos)),
      ))
      (λ z same. rw (same) (omega (arith, mod-add-div p (2 ^ s), z)))
