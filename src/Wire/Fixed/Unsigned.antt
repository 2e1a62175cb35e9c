-- ===== src/Wire/Fixed/Unsigned.antt =====
-- What `write_unsigned` and `write_signed` put out, and `read_unsigned` on it.
use native.Mathlib.Nat.{div-le_self, div-eq_of_lt, pow-le-pow_right}
use libholmes_horace.Wire.Octets.{read}
use libholmes_horace.Common.{
  ℕ, zero, suc, ◌+◌, ◌-◌, ◌*◌, ◌/◌, ◌%◌, ◌^◌, ◌≤◌, ◌<◌, bit_and, bit_or, ◌≡◌, refl, ap, ◌⊎◌, inl,
  inr, true, List, [], ◌∷◌, ◌++◌, arith, ◌==◌, length, ok,
}
use libholmes_horace.Common.Words.{shr, shl64, shift_right, div_eight}
use libholmes_horace.Wire.Fixed.{
  read_unsigned_loop, read_unsigned, write_loop, write_unsigned, write_signed,
}
use libholmes_horace.Common.Bits.{and_255, or_256}

-- The `n` low octets of `v`, highest first.
unfoldable pub octets : ℕ → ℕ → List ℕ
octets zero v = []
octets (suc n) v = (v / 2 ^ (8 * n) % 256) ∷ octets n v

pub length-octets : (n v : ℕ) → length (octets n v) ≡ n
unfolding octets
length-octets zero v = refl
length-octets (suc n) v = ap suc (length-octets n v)

next_shift : (n : ℕ) → n ≤ 8 → (n ≡ 0) ⊎ ((8 * n + 2 ^ 64 - 8) % 2 ^ 64 + 8 ≡ 8 * n)
next_shift zero h = inl refl
next_shift (suc n) h = inr (omega arith)

write_loop-octets :
    (n v j : ℕ) → n ≤ 8 → (n ≡ 0) ⊎ (j + 8 ≡ 8 * n) → write_loop n v j ≡ ok (octets n v)
unfolding write_loop octets shift_right
write_loop-octets zero v j h e = refl
write_loop-octets (suc n) v j h e =
    let at : j ≡ 8 * n = omega arith in
    rw at (
      ground (
        arith,
        and_255 (v / 2 ^ (8 * n)),
        write_loop-octets n v ((8 * n + 2 ^ 64 - 8) % 2 ^ 64) (omega arith)
            (next_shift n (omega arith)),
      ))

-- Up to eight octets, the writer puts out the low octets of the value.
pub write_unsigned-octets : (n v : ℕ) → n ≤ 8 → write_unsigned v n ≡ ok (octets n v)
unfolding write_unsigned
write_unsigned-octets n v h = write_loop-octets n v _ h (ground arith)

-- `write_signed` puts out the same octets of the pattern.
pub write_signed-octets : (n v : ℕ) → n ≤ 8 → write_signed v n ≡ ok (octets n v)
unfolding write_signed
write_signed-octets n v h = write_loop-octets n v _ h (ground arith)

join_octet :
    (p b : ℕ) → p < 2 ^ 64 → b % 256 ≡ p % 256 → bit_or (shl64 (p / 256) 8) (bit_and b 0xff) ≡ p
join_octet p b h e =
    let up : shl64 (p / 256) 8 ≡ p / 256 * 256 = omega arith in
    rw (up, and_255 b, e, or_256 (p / 256) (p % 256) (omega arith)) (omega arith)

read_unsigned_loop-octets :
    (n v : ℕ) (rest : List ℕ)
    → v < 2 ^ 64
    → read_unsigned_loop n (v / 2 ^ (8 * n)) (octets n v ++ rest) ≡ ok (v, rest)
unfolding read_unsigned_loop octets read
read_unsigned_loop-octets zero v rest h = ap (λ x. ok (x, rest)) (omega arith)
read_unsigned_loop-octets (suc n) v rest h =
    let p = v / 2 ^ (8 * n) in
    let p64 : p < 2 ^ 64 = omega (arith, div-le_self v (2 ^ (8 * n))) in
    let room : (shr (p / 256) 56 == 0) ≡ true = ground arith in
    rw (div_eight v n, room, join_octet p (p % 256) p64 (omega arith))
      (read_unsigned_loop-octets n v rest h)

pow_sixty_four : (n v : ℕ) → n ≤ 8 → v < 2 ^ (8 * n) → v < 2 ^ 64
pow_sixty_four n v h fits =
    let top : 2 ^ (8 * n) ≤ 2 ^ 64 =
      pow-le-pow_right {n = 2} (omega arith) {i = 8 * n} {j = 64} (omega arith) in
    omega (arith, top)

-- A value that fits `n` octets, eight at most, is written in `n` octets and read back from them.
pub read_unsigned-write_unsigned :
    (n v : ℕ)
    → n ≤ 8
    → v < 2 ^ (8 * n)
    → (written : List ℕ) × (write_unsigned v n ≡ ok written)
      × (length written ≡ n)
      × ((rest : List ℕ) → read_unsigned n (written ++ rest) ≡ ok (v, rest))
unfolding read_unsigned
read_unsigned-write_unsigned n v h fits = (
  octets n v,
  write_unsigned-octets n v h,
  length-octets n v,
  λ rest.
      rw (← (div-eq_of_lt fits)) (read_unsigned_loop-octets n v rest (pow_sixty_four n v h fits)),
)
