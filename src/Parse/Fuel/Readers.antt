-- ===== src/Parse/Fuel/Readers.antt =====
-- How many octets the readers take.
use libholmes_horace.Wire.Octets.{read, read_octets}
use libholmes_horace.Wire.Fixed.{read_unsigned_loop, read_unsigned, read_signed_loop, read_signed}
use libholmes_horace.Wire.Unsigned
use libholmes_horace.Wire.Signed
use libholmes_horace.Parse.{read_header, Header}
use libholmes_horace.Common.{
  ℕ, zero, suc, ◌+◌, ◌%◌, ◌^◌, ◌≤◌, ◌<◌, bit_and, ◌≡◌, Bool, true, false, not, List, [], ◌∷◌, arith,
  leb, ◌==◌, if◌then◌else◌, length, drop, Settles-if, Settles-bind, Settles-map, Settles-guard,
  Settles, returned, raised, ◌>>◌, throw_if, integer_overflow, Result, ok,
}
use libholmes_horace.Common.Words.{shr, sar64, IsInt}

-- `n` octets of `s` are gone.
abbrev pub Took {ℓ} : {A : Type ℓ} → ℕ → List ℕ → A × List ℕ → Type 0
Took n s r = length s ≡ n + length r.1

pub read-Took : (s : List ℕ) → Settles (Took 1 s) (read s)
unfolding read
read-Took [] = raised (λ e. cc)
read-Took (b ∷ s) = returned (omega arith)

length-drop_of_le : (n : ℕ) (s : List ℕ) → n ≤ length s → length s ≡ n + length (drop n s)
length-drop_of_le zero s h = omega arith
length-drop_of_le (suc n) [] h = absurd (omega arith)
length-drop_of_le (suc n) (b ∷ s) h = omega (arith, length-drop_of_le n s (omega arith))

pub read_octets-Took : (n : ℕ) (s : List ℕ) → Settles (Took n s) (read_octets n s)
unfolding read_octets
read_octets-Took n s =
    Settles-if (leb n (length s)) (λ e. returned (length-drop_of_le n s (ground arith)))
      (λ e. raised (λ e'. cc))

read_unsigned_loop-Took :
    (n result : ℕ) (s : List ℕ) → Settles (Took n s) (read_unsigned_loop n result s)
unfolding read_unsigned_loop
read_unsigned_loop-Took zero result s = returned (omega arith)
read_unsigned_loop-Took (suc n) result s =
    Settles-guard (not (shr result 56 == 0)) integer_overflow _ (λ e. cc)
      λ _.
        Settles-bind (read-Took s)
          λ (b, s') t. Settles-map (read_unsigned_loop-Took n _ s') λ r t'. omega arith

pub read_unsigned-Took : (n : ℕ) (s : List ℕ) → Settles (Took n s) (read_unsigned n s)
unfolding read_unsigned
read_unsigned-Took n s = read_unsigned_loop-Took n 0 s

read_signed_loop-Took :
    (n result : ℕ) (s : List ℕ) → Settles (Took n s) (read_signed_loop n result s)
unfolding read_signed_loop
read_signed_loop-Took zero result s = returned (omega arith)
read_signed_loop-Took (suc n) result s =
    Settles-guard (not (sar64 ((sar64 result 55 + 1) % 2 ^ 64) 1 == 0)) integer_overflow _ (λ e. cc)
      λ _.
        Settles-bind (read-Took s)
          λ (b, s') t. Settles-map (read_signed_loop-Took n _ s') λ r t'. omega arith

pub read_signed-Took : (n : ℕ) (s : List ℕ) → Settles (Took n s) (read_signed n s)
unfolding read_signed
read_signed-Took zero s = returned (omega arith)
read_signed-Took (suc n) s =
    Settles-bind (read-Took s)
      λ (b, s') t. Settles-map (read_signed_loop-Took n _ s') λ r t'. omega arith

-- The counting decoders add to the count what they take, one octet at least.
abbrev Counted : ℕ → List ℕ → (ℕ × ℕ) × List ℕ → Type 0
Counted count s r = (count < r.0.1) × (count + length s ≡ r.0.1 + length r.1)

-- A round of a decoder: it stops at the last octet, checks for overflow, and goes on.
pub Settles-round {ℓ κ} :
    {A : Type ℓ} {Q : A → Type κ} (last overflow : Bool) (a : A) {more : Result A}
    → Q a
    → Settles Q more
    → Settles Q (if last then ok a else (throw_if overflow integer_overflow >> more))
Settles-round true overflow a h m = returned h
Settles-round false true a h m = raised (λ e. cc)
Settles-round false false a h m = m

unsigned_loop-Counted :
    (b v count : ℕ) (s : List ℕ)
    → Settles
        (λ r. (count ≤ r.0.1) × (count + length s ≡ r.0.1 + length r.1))
        (Unsigned.count_loop b v count s)
unfolding Unsigned.count_loop
unsigned_loop-Counted b v count [] =
    Settles-round (bit_and b 0x80 == 0) (not (shr v 57 == 0)) ((v, count), [])
      (omega arith, omega arith) (raised (λ e. cc))
unsigned_loop-Counted b v count (b' ∷ s) =
    Settles-round (bit_and b 0x80 == 0) (not (shr v 57 == 0)) ((v, count), b' ∷ s)
      (omega arith, omega arith)
      (Settles-map (unsigned_loop-Counted b' _ (count + 1) s) λ r t. (omega arith, omega arith))

signed_loop-Counted :
    (b v count : ℕ) (s : List ℕ)
    → Settles
        (λ r. (count ≤ r.0.1) × (count + length s ≡ r.0.1 + length r.1))
        (Signed.count_loop b v count s)
unfolding Signed.count_loop
signed_loop-Counted b v count [] =
    Settles-round (bit_and b 0x80 == 0) (Signed.result_overflows v) ((v, count), [])
      (omega arith, omega arith) (raised (λ e. cc))
signed_loop-Counted b v count (b' ∷ s) =
    Settles-round (bit_and b 0x80 == 0) (Signed.result_overflows v) ((v, count), b' ∷ s)
      (omega arith, omega arith)
      (Settles-map (signed_loop-Counted b' _ (count + 1) s) λ r t. (omega arith, omega arith))

unsigned-Counted :
    (count : ℕ) (s : List ℕ)
    → Settles (Counted count s) (Unsigned.read_unsigned_base128_count count s)
unfolding Unsigned.read_unsigned_base128_count
unsigned-Counted count [] = raised (λ e. cc)
unsigned-Counted count (b ∷ s) =
    Settles-map (unsigned_loop-Counted b _ (count + 1) s) λ r t. (omega arith, omega arith)

signed-Counted :
    (count : ℕ) (s : List ℕ) → Settles (Counted count s) (Signed.read_signed_base128_count count s)
unfolding Signed.read_signed_base128_count
signed-Counted count [] = raised (λ e. cc)
signed-Counted count (b ∷ s) =
    Settles-map (signed_loop-Counted b _ (count + 1) s) λ r t. (omega arith, omega arith)

-- A header says how many octets it took, two at least; its fields are ints.
pub read_header-Took :
    (s : List ℕ)
    → Settles
        (λ (r : Header × List ℕ).
          (2 ≤ r.0.hdr_len) × (length s ≡ r.0.hdr_len + length r.1) × IsInt r.0.attr_len)
        (read_header s)
unfolding read_header
read_header-Took s = Settles-bind (signed-Counted 0 s) λ ((id, count), s₁) t.
    Settles-bind (unsigned-Counted count s₁)
      λ ((len, hdr_len), s₂) t'. returned (omega arith, omega arith, omega arith)
