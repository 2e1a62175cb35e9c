-- ===== src/Syslog/Decimals.antt =====
-- What `read_decimal` of endpoints/syslog+udp/syslog_parser.cc reads, and how a reader ends.
use libholmes_horace.Common.{
  ℕ, zero, suc, ◌+◌, ◌-◌, ◌≤◌, min, String, ◌≡◌, refl, ◌≢◌, inl, inr, Bool, true, false, not, ◌&&◌,
  ◌||◌, List, arith, ltb, ◌==◌, if◌then◌else◌, Bool-cases, if-cases, length, syslog_error, err, ok,
}
use libholmes_horace.Common.Text.{char_at}
use libholmes_horace.Common.Decimal.{is_digit}
use libholmes_horace.Syslog.{
  space, Reading, after, fail_if, restored_index, restoring, count_spaces, add_digit, digit_loop,
  check_digits, read_decimal, Digits,
}

-- A reader returned, and `P` holds of its value and its index, or it threw `syslog_error`.
pub data Took {ℓ κ} {A : Type ℓ} (P : A → ℕ → Type κ) : Reading A → Type (ℓ ⊔ κ) where
  took : {a : A} {index : ℕ} → P a index → Took P (index, ok a)
  threw : {index : ℕ} (m : String) → Took P (index, err (syslog_error m))

-- Where it threw, it left the index as it was.
pub data Restored {ℓ κ} {A : Type ℓ} (start : ℕ) (P : A → ℕ → Type κ)
    : Reading A → Type (ℓ ⊔ κ) where
  got : {a : A} {index : ℕ} → P a index → Restored start P (index, ok a)
  refused : (m : String) → Restored start P (start, err (syslog_error m))

module _ {ℓ κ} {A : Type ℓ} {P : A → ℕ → Type κ} where
  pub Took-after {ℓ' κ'} :
      {B : Type ℓ'} {Q : B → ℕ → Type κ'} {m : Reading A} {k : A → ℕ → Reading B}
      → Took P m
      → ((a : A) (index : ℕ) → P a index → Took Q (k a index))
      → Took Q (after m k)
  unfolding after
  Took-after (took {a} {index} h) f = f a index h
  Took-after (threw m) f = threw m

  pub Took-map {κ'} :
      {Q : A → ℕ → Type κ'} {m : Reading A}
      → Took P m
      → ((a : A) (index : ℕ) → P a index → Q a index)
      → Took Q m
  Took-map (took {a} {index} h) f = took (f a index h)
  Took-map (threw m) f = threw m

  pub restoring-Restored :
      (start : ℕ) {m : Reading A} → Took P m → Restored start P (restoring start m)
  unfolding restoring restored_index
  restoring-Restored start (took h) = got h
  restoring-Restored start (threw m) = refused m

  pub Restored-Took : {start : ℕ} {m : Reading A} → Restored start P m → Took P m
  Restored-Took (got h) = took h
  Restored-Took (refused m) = threw m

-- A check: what follows runs where its test fails.
pub Took-check {ℓ κ} :
    {B : Type ℓ} {Q : B → ℕ → Type κ} (b : Bool) (m : String) (index : ℕ)
    (k : Unit {0} → ℕ → Reading B)
    → (b ≡ false → Took Q (k tt index))
    → Took Q (after (fail_if b m index) k)
unfolding after fail_if
Took-check true m index k h = threw m
Took-check false m index k h = h refl

pub fail_if-Took :
    (b : Bool) (m : String) (index : ℕ)
    → Took (λ _ j. (j ≡ index) × (b ≡ false)) (fail_if b m index)
unfolding fail_if
fail_if-Took true m index = threw m
fail_if-Took false m index = took (refl, refl)

module _ (text : List ℕ) where
  pub count_spaces-le : (left index : ℕ) → count_spaces text left index ≤ left
  unfolding count_spaces
  count_spaces-le zero index = omega arith
  count_spaces-le (suc left) index =
      if-cases (λ n. n ≤ suc left) (char_at text index == space) _ _
        (λ t. omega (arith, count_spaces-le left (index + 1))) (λ t. omega arith)

  -- The loop goes over `n` digits.
  pub record Passed (left : ℕ) (d r : Digits) : Type 0 where
    pub n : ℕ
    pub n_le : n ≤ left
    pub index_eq : r.index ≡ d.index + n
    pub digits_eq : r.digits ≡ d.digits + n
    pub last : n ≢ 0 → is_digit (char_at text (r.index - 1)) ≡ true

  last_digit :
      (left : ℕ) (d : Digits)
      (more : Passed left (add_digit text d) (digit_loop text left (add_digit text d)))
      → is_digit (char_at text d.index) ≡ true
      → is_digit (char_at text ((digit_loop text left (add_digit text d)).index - 1)) ≡ true
  last_digit left d more t = elim (Bool-cases (more.n == 0)) [
    | inl z ↦
        let e : (digit_loop text left (add_digit text d)).index - 1 ≡ d.index =
          unfold add_digit in ground (arith, more.index_eq, z) in
        rw (e) t
    | inr z ↦ more.last (λ h. let b : (more.n == 0) ≡ true = rw (h) refl in cc)
  ]

  pub digit_loop-Passed : (left : ℕ) (d : Digits) → Passed left d (digit_loop text left d)
  unfolding digit_loop
  digit_loop-Passed zero d = record {
    n = 0;
    n_le = omega arith;
    index_eq = omega arith;
    digits_eq = omega arith;
    last = λ h. absurd (h refl);
  }
  digit_loop-Passed (suc left) d =
      let more = digit_loop-Passed left (add_digit text d) in
      if-cases (Passed (suc left) d) (is_digit (char_at text d.index)) _ _
        (λ t. record {
          n = suc more.n;
          n_le = omega (arith, more.n_le);
          index_eq = unfold add_digit in omega (arith, more.index_eq);
          digits_eq = unfold add_digit in omega (arith, more.digits_eq);
          last = λ h. last_digit left d more t;
        })
        (λ t. record {
          n = 0;
          n_le = omega arith;
          index_eq = omega arith;
          digits_eq = omega arith;
          last = λ h. absurd (h refl);
        })

  -- With two characters at least, and two at most, the reader takes two, the last one a digit.
  pub read_decimal_two :
      (allow_lsp allow_lz : Bool) (index : ℕ)
      → index + 2 ≤ length text
      → Took
          (λ value j. (j ≡ index + 2) × (is_digit (char_at text (j - 1)) ≡ true))
          (read_decimal text 2 2 allow_lsp allow_lz index)
  unfolding read_decimal check_digits
  read_decimal_two allow_lsp allow_lz index room =
      let width : ℕ = min 2 (length text - index) in
      let lsp : ℕ = if allow_lsp then count_spaces text width index else 0 in
      let two : width ≡ 2 = omega arith in
      let few : lsp ≤ width =
        if-cases (λ n. n ≤ width) allow_lsp _ _ (λ t. count_spaces-le width index)
          (λ t. omega arith) in
      let start : Digits = record { index = index + lsp; value = 0; digits = 0; lz = 0 } in
      let d : Digits = digit_loop text (width - lsp) start in
      let p = digit_loop-Passed (width - lsp) start in
      Restored-Took (
        restoring-Restored index (
          Took-check (d.digits == 0 || ltb (lsp + d.digits) 2) "digit expected" d.index _ λ t.
            Took-check (not allow_lz && (not (d.lz == 0) && (not (d.value == 0) || ltb 1 d.lz)))
              "invalid leading zero" d.index _
              λ u. took (
                ground (arith, t, p.n_le, p.index_eq, p.digits_eq, two, few),
                p.last (ground (arith, t, p.digits_eq)),
              )))
