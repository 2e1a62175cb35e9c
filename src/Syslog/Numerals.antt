-- ===== src/Syslog/Numerals.antt =====
-- The numerals without leading zeros that `read_decimal` of endpoints/syslog+udp/syslog_parser.cc
-- reads.
use libholmes_horace.Common.{
  ℕ, zero, suc, ◌+◌, ◌-◌, ◌*◌, ◌%◌, ◌^◌, ◌≤◌, ◌<◌, min, ◌≡◌, refl, sym, ◌≢◌, inl, inr, true, false,
  not, ◌&&◌, ◌||◌, List, [], ◌∷◌, ◌++◌, append_assoc, append-nil, arith, ltb, ◌==◌, if◌then◌else◌,
  Bool-cases, test→eq, if-cases, length, take,
}
use libholmes_horace.Common.Text.{char_at, take-char_at}
use libholmes_horace.Common.Decimal.{is_digit, decimal, digit_range, numeral, numeral-digit}
use libholmes_horace.Syslog.{add_digit, digit_loop, check_digits, read_decimal, Digits}
use libholmes_horace.Syslog.Decimals.{
  restoring-Restored, Restored-Took, Took-check, digit_loop-Passed, Took, took,
}

-- How large the number may be after some digits.
record IsSmall (digits value : ℕ) : Type 0 where
  none_read : digits ≡ 0 → value ≡ 0
  one_read : digits ≤ 1 → value < 10
  two_read : digits ≤ 2 → value < 100
  small : value < 1000

-- The digits form the numeral of the number, or they have a leading zero.
data Shape (digits value lz : ℕ) (Written : Type 0) : Type 0 where
  plain : lz ≡ 0 → (digits ≢ 0 → value ≢ 0) → Written → Shape digits value lz Written
  single_zero : lz ≡ 1 → digits ≡ 1 → value ≡ 0 → Written → Shape digits value lz Written
  zeros : 2 ≤ lz → Shape digits value lz Written
  zero_first : 1 ≤ lz → value ≢ 0 → Shape digits value lz Written

IsSmall-digit :
    (digits value c : ℕ)
    → IsSmall digits value
    → digits ≤ 2
    → c ≤ 9
    → IsSmall (digits + 1) (value * 10 + c)
IsSmall-digit digits value c h le small_digit = record {
  none_read = λ e. absurd (omega (arith, e));
  one_read = λ e. omega (arith, h.none_read (omega (arith, e)));
  two_read = λ e. omega (arith, h.one_read (omega (arith, e)));
  small = omega (arith, h.two_read le);
}

next_lz : ℕ → ℕ → ℕ → ℕ
next_lz c digits lz = if c == 0 && digits == lz then lz + 1 else lz

Shape-digit :
    (digits value lz c : ℕ) {Written Next : Type 0}
    → IsSmall digits value
    → Shape digits value lz Written
    → ((not (digits == 0) && value == 0) ≡ false → Written → Next)
    → Shape (digits + 1) (value * 10 + c) (next_lz c digits lz) Next
unfolding next_lz
Shape-digit digits value lz c s (plain e h w) f = elim (Bool-cases (digits == 0)) [
  | inl t ↦ elim (Bool-cases (c == 0)) [
    | inl u ↦
        single_zero (ground (arith, e, t, u)) (ground (arith, t))
          (ground (arith, s.none_read (test→eq digits 0 t), u)) (f (rw (t) refl) w)
    | inr u ↦ plain (ground (arith, e, u)) (λ k. ground (arith, u)) (f (rw (t) refl) w)
  ]
  | inr t ↦
      let pos : value ≢ 0 = h (λ z. let b : (digits == 0) ≡ true = rw (z) refl in cc) in
      plain (ground (arith, e, t)) (λ k. ground (arith, pos)) (f (ground (arith, pos)) w)
]
Shape-digit digits value lz c s (single_zero e d v w) f = elim (Bool-cases (c == 0)) [
  | inl u ↦ zeros (ground (arith, e, d, u))
  | inr u ↦ zero_first (ground (arith, e, u)) (ground (arith, u))
]
Shape-digit digits value lz c s (zeros le) f = zeros (ground (arith, le))
Shape-digit digits value lz c s (zero_first le v) f =
    zero_first (ground (arith, le)) (ground (arith, v))

module _ (text : List ℕ) where
  -- What has been read from `start` on.
  record Scanned (start : ℕ) (d : Digits) : Type 0 where
    within : d.index ≤ length text
    sized : IsSmall d.digits d.value
    shape :
        Shape d.digits d.value d.lz
          (take start text ++ numeral d.digits d.value ≡ take d.index text)

  add_digit-Scanned :
      (start : ℕ) (d : Digits)
      → d.digits ≤ 2
      → d.index < length text
      → is_digit (char_at text d.index) ≡ true
      → Scanned start d
      → Scanned start (add_digit text d)
  unfolding add_digit
  add_digit-Scanned start d few room t h =
      let c : ℕ = char_at text d.index in
      let range = digit_range c t in
      let sized = IsSmall-digit d.digits d.value (c - 48) h.sized few (omega (arith, range.1)) in
      let wrap : (d.value * 10 + (c - 48)) % 2 ^ 32 ≡ d.value * 10 + (c - 48) =
        omega (arith, sized.small) in
      rw (wrap) (record {
        within = omega (arith, room);
        sized = sized;
        shape =
            unfold next_lz in
            Shape-digit d.digits d.value d.lz (c - 48) h.sized h.shape (λ zero_first written.
              let e : d.index + 1 ≡ suc d.index = omega arith in
              rw
                (
                  numeral-digit d.digits d.value c h.sized.none_read zero_first
                      (h.sized.two_read few) range.0 range.1,
                  e,
                  sym (take-char_at text d.index room),
                  sym written,
                )
                (sym (append_assoc (take start text) (numeral d.digits d.value) (c ∷ []))));
      })

  digit_loop-Scanned :
      (start left : ℕ) (d : Digits)
      → d.digits + left ≤ 3
      → d.index + left ≤ length text
      → Scanned start d
      → Scanned start (digit_loop text left d)
  unfolding digit_loop
  digit_loop-Scanned start zero d few room h = h
  digit_loop-Scanned start (suc left) d few room h =
      if-cases (Scanned start) (is_digit (char_at text d.index)) _ _
        (λ t.
          digit_loop-Scanned start left (add_digit text d) (unfold add_digit in omega (arith, few))
            (unfold add_digit in omega (arith, room))
            (add_digit-Scanned start d (omega (arith, few)) (omega (arith, room)) t h))
        (λ t. h)

  -- A number is the numeral of at most three digits that is read, without leading zeros.
  pub record IsNumeral (start value j : ℕ) : Type 0 where
    pub within : j ≤ length text
    pub small : value < 1000
    pub written : take start text ++ decimal value ≡ take j text
    pub after_start : start < j
    pub last : is_digit (char_at text (j - 1)) ≡ true

  shape_written :
      (digits value lz : ℕ) {Written : Type 0}
      → Shape digits value lz Written
      → (not (lz == 0) && (not (value == 0) || ltb 1 lz)) ≡ false
      → Written
  shape_written digits value lz (plain e h w) t = w
  shape_written digits value lz (single_zero e d v w) t = w
  shape_written digits value lz (zeros le) t = absurd (ground (arith, le, t))
  shape_written digits value lz (zero_first le v) t = absurd (ground (arith, le, v, t))

  pub read_decimal-IsNumeral :
      (index : ℕ)
      → index ≤ length text
      → Took (IsNumeral index) (read_decimal text 1 3 false false index)
  unfolding read_decimal check_digits
  read_decimal-IsNumeral index le =
      let width : ℕ = min 3 (length text - index) in
      let start : Digits = record { index = index + 0; value = 0; digits = 0; lz = 0 } in
      let e : index + 0 ≡ index = omega arith in
      let begin : Scanned index start = record {
        within = omega (arith, le);
        sized = record {
          none_read = λ z. refl;
          one_read = λ z. omega arith;
          two_read = λ z. omega arith;
          small = omega arith;
        };
        shape =
            plain refl (λ z. absurd (z refl))
              (rw (e) (unfold numeral in append-nil (take index text)));
      } in
      let d : Digits = digit_loop text (width - 0) start in
      let p = digit_loop-Passed text (width - 0) start in
      let s = digit_loop-Scanned index (width - 0) start (omega arith) (omega (arith, le)) begin in
      Restored-Took (
        restoring-Restored index (
          Took-check (d.digits == 0 || ltb (0 + d.digits) 1) "digit expected" d.index _ λ t.
            Took-check (not false && (not (d.lz == 0) && (not (d.value == 0) || ltb 1 d.lz)))
              "invalid leading zero" d.index _
              λ u. took (record {
                within = s.within;
                small = s.sized.small;
                after_start = ground (arith, t, p.index_eq, p.digits_eq);
                last = p.last (ground (arith, t, p.digits_eq));
                written =
                    let some_read : (d.digits == 0) ≡ false = ground (arith, t) in
                    unfold numeral in
                    (rw (some_read) at (shape_written d.digits d.value d.lz s.shape u));
              })))
