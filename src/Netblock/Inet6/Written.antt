-- ===== src/Netblock/Inet6/Written.antt =====
-- The fields of an address that horace/inet6_netblock.cc reads, in either notation.
use libholmes_horace.Common.Text.{Octets}
use libholmes_horace.Common.{
  ℕ, zero, suc, ◌+◌, ◌-◌, ◌*◌, ◌/◌, ◌%◌, ◌^◌, ◌≤◌, ◌<◌, ◌≡◌, refl, ap, not, ◌&&◌, ◌||◌, Option,
  none, some, List, [], ◌∷◌, ◌++◌, arith, ltb, leb, ◌==◌, length, take, drop, length-append,
}
use libholmes_horace.Common.Decimal.{is_digit}
use libholmes_horace.Netblock.Checks.{
  Checks-if, Checks-bind, Checks-guard, Checks-map, Checks, accepted, rejected,
}
use libholmes_horace.Netblock.Inet6.{
  colon, full_stop, slash, dstlen, next_is, next_char, end_field, compress, read_colon, hex_digit,
  add_hex_digit, hex_step, read_hex, add_decimal_digit, end_decimal_field, count_field,
  decimal_char, decimal_step, read_decimal, zeros, Fields,
}

pub Octets-append : (fs gs : List ℕ) → Octets fs → Octets gs → Octets (fs ++ gs)
Octets-append [] gs h k = k
Octets-append (f ∷ fs) gs h k = (h.0, Octets-append fs gs h.1 k)

pub Octets-take : (n : ℕ) (fs : List ℕ) → Octets fs → Octets (take n fs)
Octets-take zero fs h = tt
Octets-take (suc n) [] h = tt
Octets-take (suc n) (f ∷ fs) h = (h.0, Octets-take n fs h.1)

pub Octets-drop : (n : ℕ) (fs : List ℕ) → Octets fs → Octets (drop n fs)
Octets-drop zero fs h = h
Octets-drop (suc n) [] h = tt
Octets-drop (suc n) (f ∷ fs) h = Octets-drop n fs h.1

pub Octets-zeros : (n : ℕ) → Octets (zeros n)
unfolding zeros
Octets-zeros zero = tt
Octets-zeros (suc n) = (omega arith, Octets-zeros n)

pub length-zeros : (n : ℕ) → length (zeros n) ≡ n
unfolding zeros
length-zeros zero = refl
length-zeros (suc n) = ap suc (length-zeros n)

-- The compression marker stands among the octets that have been written.
abbrev pub Inside : Option ℕ → ℕ → Type 0
Inside none dstidx = Unit {0}
Inside (some z) dstidx = z ≤ dstidx

Inside-weaken : (zidx : Option ℕ) {a b : ℕ} → a ≤ b → Inside zidx a → Inside zidx b
Inside-weaken none le h = tt
Inside-weaken (some z) le h = omega (arith, le, h)

-- What holds whatever notation is read.
pub record IsWriting (st : Fields) : Type 0 where
  pub octets : Octets st.prefix
  pub count_le : length st.prefix ≤ 16
  pub inside : Inside st.zidx (length st.prefix)

-- Hexadecimal fields are written two octets at a time.
pub record IsHex (st : Fields) : Type 0 where
  pub writing : IsWriting st
  pub even : length st.prefix % 2 ≡ 0

append-IsWriting :
    (st : Fields) (more : List ℕ) (digits acc : ℕ)
    → IsWriting st
    → Octets more
    → length st.prefix + length more ≤ 16
    → IsWriting (record st { prefix = st.prefix ++ more; digits = digits; acc = acc })
append-IsWriting st more digits acc h k le =
    let e : length (st.prefix ++ more) ≡ length st.prefix + length more =
      length-append st.prefix more in
    record {
      octets = Octets-append st.prefix more h.octets k;
      count_le = rw (e) le;
      inside = Inside-weaken st.zidx (omega (arith, e)) h.inside;
    }

-- An address, or a field, has ended.
abbrev pub IsEnded : Fields → Type 0
IsEnded st = IsWriting st × (st.digits ≡ 0)

pub end_field-IsHex :
    (st : Fields) → IsHex st → Checks (λ next. IsHex next × (next.digits ≡ 0)) (end_field st)
unfolding end_field
end_field-IsHex st h = Checks-guard (leb dstlen (length st.prefix)) _ _ λ t.
    let low : length st.prefix < 16 = ground (arith, t) in
    accepted (
      record {
        writing =
            append-IsWriting st _ 0 0 h.writing (omega arith, (omega arith, tt))
              (omega (arith, h.even));
        even =
            rw (length-append st.prefix ((st.acc / 2 ^ 8 % 2 ^ 8) ∷ (st.acc % 2 ^ 8) ∷ []))
              (omega (arith, h.even));
      },
      refl,
    )

compress-IsHex : (zidx : Option ℕ) (st : Fields) → IsHex st → Checks IsHex (compress zidx st)
unfolding compress
compress-IsHex none st h = accepted (record {
  writing = record {
    octets = h.writing.octets;
    count_le = h.writing.count_le;
    inside = omega arith;
  };
  even = h.even;
})
compress-IsHex (some z) st h = rejected _

-- The number and the position change, and nothing else.
pub renumber-IsHex :
    (st : Fields) (srcidx digits acc : ℕ)
    → IsHex st
    → IsHex (record st { srcidx = srcidx; digits = digits; acc = acc })
renumber-IsHex st srcidx digits acc h = record {
  writing = record {
    octets = h.writing.octets;
    count_le = h.writing.count_le;
    inside = h.writing.inside;
  };
  even = h.even;
}

hex_digit-Checks : (c : ℕ) → Checks {A = ℕ} (λ d. Unit {0}) (hex_digit c)
unfolding hex_digit
hex_digit-Checks c =
    Checks-if (leb 0x30 c && leb c 0x39) (λ t. accepted tt)
      λ t.
        Checks-if (leb 0x41 c && leb c 0x46) (λ t. accepted tt)
          λ t. Checks-if (leb 0x61 c && leb c 0x66) (λ t. accepted tt) λ t. rejected _

hex_step-IsHex :
    (c : ℕ) (rest : List ℕ) (st : Fields) → IsHex st → Checks IsHex (hex_step c rest st)
unfolding hex_step read_colon add_hex_digit
hex_step-IsHex c rest st h =
    Checks-if (c == colon)
      (λ t.
        Checks-if (st.srcidx == 0)
          (λ t. Checks-guard (not (next_is colon rest)) _ _ λ t. accepted h)
          (λ t.
            Checks-if (st.digits == 0) (λ t. compress-IsHex st.zidx st h)
              (λ t. Checks-map (end_field-IsHex st h) λ next k. k.0)))
      (λ t. Checks-bind (hex_digit-Checks c) λ d u.
        Checks-guard (ltb 4 (st.digits + 1)) _ _
          λ t. accepted (renumber-IsHex st st.srcidx (st.digits + 1) (st.acc * 2 ^ 4 + d) h))

pub read_hex-IsHex : (s : List ℕ) (st : Fields) → IsHex st → Checks IsHex (read_hex s st)
unfolding read_hex
read_hex-IsHex [] st h = accepted h
read_hex-IsHex (c ∷ rest) st h =
    Checks-if (c == full_stop || c == slash) (λ t. accepted h)
      (λ t. Checks-bind (hex_step-IsHex c rest st h) λ next k.
        read_hex-IsHex rest (next_char next)
          (renumber-IsHex next (next.srcidx + 1) next.digits next.acc k))

-- Dotted decimal fields follow `base` octets, and are written one octet at a time.
pub record IsDotted (base : ℕ) (r : ℕ × Fields) : Type 0 where
  pub writing : IsWriting r.1
  pub count : length r.1.prefix ≡ base + r.0
  pub fields_le : r.0 ≤ 4

renumber-IsDotted :
    (base : ℕ) (n : ℕ) (st : Fields) (srcidx digits acc : ℕ)
    → IsDotted base (n, st)
    → IsDotted base (n, record st { srcidx = srcidx; digits = digits; acc = acc })
renumber-IsDotted base n st srcidx digits acc h = record {
  writing = record {
    octets = h.writing.octets;
    count_le = h.writing.count_le;
    inside = h.writing.inside;
  };
  count = h.count;
  fields_le = h.fields_le;
}

pub end_decimal_field-IsDotted :
    (base n : ℕ) (st : Fields)
    → base ≤ 12
    → IsDotted base (n, st)
    → Checks (λ next. IsDotted base (n + 1, next) × (next.digits ≡ 0)) (end_decimal_field n st)
unfolding end_decimal_field
end_decimal_field-IsDotted base n st le h = Checks-guard (st.digits == 0) _ _ λ t.
    Checks-guard (leb 4 n) _ _ λ u.
      let few : n < 4 = ground (arith, u) in
      accepted (
        record {
          writing =
              append-IsWriting st ((st.acc % 2 ^ 8) ∷ []) 0 0 h.writing (omega arith, tt)
                (omega (arith, h.count, few));
          count = rw (length-append st.prefix ((st.acc % 2 ^ 8) ∷ [])) (omega (arith, h.count));
          fields_le = omega (arith, few);
        },
        refl,
      )

decimal_step-IsDotted :
    (base c n : ℕ) (st : Fields)
    → base ≤ 12
    → IsDotted base (n, st)
    → Checks (IsDotted base) (decimal_step c (n, st))
unfolding decimal_step count_field decimal_char add_decimal_digit
decimal_step-IsDotted base c n st le h =
    Checks-if (c == full_stop)
      (λ t. Checks-bind (end_decimal_field-IsDotted base n st le h) λ next k. accepted k.0)
      (λ t.
        Checks-bind
          (Checks-if {P = λ next. IsDotted base (n, next)} (is_digit c)
            (λ d. Checks-guard (not (st.digits == 0) && st.acc == 0) _ _ λ u.
              Checks-guard (ltb 255 (st.acc * 10 + (c - 0x30))) _ _ λ v. accepted (
                renumber-IsDotted base n st st.srcidx (st.digits + 1) (st.acc * 10 + (c - 0x30)) h))
            (λ d. rejected _))
          λ next k. accepted k)

pub read_decimal-IsDotted :
    (base : ℕ) (s : List ℕ) (n : ℕ) (st : Fields)
    → base ≤ 12
    → IsDotted base (n, st)
    → Checks (IsDotted base) (read_decimal s (n, st))
unfolding read_decimal
read_decimal-IsDotted base [] n st le h = accepted h
read_decimal-IsDotted base (c ∷ rest) n st le h =
    Checks-if (c == slash) (λ t. accepted h)
      (λ t. Checks-bind (decimal_step-IsDotted base c n st le h) λ r k.
        read_decimal-IsDotted base rest r.0 (next_char r.1) le
          (renumber-IsDotted base r.0 r.1 (r.1.srcidx + 1) r.1.digits r.1.acc k))
