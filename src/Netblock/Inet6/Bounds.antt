-- ===== src/Netblock/Inet6/Bounds.antt =====
-- The constructor of horace/inet6_netblock.cc writes inside its array, and fills all of it.
use libholmes_horace.Common.Text.{Octets}
use libholmes_horace.Common.{
  ℕ, ◌+◌, ◌-◌, ◌*◌, ◌≤◌, ◌<◌, ◌≡◌, refl, ◌⊎◌, inl, inr, true, false, not, ◌&&◌, Option, none, some,
  List, [], ◌∷◌, ◌++◌, arith, ltb, leb, ◌==◌, test→eq, length, take, drop, All, length-append,
  length-take_of_le, length-drop,
}
use libholmes_horace.Common.Decimal.{is_digit}
use libholmes_horace.Netblock.Checks.{
  Checks-if, Checks-bind, Checks-guard, Checks-map, Checks, accepted, rejected,
}
use libholmes_horace.Netblock.Inet6.{
  full_stop, slash, dstlen, next_is, next_char, add_decimal_digit, dotted_end, elsewhere, plain_end,
  zeros, decompress, read_length, read_suffix, inet6_netblock, Inet6Netblock, Fields,
}
use libholmes_horace.Netblock.Inet6.Written.{
  Octets-append, Octets-take, Octets-drop, Octets-zeros, length-zeros, Inside, IsEnded,
  end_field-IsHex, renumber-IsHex, read_hex-IsHex, end_decimal_field-IsDotted,
  read_decimal-IsDotted, IsHex,
}

dotted_end-IsEnded : (s : List ℕ) (st : Fields) → IsHex st → Checks IsEnded (dotted_end s st)
unfolding dotted_end
dotted_end-IsEnded s st h = Checks-guard (ltb (dstlen - 4) (length st.prefix)) _ _ λ t.
    let room : length st.prefix ≤ 12 = ground (arith, t) in
    let k = renumber-IsHex st (st.srcidx - st.digits) 0 0 h in
    Checks-bind
      (read_decimal-IsDotted (length st.prefix) (drop (st.srcidx - st.digits) s) 0 _ room
        (record { writing = k.writing; count = omega arith; fields_le = omega arith }))
      λ r d.
        Checks-bind (end_decimal_field-IsDotted (length st.prefix) r.0 r.1 room d)
          λ full f. Checks-guard (ltb (r.0 + 1) 4) _ _ λ u. accepted (f.0.writing, f.1)

plain_end-IsEnded : (st : Fields) → IsHex st → Checks IsEnded (plain_end st)
unfolding plain_end
plain_end-IsEnded st h =
    Checks-if (st.digits == 0)
      (λ t.
        Checks-guard (elsewhere st.zidx (length st.prefix)) _ _
          λ u. accepted (h.writing, test→eq st.digits 0 t))
      (λ t. Checks-map (end_field-IsHex st h) λ next k. (k.0.writing, k.1))

-- All of the array.
record IsFull (p : List ℕ) : Type 0 where
  octets : Octets p
  sixteen : length p ≡ 16

decompress-IsFull :
    (zidx : Option ℕ) (p : List ℕ)
    → Octets p
    → length p ≤ 16
    → Inside zidx (length p)
    → Checks IsFull (decompress zidx p)
unfolding decompress
decompress-IsFull none p h le inside =
    Checks-guard (ltb (length p) dstlen) _ _
      λ t. accepted (record { octets = h; sixteen = ground (arith, t, le) })
decompress-IsFull (some z) p h le inside = Checks-guard (leb dstlen (length p)) _ _ λ t.
    accepted (record {
      octets = Octets-append (take z p) _ (Octets-take z p h) (
          Octets-append (zeros (dstlen - length p)) (drop z p) (Octets-zeros (dstlen - length p))
            (Octets-drop z p h));
      sixteen =
          rw
            (
              length-append (take z p) (zeros (dstlen - length p) ++ drop z p),
              length-append (zeros (dstlen - length p)) (drop z p),
              length-take_of_le z p inside,
              length-zeros (dstlen - length p),
              length-drop z p,
            )
            (omega (arith, le, inside));
    })

-- The number is within its limit once a digit has been read.
abbrev Limited : ℕ → Fields → Type 0
Limited limit st = (st.digits ≡ 0) ⊎ (st.acc ≤ limit)

read_length-Limited :
    (s : List ℕ) (st : Fields) → Limited 128 st → Checks (Limited 128) (read_length s st)
unfolding read_length add_decimal_digit
read_length-Limited [] st h = accepted h
read_length-Limited (c ∷ rest) st h =
    Checks-bind
      (Checks-if {P = Limited 128} (is_digit c)
        (λ d. Checks-guard (not (st.digits == 0) && st.acc == 0) _ _ λ u.
          Checks-guard (ltb 128 (st.acc * 10 + (c - 0x30))) _ _
            λ v. accepted (inr (ground (arith, v))))
        (λ d. rejected _))
      λ next k. read_length-Limited rest (next_char next) k

-- A netblock: sixteen octets, and a prefix length of at most 128.
pub record IsNetblock (nb : Inet6Netblock) : Type 0 where
  pub octets : All (λ f. f < 256) nb.prefix
  pub sixteen : length nb.prefix ≡ 16
  pub length_le : nb.prefix_length ≤ 128

limit_kept : (st : Fields) → (st.digits == 0) ≡ false → Limited 128 st → st.acc ≤ 128
limit_kept st t h = elim h [
  | inl e ↦ let z : (st.digits == 0) ≡ true = rw (e) refl in cc
  | inr le ↦ le
]

read_suffix-IsNetblock :
    (p rest : List ℕ) (st : Fields)
    → IsFull p
    → st.digits ≡ 0
    → Checks IsNetblock (read_suffix p rest st)
unfolding read_suffix
read_suffix-IsNetblock p [] st h e =
    accepted (record { octets = h.octets; sixteen = h.sixteen; length_le = omega arith })
read_suffix-IsNetblock p (c ∷ rest) st h e =
    Checks-if (c == slash)
      (λ t. Checks-bind (read_length-Limited rest (next_char st) (inl e)) λ last k.
        Checks-guard (last.digits == 0) _ _ λ u.
          accepted
            (record { octets = h.octets; sixteen = h.sixteen; length_le = limit_kept last u k }))
      (λ t. rejected _)

-- Whatever its text, the constructor either throws `std::invalid_argument` or makes a netblock, and
-- nothing else: it has written sixteen octets, the whole of its array and nothing beyond, each
-- below 256, and the prefix length is at most 128.
pub inet6_netblock-IsNetblock : (s : List ℕ) → Checks IsNetblock (inet6_netblock s)
unfolding inet6_netblock
inet6_netblock-IsNetblock s =
    Checks-bind
      (read_hex-IsHex s (record { srcidx = 0; prefix = []; zidx = none; digits = 0; acc = 0 })
        (record {
          writing = record { octets = tt; count_le = omega arith; inside = tt };
          even = omega arith;
        }))
      λ st h.
        Checks-bind
          (Checks-if {P = IsEnded} (next_is full_stop (drop st.srcidx s))
            (λ t. dotted_end-IsEnded s st h) (λ t. plain_end-IsEnded st h))
          λ last w.
            Checks-bind (decompress-IsFull last.zidx last.prefix w.0.octets w.0.count_le w.0.inside)
              λ full f. read_suffix-IsNetblock full (drop last.srcidx s) last f w.1
