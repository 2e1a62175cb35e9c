-- ===== src/Netblock/Inet4/Complete.antt =====
-- Every text that stands for a netblock is accepted by the constructor in horace/inet4_netblock.cc.
use libholmes_horace.Common.{
  ℕ, ◌+◌, ◌-◌, ◌*◌, ◌/◌, ◌%◌, ◌≤◌, ◌<◌, ◌≡◌, refl, sym, ◌∙◌, ◌≢◌, ◌↔◌, inl, inr, Bool, true, false,
  not, ◌&&◌, List, [], ◌∷◌, ◌++◌, append_assoc, append-nil, arith, ltb, leb, ◌==◌, if◌then◌else◌,
  Bool-cases, length, All, Settles-ok, Result, ok,
}
use libholmes_horace.Common.Decimal.{decimal}
use libholmes_horace.Netblock.Inet4.{
  full_stop, slash, end_field, add_digit, address_step, read_address, length_step, read_length,
  end_length, read_suffix, inet4_netblock, Inet4Netblock, Cursor,
}
use libholmes_horace.Netblock.Inet4.Exact.{dotted, inet4_netblock_sound, StandsFor}

-- The number of digits of a numeral.
unfoldable width : ℕ → ℕ
width n = if ltb n 10 then 1 else if ltb n 100 then 2 else 3

at_cursor : List ℕ → ℕ → ℕ → Cursor
at_cursor fs digits acc = record { prefix = fs; digits = digits; acc = acc }

-- A loop that reads a numeral digit by digit.
module _ {X : Type 0} (run : List ℕ → Cursor → Result X) (limit : ℕ) (fs : List ℕ)
    (digit : (d digits acc next : ℕ) (rest : List ℕ)
      → d ≤ 9
      → (not (digits == 0) && acc == 0) ≡ false
      → next ≡ acc * 10 + d
      → next ≤ limit
      → run ((48 + d) ∷ rest) (at_cursor fs digits acc)
        ≡ run rest (at_cursor fs (digits + 1) next)) where
  run-decimal :
      (n : ℕ) (rest : List ℕ)
      → n ≤ limit
      → n < 1000
      → run (decimal n ++ rest) (at_cursor fs 0 0) ≡ run rest (at_cursor fs (width n) n)
  unfolding decimal width
  run-decimal n rest le small = elim (Bool-cases (ltb n 10)) [
    | inl t ↦ rw (t) (digit n 0 0 n rest (ground (arith, t)) refl (omega arith) le)
    | inr t ↦ elim (Bool-cases (ltb n 100)) [
      | inl u ↦
          let two : n / 10 ≢ 0 = ground (arith, t, u) in
          rw (t, u)
            (digit (n / 10) 0 0 (n / 10) _ (ground (arith, u)) refl (omega arith)
                (omega (arith, le))
              ∙ digit (n % 10) 1 (n / 10) n rest (omega arith) (ground (arith, two)) (omega arith)
                  le)
      | inr u ↦
          let three : n / 100 ≢ 0 = ground (arith, t, u) in
          rw (t, u)
            (digit (n / 100) 0 0 (n / 100) _ (omega (arith, small)) refl (omega arith)
                (omega (arith, le))
              ∙ (digit (n / 10 % 10) 1 (n / 100) (n / 10) _ (omega arith) (ground (arith, three))
                    (omega arith) (omega (arith, le))
                  ∙ digit (n % 10) 2 (n / 10) n rest (omega arith) (ground (arith, three))
                      (omega arith) le))
    ]
  ]

read_address-digit :
    (fs : List ℕ) (d digits acc next : ℕ) (rest : List ℕ)
    → d ≤ 9
    → (not (digits == 0) && acc == 0) ≡ false
    → next ≡ acc * 10 + d
    → next ≤ 255
    → read_address ((48 + d) ∷ rest) (at_cursor fs digits acc)
      ≡ read_address rest (at_cursor fs (digits + 1) next)
unfolding read_address address_step add_digit at_cursor
read_address-digit fs d digits acc next rest le first e fits =
    let a : ((48 + d) == slash) ≡ false = ground arith in
    let b : ((48 + d) == full_stop) ≡ false = ground arith in
    let low : leb 48 (48 + d) ≡ true = ground arith in
    let high : leb (48 + d) 57 ≡ true = ground arith in
    let v : acc * 10 + ((48 + d) - 48) ≡ next = omega (arith, e) in
    let l : ltb 255 next ≡ false = ground arith in rw (a, b, low, high, first, v, l) refl

read_length-digit :
    (fs : List ℕ) (d digits acc next : ℕ) (rest : List ℕ)
    → d ≤ 9
    → (not (digits == 0) && acc == 0) ≡ false
    → next ≡ acc * 10 + d
    → next ≤ 32
    → read_length ((48 + d) ∷ rest) (at_cursor fs digits acc)
      ≡ read_length rest (at_cursor fs (digits + 1) next)
unfolding read_length length_step add_digit at_cursor
read_length-digit fs d digits acc next rest le first e fits =
    let low : leb 48 (48 + d) ≡ true = ground arith in
    let high : leb (48 + d) 57 ≡ true = ground arith in
    let v : acc * 10 + ((48 + d) - 48) ≡ next = omega (arith, e) in
    let l : ltb 32 next ≡ false = ground arith in rw (low, high, first, v, l) refl

width_pos : (n : ℕ) → (width n == 0) ≡ false
unfolding width
width_pos n = ground arith

-- An octet and the full stop after it.
read_address-field :
    (fs : List ℕ) (n : ℕ) (rest : List ℕ)
    → n < 256
    → length fs < 4
    → read_address (decimal n ++ (full_stop ∷ rest)) (at_cursor fs 0 0)
      ≡ read_address rest (at_cursor (fs ++ (n ∷ [])) 0 0)
read_address-field fs n rest small few =
    run-decimal read_address 255 fs (read_address-digit fs) n (full_stop ∷ rest) (omega arith)
      (omega arith)
    ∙ (unfold read_address address_step end_field at_cursor in
        (let few_left : leb 4 (length fs) ≡ false = ground arith in
          rw (width_pos n, few_left) refl))

starts_slash : List ℕ → Bool
starts_slash [] = true
starts_slash (c ∷ s) = c == slash

read_address-stops :
    (rest : List ℕ) (st : Cursor) → starts_slash rest ≡ true → read_address rest st ≡ ok (st, rest)
unfolding read_address starts_slash
read_address-stops [] st h = refl
read_address-stops (c ∷ s) st h = rw (h) refl

-- The last octet, before what follows the address.
read_address-last :
    (fs : List ℕ) (n : ℕ) (rest : List ℕ)
    → n < 256
    → starts_slash rest ≡ true
    → read_address (decimal n ++ rest) (at_cursor fs 0 0) ≡ ok (at_cursor fs (width n) n, rest)
read_address-last fs n rest small follows =
    run-decimal read_address 255 fs (read_address-digit fs) n rest (omega arith) (omega arith)
    ∙ read_address-stops rest (at_cursor fs (width n) n) follows

abbrev address : ℕ → ℕ → ℕ → ℕ → List ℕ
address a b c d = a ∷ b ∷ c ∷ d ∷ []

read_address-dotted :
    (a b c d : ℕ) (rest : List ℕ)
    → All (λ f. f < 256) (address a b c d)
    → starts_slash rest ≡ true
    → read_address (dotted (address a b c d) ++ rest) (at_cursor [] 0 0)
      ≡ ok (at_cursor (a ∷ b ∷ c ∷ []) (width d) d, rest)
unfolding dotted
read_address-dotted a b c d rest h follows =
    rw
      (
        append_assoc (decimal a)
            (full_stop ∷ (decimal b ++ (full_stop ∷ (decimal c ++ (full_stop ∷ decimal d))))) rest,
        append_assoc (decimal b) (full_stop ∷ (decimal c ++ (full_stop ∷ decimal d))) rest,
        append_assoc (decimal c) (full_stop ∷ decimal d) rest,
      )
      (read_address-field [] a _ h.0 (omega arith)
        ∙ (read_address-field (a ∷ []) b _ h.1.0 (omega arith)
            ∙ (read_address-field (a ∷ b ∷ []) c _ h.1.1.0 (omega arith)
                ∙ read_address-last (a ∷ b ∷ c ∷ []) d rest h.1.1.1.0 follows)))

-- The rest of the constructor, after an address of four octets.
after_address :
    (a b c d : ℕ) (rest : List ℕ)
    → All (λ f. f < 256) (address a b c d)
    → starts_slash rest ≡ true
    → inet4_netblock (dotted (address a b c d) ++ rest)
      ≡ read_suffix rest (at_cursor (address a b c d) 0 0)
unfolding inet4_netblock end_field at_cursor
after_address a b c d rest h follows =
    rw (read_address-dotted a b c d rest h follows) (rw (width_pos d) refl)

read_suffix-length :
    (fs : List ℕ) (n : ℕ)
    → n ≤ 32
    → read_suffix (slash ∷ decimal n) (at_cursor fs 0 0)
      ≡ ok (record { prefix = fs; prefix_length = n })
unfolding read_suffix
read_suffix-length fs n le =
    let r : read_length (decimal n) (at_cursor fs 0 0) ≡ ok (at_cursor fs (width n) n) =
      rw (append-nil (decimal n)) at
        (run-decimal read_length 32 fs (read_length-digit fs) n [] le (omega arith))
      ∙ (unfold read_length in refl) in
    rw (r) (unfold end_length at_cursor in (rw (width_pos n) refl))

StandsFor-accepted :
    (s : List ℕ) (fs : List ℕ) (n : ℕ)
    → StandsFor s (record { prefix = fs; prefix_length = n })
    → inet4_netblock s ≡ ok (record { prefix = fs; prefix_length = n })
unfolding starts_slash
StandsFor-accepted s (a ∷ b ∷ c ∷ d ∷ []) n h = elim h.written [
  | inl e ↦ rw (e) (
      after_address a b c d (slash ∷ decimal n) h.octets refl
      ∙ read_suffix-length (address a b c d) n h.length_le)
  | inr e ↦
      rw (e.0, e.1, sym (append-nil (dotted (address a b c d))))
        (after_address a b c d [] h.octets refl ∙ (unfold read_suffix at_cursor in refl))
]
StandsFor-accepted s [] n h = absurd (omega (arith, h.four))
StandsFor-accepted s (a ∷ []) n h = absurd (omega (arith, h.four))
StandsFor-accepted s (a ∷ b ∷ []) n h = absurd (omega (arith, h.four))
StandsFor-accepted s (a ∷ b ∷ c ∷ []) n h = absurd (omega (arith, h.four))
StandsFor-accepted s (a ∷ b ∷ c ∷ d ∷ e ∷ fs) n h = absurd (omega (arith, h.four))

-- A text is accepted with a netblock exactly when it stands for it: four octets of at most 255 in
-- dotted decimal notation, then a slash and a prefix length of at most 32 or, for a prefix length
-- of 32, nothing, where no numeral has a leading zero.
pub inet4_netblock_iff :
    (s : List ℕ) (nb : Inet4Netblock) → (inet4_netblock s ≡ ok nb) ↔ StandsFor s nb
inet4_netblock_iff s nb = (
  λ e. Settles-ok (inet4_netblock_sound s) e,
  λ h. StandsFor-accepted s nb.prefix nb.prefix_length h,
)
