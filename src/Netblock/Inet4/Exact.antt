-- ===== src/Netblock/Inet4/Exact.antt =====
-- The texts that the constructor in horace/inet4_netblock.cc accepts, and what it makes of them.
use libholmes_horace.Common.{
  ℕ, ◌≤◌, ◌<◌, ◌≡◌, refl, sym, ap, ◌∙◌, ◌⊎◌, inl, inr, List, [], ◌∷◌, ◌++◌, append_assoc,
  append-nil, arith, ltb, ◌==◌, test→eq, length, All, Settles-if, Settles-bind, Settles-map,
  Settles-guard, Settles, returned, raised, invalid_argument,
}
use libholmes_horace.Common.Decimal.{is_digit, decimal, numeral}
use libholmes_horace.Netblock.Inet4.{
  full_stop, slash, read_address, length_step, read_length, end_length, read_suffix, inet4_netblock,
  Inet4Netblock, Cursor,
}
use libholmes_horace.Netblock.Inet4.Numerals.{
  shown_fields, shown_number, shown, add_digit-Follows, end_field-Recorded, address_step-Advanced,
  IsReading, Follows,
}

-- Octets in dotted decimal notation.
unfoldable pub dotted : List ℕ → List ℕ
dotted [] = []
dotted (f ∷ []) = decimal f
dotted (f ∷ g ∷ fs) = decimal f ++ (full_stop ∷ dotted (g ∷ fs))

-- The text stands for the netblock: four octets in dotted decimal notation, and a slash and the
-- prefix length, which may be left out if it is 32; no numeral has a leading zero.
pub record StandsFor (s : List ℕ) (nb : Inet4Netblock) : Type 0 where
  pub four : length nb.prefix ≡ 4
  pub octets : All (λ f. f < 256) nb.prefix
  pub length_le : nb.prefix_length ≤ 32
  pub written :
      (s ≡ dotted nb.prefix ++ (slash ∷ decimal nb.prefix_length))
      ⊎ ((s ≡ dotted nb.prefix) × (nb.prefix_length ≡ 32))

dotted-append : (fs : List ℕ) (f : ℕ) → shown_fields fs ++ decimal f ≡ dotted (fs ++ (f ∷ []))
unfolding shown_fields dotted
dotted-append [] f = refl
dotted-append (g ∷ []) f = append_assoc (decimal g) (full_stop ∷ []) (decimal f)
dotted-append (g ∷ h ∷ fs) f =
    append_assoc (decimal g) (full_stop ∷ shown_fields (h ∷ fs)) (decimal f)
    ∙ ap (λ t. decimal g ++ (full_stop ∷ t)) (dotted-append (h ∷ fs) f)

-- The address is a prefix of the text.
record ReadUpto (s : List ℕ) (st : Cursor) (r : Cursor × List ℕ) : Type 0 where
  reading : IsReading 255 r.0
  text : shown st ++ s ≡ shown r.0 ++ r.1

read_address-ReadUpto :
    (s : List ℕ) (st : Cursor) → IsReading 255 st → Settles (ReadUpto s st) (read_address s st)
unfolding read_address
read_address-ReadUpto [] st inv = returned (record { reading = inv; text = refl })
read_address-ReadUpto (c ∷ s) st inv =
    Settles-if (c == slash) (λ t. returned (record { reading = inv; text = refl }))
      (λ t. Settles-bind (address_step-Advanced c st inv) λ next a.
        Settles-map (read_address-ReadUpto s next a.reading) λ r u. record {
          reading = u.reading;
          text = sym (append_assoc (shown st) (c ∷ []) s) ∙ rw (sym a.shown_next) u.text;
        })

-- The prefix length is the rest of the text.
record ReadLength (s : List ℕ) (st last : Cursor) : Type 0 where
  prefix_kept : last.prefix ≡ st.prefix
  reading : IsReading 32 last
  text : shown_number st ++ s ≡ shown_number last

read_length-ReadLength :
    (s : List ℕ) (st : Cursor) → IsReading 32 st → Settles (ReadLength s st) (read_length s st)
unfolding read_length length_step
read_length-ReadLength [] st inv =
    returned (record { prefix_kept = refl; reading = inv; text = append-nil (shown_number st) })
read_length-ReadLength (c ∷ s) st inv =
    Settles-bind
      (Settles-if {P = Follows 32 c st} (is_digit c)
        (λ digit. add_digit-Follows 32 _ _ c st (omega arith) digit inv)
        (λ other. raised (λ e. cc)))
      λ next a. Settles-map (read_length-ReadLength s next a.reading) λ last u. record {
        prefix_kept = u.prefix_kept ∙ a.prefix_kept;
        reading = u.reading;
        text = sym (append_assoc (shown_number st) (c ∷ []) s) ∙ rw (sym a.shown_next) u.text;
      }

end_length-number :
    (st : Cursor)
    → Settles
        (λ nb.
          (nb.prefix ≡ st.prefix)
          × (nb.prefix_length ≡ st.acc)
          × (shown_number st ≡ decimal st.acc))
        (end_length st)
unfolding end_length numeral
end_length-number st =
    Settles-guard (st.digits == 0) (invalid_argument "missing prefix length in IPv4 netblock") _
      (λ e. cc) λ t. returned (refl, refl, rw (t) refl)

read_suffix-StandsFor :
    (text rest : List ℕ) (full : Cursor)
    → IsReading 255 full
    → full.digits ≡ 0
    → length full.prefix ≡ 4
    → text ≡ dotted full.prefix ++ rest
    → Settles (StandsFor text) (read_suffix rest full)
unfolding read_suffix numeral
read_suffix-StandsFor text [] full inv empty four e = returned (record {
  four = four;
  octets = inv.octets;
  length_le = omega arith;
  written = inr (e ∙ append-nil (dotted full.prefix), refl);
})
read_suffix-StandsFor text (c ∷ rest) full inv empty four e =
    Settles-if (c == slash)
      (λ t.
        let start : IsReading 32 full = record {
          count_le = inv.count_le;
          octets = inv.octets;
          acc_le = omega (arith, inv.acc_zero empty);
          acc_zero = inv.acc_zero;
        } in
        Settles-bind (read_length-ReadLength rest full start) λ last u.
          Settles-map (end_length-number last) λ nb n. record {
            four = rw (n.0, u.prefix_kept) four;
            octets = rw (n.0, u.prefix_kept) inv.octets;
            length_le = rw (n.1) u.reading.acc_le;
            written = inl (
                let number : rest ≡ decimal last.acc = (rw (empty) at u.text) ∙ n.2 in
                rw (n.0, u.prefix_kept, n.1) (rw (test→eq c slash t, number) at e));
          })
      (λ t. raised (λ e. cc))

pub inet4_netblock_sound : (s : List ℕ) → Settles (StandsFor s) (inet4_netblock s)
unfolding inet4_netblock shown_fields numeral
inet4_netblock_sound s =
    Settles-bind
      (read_address-ReadUpto s (record { prefix = []; digits = 0; acc = 0 })
        (record {
          count_le = omega arith;
          octets = tt;
          acc_le = omega arith;
          acc_zero = λ e. refl;
        }))
      λ r u. Settles-bind (end_field-Recorded r.0 u.reading) λ full f.
        Settles-guard (ltb (length full.prefix) 4)
          (invalid_argument "too few fields in IPv4 address") _ (λ e. cc)
          λ t.
            read_suffix-StandsFor s r.1 full f.reading f.digits_next
              (ground (arith, t, f.reading.count_le))
              (u.text
                ∙ rw (f.number_shown, f.prefix_next)
                    (ap (λ x. x ++ r.1) (dotted-append r.0.prefix r.0.acc)))
