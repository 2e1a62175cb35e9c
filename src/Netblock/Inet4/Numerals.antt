-- ===== src/Netblock/Inet4/Numerals.antt =====
-- The numerals that horace/inet4_netblock.cc reads digit by digit.
use libholmes_horace.Common.{
  ℕ, ◌+◌, ◌-◌, ◌*◌, ◌≤◌, ◌<◌, String, ◌≡◌, refl, sym, true, not, ◌&&◌, List, [], ◌∷◌, ◌++◌,
  append_assoc, append-nil, arith, ltb, leb, ◌==◌, test→eq, length, All, length-append, Settles-if,
  Settles-map, Settles-guard, Settles, returned, raised, invalid_argument,
}
use libholmes_horace.Common.Decimal.{is_digit, decimal, digit_range, numeral, numeral-digit}
use libholmes_horace.Netblock.Inet4.{full_stop, end_field, add_digit, address_step, Cursor}

-- The text of the octets that are complete, each with the full stop after it.
unfoldable pub shown_fields : List ℕ → List ℕ
shown_fields [] = []
shown_fields (f ∷ fs) = decimal f ++ (full_stop ∷ shown_fields fs)

-- The text of the number that is being read.
abbrev pub shown_number : Cursor → List ℕ
shown_number st = numeral st.digits st.acc

abbrev pub shown : Cursor → List ℕ
shown st = shown_fields st.prefix ++ shown_number st

-- What holds between any two characters.
pub record IsReading (limit : ℕ) (st : Cursor) : Type 0 where
  pub count_le : length st.prefix ≤ 4
  pub octets : All (λ f. f < 256) st.prefix
  pub acc_le : st.acc ≤ limit
  pub acc_zero : st.digits ≡ 0 → st.acc ≡ 0

-- The number read so far is followed by the digit `c`.
pub record Follows (limit c : ℕ) (st next : Cursor) : Type 0 where
  pub prefix_kept : next.prefix ≡ st.prefix
  pub reading : IsReading limit next
  pub shown_next : shown_number next ≡ shown_number st ++ (c ∷ [])

pub add_digit-Follows :
    (limit : ℕ) (zero_message large_message : String) (c : ℕ) (st : Cursor)
    → limit < 1000
    → is_digit c ≡ true
    → IsReading limit st
    → Settles (Follows limit c st) (add_digit limit zero_message large_message c st)
unfolding add_digit
add_digit-Follows limit zero_message large_message c st small digit inv =
    let range = digit_range c digit in
    Settles-guard (not (st.digits == 0) && st.acc == 0) (invalid_argument zero_message) _ (λ e. cc)
      λ t.
        Settles-guard (ltb limit (st.acc * 10 + (c - 48))) (invalid_argument large_message) _
          (λ e. cc)
          λ fits. returned (record {
            prefix_kept = refl;
            reading = record {
              count_le = inv.count_le;
              octets = inv.octets;
              acc_le = ground (arith, fits);
              acc_zero = λ e. absurd (omega (arith, e));
            };
            shown_next =
                numeral-digit st.digits st.acc c inv.acc_zero t (ground (arith, fits, small))
                  range.0 range.1;
          })

shown_fields-append :
    (fs : List ℕ) (f : ℕ)
    → shown_fields (fs ++ (f ∷ [])) ≡ shown_fields fs ++ (decimal f ++ (full_stop ∷ []))
unfolding shown_fields
shown_fields-append [] f = refl
shown_fields-append (g ∷ fs) f =
    rw (shown_fields-append fs f)
      (sym (append_assoc (decimal g) (full_stop ∷ shown_fields fs) (decimal f ++ (full_stop ∷ []))))

All-append :
    (fs : List ℕ) (f : ℕ) → All (λ g. g < 256) fs → f < 256 → All (λ g. g < 256) (fs ++ (f ∷ []))
All-append [] f h k = (k, tt)
All-append (g ∷ fs) f h k = (h.0, All-append fs f h.1 k)

-- A complete octet has been recorded.
pub record Recorded (st next : Cursor) : Type 0 where
  pub prefix_next : next.prefix ≡ st.prefix ++ (st.acc ∷ [])
  pub reading : IsReading 255 next
  pub digits_next : next.digits ≡ 0
  pub number_shown : shown_number st ≡ decimal st.acc
  pub shown_next : shown next ≡ shown st ++ (full_stop ∷ [])

pub end_field-Recorded : (st : Cursor) → IsReading 255 st → Settles (Recorded st) (end_field st)
unfolding end_field numeral
end_field-Recorded st inv =
    Settles-guard (st.digits == 0) (invalid_argument "invalid empty field in IPv4 address") _
      (λ e. cc)
      λ t.
        Settles-guard (leb 4 (length st.prefix))
          (invalid_argument "too many fields in IPv4 address") _ (λ e. cc)
          λ few.
            let shown_st : shown_number st ≡ decimal st.acc = rw (t) refl in
            returned (record {
              prefix_next = refl;
              reading = record {
                count_le = ground (arith, length-append st.prefix (st.acc ∷ []), few);
                octets = All-append st.prefix st.acc inv.octets (omega (arith, inv.acc_le));
                acc_le = omega arith;
                acc_zero = λ e. refl;
              };
              digits_next = refl;
              number_shown = shown_st;
              shown_next =
                  rw
                    (
                      append-nil (shown_fields (st.prefix ++ (st.acc ∷ []))),
                      shown_fields-append st.prefix st.acc,
                      t,
                    )
                    (sym (append_assoc (shown_fields st.prefix) (decimal st.acc) (full_stop ∷ [])));
            })

-- A character of the address has been read.
pub record Advanced (c : ℕ) (st next : Cursor) : Type 0 where
  pub reading : IsReading 255 next
  pub shown_next : shown next ≡ shown st ++ (c ∷ [])

pub address_step-Advanced :
    (c : ℕ) (st : Cursor) → IsReading 255 st → Settles (Advanced c st) (address_step c st)
unfolding address_step
address_step-Advanced c st inv =
    Settles-if (c == full_stop)
      (λ t. Settles-map (end_field-Recorded st inv) λ next r. record {
        reading = r.reading;
        shown_next = rw (test→eq c full_stop t) r.shown_next;
      })
      (λ t.
        Settles-if (is_digit c)
          (λ digit. Settles-map (add_digit-Follows 255 _ _ c st (omega arith) digit inv) λ next r.
            record {
              reading = r.reading;
              shown_next =
                  rw (r.prefix_kept, r.shown_next)
                    (sym (append_assoc (shown_fields st.prefix) (shown_number st) (c ∷ [])));
            })
          (λ other. raised (λ e. cc)))
