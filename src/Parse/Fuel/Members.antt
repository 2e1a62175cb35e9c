-- ===== src/Parse/Fuel/Members.antt =====
-- Every attribute and list is parsed within the fuel, and takes as many octets as its length says.
use libholmes_horace.Attribute.{AttributeList, nil}
use libholmes_horace.Attribute.Ids
use libholmes_horace.Attribute.Order.{insert}
use libholmes_horace.Session.{found, get_attr_type, SessionContext}
use libholmes_horace.Parse.{
  parse_unsigned_integer, parse_signed_integer, parse_binary, parse_string, parse_unrecognised,
  parse_timestamp, parse_boolean, parse_simple, total_length, parse_attribute, parse_list, Header,
}
use libholmes_horace.Parse.Fuel.Readers.{
  Took, read-Took, read_octets-Took, read_unsigned-Took, read_signed-Took, read_header-Took,
}
use libholmes_horace.Common.{
  ℕ, zero, suc, ◌+◌, ◌-◌, ◌*◌, ◌%◌, ◌^◌, ◌≤◌, ◌<◌, String, ◌≡◌, not, ◌&&◌, ◌||◌, Option, none, some,
  List, arith, ltb, leb, ◌==◌, length, Settles-if, Settles-bind, Settles-map, Settles-guard,
  Settles, returned, raised, bad_alloc, horace_error,
}
use libholmes_horace.Common.Words.{extend}

parse_unsigned_integer-Took :
    (id len : ℕ) (s : List ℕ) → Settles (Took len s) (parse_unsigned_integer id len s)
unfolding parse_unsigned_integer
parse_unsigned_integer-Took id len s =
    Settles-guard (ltb 8 len) (horace_error "invalid length for unsigned integer attribute") _
      (λ e. cc) λ _. Settles-bind (read_unsigned-Took len s) λ (c, s') t. returned t

parse_signed_integer-Took :
    (id len : ℕ) (s : List ℕ) → Settles (Took len s) (parse_signed_integer id len s)
unfolding parse_signed_integer
parse_signed_integer-Took id len s =
    Settles-guard (ltb 8 len) (horace_error "invalid length for signed integer attribute") _
      (λ e. cc) λ _. Settles-bind (read_signed-Took len s) λ (c, s') t. returned t

parse_binary-Took : (id len : ℕ) (s : List ℕ) → Settles (Took len s) (parse_binary id len s)
unfolding parse_binary
parse_binary-Took id len s =
    Settles-guard (leb (2 ^ 63) len) bad_alloc _ (λ e. cc)
      λ _. Settles-bind (read_octets-Took len s) λ (c, s') t. returned t

parse_string-Took : (id len : ℕ) (s : List ℕ) → Settles (Took len s) (parse_string id len s)
unfolding parse_string
parse_string-Took id len s =
    Settles-guard (leb (2 ^ 63) len) bad_alloc _ (λ e. cc)
      λ _. Settles-bind (read_octets-Took len s) λ (c, s') t. returned t

parse_unrecognised-Took :
    (id len : ℕ) (s : List ℕ) → Settles (Took len s) (parse_unrecognised id len s)
unfolding parse_unrecognised
parse_unrecognised-Took id len s =
    Settles-guard (leb (2 ^ 63) len) bad_alloc _ (λ e. cc)
      λ _. Settles-bind (read_octets-Took len s) λ (c, s') t. returned t

parse_timestamp-Took : (id len : ℕ) (s : List ℕ) → Settles (Took len s) (parse_timestamp id len s)
unfolding parse_timestamp
parse_timestamp-Took id len s =
    Settles-guard (ltb len 5 || ltb 12 len) (horace_error "invalid length for timestamp attribute")
      _ (λ e. cc)
      λ in_range. Settles-bind (read_unsigned-Took (len - 4) s) λ (sec, s₁) t.
        Settles-bind (read_unsigned-Took 4 s₁) λ (nsec, s₂) t'.
          Settles-guard (ltb (2 ^ 63 - 1) sec)
            (horace_error "invalid sec field in timestamp attribute") _ (λ e. cc)
            λ _.
              Settles-guard (leb 2_000_000_000 (nsec % 2 ^ 32))
                (horace_error "invalid nsec field in timestamp attribute") _ (λ e. cc)
                λ _. returned (ground arith)

parse_boolean-Took : (id len : ℕ) (s : List ℕ) → Settles (Took len s) (parse_boolean id len s)
unfolding parse_boolean
parse_boolean-Took id len s =
    Settles-guard (not (len == 1)) (horace_error "invalid length for boolean attribute") _ (λ e. cc)
      λ one. Settles-bind (read-Took s) λ (octet, s') t.
        Settles-guard (not (octet == 0) && not (octet == 1))
          (horace_error "invalid content for boolean attribute") _ (λ e. cc)
          λ _. returned (ground arith)

parse_simple-Took :
    (type id len : ℕ) (s : List ℕ) → Settles (Took len s) (parse_simple type id len s)
unfolding parse_simple
parse_simple-Took type id len s =
    Settles-if (type == Ids.type_unsigned_integer) (λ _. parse_unsigned_integer-Took id len s)
      λ _.
        Settles-if (type == Ids.type_signed_integer) (λ _. parse_signed_integer-Took id len s)
          λ _.
            Settles-if (type == Ids.type_binary) (λ _. parse_binary-Took id len s)
              λ _.
                Settles-if (type == Ids.type_string) (λ _. parse_string-Took id len s)
                  λ _.
                    Settles-if (type == Ids.type_timestamp) (λ _. parse_timestamp-Took id len s)
                      λ _.
                        Settles-if (type == Ids.type_boolean) (λ _. parse_boolean-Took id len s)
                          λ _. parse_unrecognised-Took id len s

found-Settles {ℓ} :
    {V : Type ℓ} (what : String) (id : ℕ) (o : Option V) → Settles (λ _. Unit {0}) (found what id o)
unfolding found
found-Settles what id none = raised (λ e. cc)
found-Settles what id (some v) = returned tt

pub get_attr_type-Settles :
    (session : SessionContext) (id : ℕ) → Settles (λ _. Unit {0}) (get_attr_type session id)
unfolding get_attr_type
get_attr_type-Settles session id = found-Settles "unrecognised attribute ID" id _

-- A member took what its header says: the sum of the lengths did not wrap.
pub total_length-Took :
    (h : Header) (s s₁ s₂ : List ℕ)
    → length s < 2 ^ 63
    → length s ≡ h.hdr_len + length s₁
    → length s₁ ≡ extend h.attr_len + length s₂
    → total_length h ≡ h.hdr_len + extend h.attr_len
unfolding total_length
total_length-Took h s s₁ s₂ bound t t' = omega arith

mutual
  unfolding parse_attribute parse_list

  pub parse_attribute-Took :
      (fuel : ℕ) (session : SessionContext) (id len : ℕ) (s : List ℕ)
      → 2 * length s + 2 ≤ fuel
      → length s < 2 ^ 63
      → Settles (Took len s) (parse_attribute fuel session id len s)
  parse_attribute-Took zero session id len s enough bound = absurd (omega arith)
  parse_attribute-Took (suc fuel) session id len s enough bound =
      Settles-bind (get_attr_type-Settles session id) λ type _.
        Settles-if (type == Ids.type_compound)
          (λ _.
            Settles-bind (parse_list-Took fuel session nil len s (omega arith) bound)
              λ (l, s') t. returned t)
          λ _. parse_simple-Took type id len s

  pub parse_list-Took :
      (fuel : ℕ) (session : SessionContext) (attrs : AttributeList) (remaining : ℕ) (s : List ℕ)
      → 2 * length s + 1 ≤ fuel
      → length s < 2 ^ 63
      → Settles (Took remaining s) (parse_list fuel session attrs remaining s)
  parse_list-Took zero session attrs remaining s enough bound = absurd (omega arith)
  parse_list-Took (suc fuel) session attrs remaining s enough bound =
      Settles-if (remaining == 0) (λ e. returned (ground arith))
        λ some_left. Settles-bind (read_header-Took s) λ (h, s₁) (least, t, small).
          Settles-bind
            (parse_attribute-Took fuel session h.id (extend h.attr_len) s₁ (omega arith)
              (omega arith))
            λ (attr, s₂) t'.
              let total = total_length-Took h s s₁ s₂ bound t t' in
              Settles-guard (ltb remaining (total_length h))
                (horace_error "overrun while parsing attribute list") _ (λ e. cc)
                λ fits.
                  let within : total_length h ≤ remaining = ground arith in
                  Settles-map
                    (parse_list-Took fuel session (insert attr attrs) _ s₂ (omega arith)
                      (omega arith))
                    λ (l, s₃) t''. omega arith
