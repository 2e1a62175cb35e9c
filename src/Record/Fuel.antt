-- ===== src/Record/Fuel.antt =====
-- Reading a record: the fuel is enough, and the octets that are taken.
use libholmes_horace.Wire.Unsigned
use libholmes_horace.Wire.Signed
use libholmes_horace.Attribute.{
  attrid, Attribute, compound, unsigned_integer, signed_integer, binary, string, timestamp, boolean,
  unrecognised, AttributeList, nil, cons,
}
use libholmes_horace.Attribute.Ids
use libholmes_horace.Attribute.Order.{insert}
use libholmes_horace.Attribute.Lookup.{
  find_loop, find_one, as_signed_integer, as_unsigned_integer, as_string, find_signed_integer,
  find_unsigned_integer, find_string,
}
use libholmes_horace.Session.{handle_attr_def, handle_channel_def, SessionContext}
use libholmes_horace.Parse.{total_length}
use libholmes_horace.Parse.Fuel.Readers.{Took, Settles-round, read_header-Took}
use libholmes_horace.Parse.Fuel.Members.{total_length-Took, parse_attribute-Took}
use libholmes_horace.Record.{handle_definition, parse_members, parse, Record}
use libholmes_horace.Common.{
  ℕ, zero, suc, ◌+◌, ◌*◌, ◌^◌, ◌≤◌, ◌<◌, bit_and, ◌≡◌, ◌≢◌, Bool, not, Option, none, some, List, [],
  ◌∷◌, arith, ltb, ◌==◌, if◌then◌else◌, length, Settles-ok, Settles-fuel, Settles-if, Settles-bind,
  Settles-map, Settles-guard, Settles, returned, raised, bad_cast, out_of_fuel, horace_error,
  Result, ok, err,
}
use libholmes_horace.Common.Words.{shr, extend}

abbrev Settled {ℓ} : {A : Type ℓ} → Result A → Type ℓ
Settled r = Settles (λ _. Unit {0}) r

find_loop-Settled : (id : ℕ) (o : Option Attribute) (l : AttributeList) → Settled (find_loop id o l)
unfolding find_loop
find_loop-Settled id none nil = raised (λ e. cc)
find_loop-Settled id (some a) nil = returned tt
find_loop-Settled id none (cons a l) =
    Settles-if (attrid a == id) (λ _. find_loop-Settled id (some a) l)
      λ _. find_loop-Settled id none l
find_loop-Settled id (some b) (cons a l) =
    Settles-if (attrid a == id) (λ _. raised (λ e. cc)) λ _. find_loop-Settled id (some b) l

find_one-Settled : (l : AttributeList) (id : ℕ) → Settled (find_one l id)
unfolding find_one
find_one-Settled l id = find_loop-Settled id none l

as_signed_integer-Settled : (a : Attribute) → Settled (as_signed_integer a)
unfolding as_signed_integer
as_signed_integer-Settled (signed_integer _ c) = returned tt
as_signed_integer-Settled _ = raised (λ e. cc)

find_signed_integer-Settled : (l : AttributeList) (id : ℕ) → Settled (find_signed_integer l id)
unfolding find_signed_integer
find_signed_integer-Settled l id =
    Settles-bind (find_one-Settled l id) λ a _. as_signed_integer-Settled a

as_unsigned_integer-Settled : (a : Attribute) → Settled (as_unsigned_integer a)
unfolding as_unsigned_integer
as_unsigned_integer-Settled (unsigned_integer _ c) = returned tt
as_unsigned_integer-Settled _ = raised (λ e. cc)

find_unsigned_integer-Settled : (l : AttributeList) (id : ℕ) → Settled (find_unsigned_integer l id)
unfolding find_unsigned_integer
find_unsigned_integer-Settled l id =
    Settles-bind (find_one-Settled l id) λ a _. as_unsigned_integer-Settled a

as_string-Settled : (a : Attribute) → Settled (as_string a)
unfolding as_string
as_string-Settled (string _ c) = returned tt
as_string-Settled _ = raised (λ e. cc)

find_string-Settled : (l : AttributeList) (id : ℕ) → Settled (find_string l id)
unfolding find_string
find_string-Settled l id = Settles-bind (find_one-Settled l id) λ a _. as_string-Settled a

handle_attr_def-Settled :
    (session : SessionContext) (l : AttributeList) → Settled (handle_attr_def session l)
unfolding handle_attr_def
handle_attr_def-Settled session l = Settles-bind (find_signed_integer-Settled l _) λ _ _.
    Settles-bind (find_string-Settled l _)
      λ _ _. Settles-bind (find_unsigned_integer-Settled l _) λ _ _. returned tt

handle_channel_def-Settled :
    (session : SessionContext) (l : AttributeList) → Settled (handle_channel_def session l)
unfolding handle_channel_def
handle_channel_def-Settled session l =
    Settles-bind (find_signed_integer-Settled l _)
      λ _ _. Settles-bind (find_string-Settled l _) λ _ _. returned tt

cast-Settled :
    (b : Bool) (session : SessionContext) → Settled (if b then err bad_cast else ok session)
cast-Settled b session = Settles-if b (λ _. raised (λ e. cc)) λ _. returned tt

handle_definition-Settled :
    (session : SessionContext) (a : Attribute) → Settled (handle_definition session a)
unfolding handle_definition
handle_definition-Settled session (compound id l) =
    Settles-if (id == Ids.attrid_attr_def) (λ _. handle_attr_def-Settled session l)
      λ _.
        Settles-if (id == Ids.attrid_chan_def) (λ _. handle_channel_def-Settled session l)
          λ _. returned tt
handle_definition-Settled session (unsigned_integer id c) = cast-Settled _ session
handle_definition-Settled session (signed_integer id c) = cast-Settled _ session
handle_definition-Settled session (binary id c) = cast-Settled _ session
handle_definition-Settled session (string id c) = cast-Settled _ session
handle_definition-Settled session (timestamp id sec nsec) = cast-Settled _ session
handle_definition-Settled session (boolean id c) = cast-Settled _ session
handle_definition-Settled session (unrecognised id c) = cast-Settled _ session

pub parse_members-Took :
    (fuel : ℕ) (session : SessionContext) (attrs : AttributeList) (remaining : ℕ) (s : List ℕ)
    → 2 * length s + 1 ≤ fuel
    → length s < 2 ^ 63
    → Settles (Took remaining s) (parse_members fuel session attrs remaining s)
unfolding parse_members
parse_members-Took zero session attrs remaining s enough bound = absurd (omega arith)
parse_members-Took (suc fuel) session attrs remaining s enough bound =
    Settles-if (remaining == 0) (λ e. returned (ground arith))
      λ some_left. Settles-bind (read_header-Took s) λ (h, s₁) (least, t, small).
        Settles-bind
          (parse_attribute-Took fuel session h.id (extend h.attr_len) s₁ (omega arith)
            (omega arith))
          λ (attr, s₂) t'.
            let total = total_length-Took h s s₁ s₂ bound t t' in
            Settles-bind (handle_definition-Settled session attr) λ session' _.
              Settles-guard (ltb remaining (total_length h))
                (horace_error "attribute extends beyond length of record") _ (λ e. cc)
                λ fits.
                  let within : total_length h ≤ remaining = ground arith in
                  Settles-map
                    (parse_members-Took fuel session' (insert attr attrs) _ s₂ (omega arith)
                      (omega arith))
                    λ r t''. omega arith

-- An octet at least is taken.
abbrev Shorter {ℓ} : {A : Type ℓ} → List ℕ → A × List ℕ → Type 0
Shorter s r = length r.1 < length s

unsigned_loop-Shorter :
    (b v : ℕ) (s : List ℕ) → Settles (λ r. length r.1 ≤ length s) (Unsigned.read_loop b v s)
unfolding Unsigned.read_loop
unsigned_loop-Shorter b v [] =
    Settles-round (bit_and b 0x80 == 0) (not (shr v 57 == 0)) (v, []) (omega arith)
      (raised (λ e. cc))
unsigned_loop-Shorter b v (b' ∷ s) =
    Settles-round (bit_and b 0x80 == 0) (not (shr v 57 == 0)) (v, b' ∷ s) (omega arith)
      (Settles-map (unsigned_loop-Shorter b' _ s) λ r t. omega arith)

signed_loop-Shorter :
    (b v : ℕ) (s : List ℕ) → Settles (λ r. length r.1 ≤ length s) (Signed.read_loop b v s)
unfolding Signed.read_loop
signed_loop-Shorter b v [] =
    Settles-round (bit_and b 0x80 == 0) (Signed.result_overflows v) (v, []) (omega arith)
      (raised (λ e. cc))
signed_loop-Shorter b v (b' ∷ s) =
    Settles-round (bit_and b 0x80 == 0) (Signed.result_overflows v) (v, b' ∷ s) (omega arith)
      (Settles-map (signed_loop-Shorter b' _ s) λ r t. omega arith)

read_unsigned_base128-Shorter :
    (s : List ℕ) → Settles (Shorter s) (Unsigned.read_unsigned_base128 s)
unfolding Unsigned.read_unsigned_base128
read_unsigned_base128-Shorter [] = raised (λ e. cc)
read_unsigned_base128-Shorter (b ∷ s) = Settles-map (unsigned_loop-Shorter b _ s) λ r t. omega arith

read_signed_base128-Shorter : (s : List ℕ) → Settles (Shorter s) (Signed.read_signed_base128 s)
unfolding Signed.read_signed_base128
read_signed_base128-Shorter [] = raised (λ e. cc)
read_signed_base128-Shorter (b ∷ s) = Settles-map (signed_loop-Shorter b _ s) λ r t. omega arith

parse-Settles :
    (session : SessionContext) (s : List ℕ)
    → length s < 2 ^ 63
    → Settles (λ r. 2 + length r.1 ≤ length s) (parse session s)
unfolding parse
parse-Settles session s bound = Settles-bind (read_signed_base128-Shorter s) λ (channel, s₁) t.
    Settles-bind (read_unsigned_base128-Shorter s₁) λ (remaining, s₂) t'.
      Settles-bind
        (parse_members-Took (2 * length s₂ + 1) session nil remaining s₂ (omega arith)
          (omega arith))
        λ ((attrs, session'), s₃) t''. returned (omega arith)

-- The fuel that the model gives is enough: a record is returned, or an exception of the program.
-- A returned record took two octets at least. No input is longer than 2^63 octets.
pub parse_terminates :
    (session : SessionContext) (s : List ℕ)
    → length s < 2 ^ 63
    → (parse session s ≢ err out_of_fuel)
      × ((r : Record) (session' : SessionContext) (rest : List ℕ)
          → parse session s ≡ ok ((r, session'), rest)
          → 2 + length rest ≤ length s)
parse_terminates session s bound = (
  Settles-fuel (parse-Settles session s bound),
  λ r session' rest e. Settles-ok (parse-Settles session s bound) e,
)

-- A loop that returns has taken exactly as many octets as the record's length said were there, on
-- an input shorter than 2^63 octets.
pub parse_members_takes :
    (session : SessionContext) (attrs : AttributeList) (remaining : ℕ) (s : List ℕ)
    (r : AttributeList × SessionContext) (rest : List ℕ)
    → length s < 2 ^ 63
    → parse_members (2 * length s + 1) session attrs remaining s ≡ ok (r, rest)
    → length s ≡ remaining + length rest
parse_members_takes session attrs remaining s r rest bound e =
    Settles-ok (parse_members-Took (2 * length s + 1) session attrs remaining s (omega arith) bound)
      e
