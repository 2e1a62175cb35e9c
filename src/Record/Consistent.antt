-- ===== src/Record/Consistent.antt =====
-- The session that a record leaves behind.
use libholmes_horace.Wire.Unsigned
use libholmes_horace.Wire.Signed
use mathlib.Core.Path.{subst}
use libholmes_horace.Attribute.{
  Attribute, compound, unsigned_integer, signed_integer, binary, string, timestamp, boolean,
  unrecognised, AttributeList, nil,
}
use libholmes_horace.Attribute.Ids
use libholmes_horace.Attribute.Order.{insert}
use libholmes_horace.Session.{SessionContext}
use libholmes_horace.Session.Consistent.{
  IsConsistent, handle_attr_def-IsConsistent, handle_channel_def-IsConsistent,
}
use libholmes_horace.Parse.{read_header, total_length, parse_attribute}
use libholmes_horace.Record.{handle_definition, parse_members, parse, Record}
use libholmes_horace.Common.{
  ℕ, zero, suc, ◌+◌, ◌*◌, ◌≡◌, inl, inr, Bool, true, false, List, ltb, ◌==◌, if◌then◌else◌,
  Bool-cases, length, throw_if, bind-eq-ok, bad_cast, horace_error, ok, err,
}
use libholmes_horace.Common.Words.{extend}

subst-IsConsistent : (s s' : SessionContext) → s ≡ s' → IsConsistent s → IsConsistent s'
subst-IsConsistent s s' e h = subst IsConsistent e h

cast-IsConsistent :
    (b : Bool) (s s' : SessionContext)
    → (if b then err bad_cast else ok s) ≡ ok s'
    → IsConsistent s
    → IsConsistent s'
cast-IsConsistent true s s' e h = cc
cast-IsConsistent false s s' e h = subst-IsConsistent s s' (cc) h

pub handle_definition-IsConsistent :
    (s s' : SessionContext) (a : Attribute)
    → handle_definition s a ≡ ok s'
    → IsConsistent s
    → IsConsistent s'
unfolding handle_definition
handle_definition-IsConsistent s s' (compound id l) e h =
    elim (Bool-cases (id == Ids.attrid_attr_def)) [
      | inl t ↦ handle_attr_def-IsConsistent s s' l (rw (t) at e) h
      | inr t ↦ elim (Bool-cases (id == Ids.attrid_chan_def)) [
        | inl t' ↦ handle_channel_def-IsConsistent s s' l (rw (t, t') at e) h
        | inr t' ↦ cast-IsConsistent false s s' (rw (t, t') at e) h
      ]
    ]
handle_definition-IsConsistent s s' (unsigned_integer id c) e h = cast-IsConsistent _ s s' e h
handle_definition-IsConsistent s s' (signed_integer id c) e h = cast-IsConsistent _ s s' e h
handle_definition-IsConsistent s s' (binary id c) e h = cast-IsConsistent _ s s' e h
handle_definition-IsConsistent s s' (string id c) e h = cast-IsConsistent _ s s' e h
handle_definition-IsConsistent s s' (timestamp id sec nsec) e h = cast-IsConsistent _ s s' e h
handle_definition-IsConsistent s s' (boolean id c) e h = cast-IsConsistent _ s s' e h
handle_definition-IsConsistent s s' (unrecognised id c) e h = cast-IsConsistent _ s s' e h

parse_members-IsConsistent :
    (fuel : ℕ) (s s' : SessionContext) (attrs attrs' : AttributeList) (remaining : ℕ)
    (input rest : List ℕ)
    → parse_members fuel s attrs remaining input ≡ ok ((attrs', s'), rest)
    → IsConsistent s
    → IsConsistent s'
unfolding parse_members
parse_members-IsConsistent zero s s' attrs attrs' remaining input rest e h = cc
parse_members-IsConsistent (suc fuel) s s' attrs attrs' remaining input rest e h =
    elim (Bool-cases (remaining == 0)) [
      | inl t ↦ subst-IsConsistent s s' (let e₀ = rw (t) at e in cc) h
      | inr t ↦
          let ((header, s₁), _, e₁) = bind-eq-ok (read_header input) _ (rw (t) at e) in
          let ((attr, s₂), _, e₂) =
            bind-eq-ok (parse_attribute fuel s header.id (extend header.attr_len) s₁) _ e₁ in
          let (σ, handled, e₃) = bind-eq-ok (handle_definition s attr) _ e₂ in
          let (_, _, e₄) =
            bind-eq-ok
              (throw_if (ltb remaining (total_length header))
                (horace_error "attribute extends beyond length of record"))
              _ e₃ in
          parse_members-IsConsistent fuel σ s' (insert attr attrs) attrs' _ s₂ rest e₄
            (handle_definition-IsConsistent s σ attr handled h)
    ]

-- A record that is parsed leaves a consistent session consistent: its definitions give each new
-- attribute both a type and a label.
pub parse-IsConsistent :
    (s s' : SessionContext) (input rest : List ℕ) (r : Record)
    → parse s input ≡ ok ((r, s'), rest)
    → IsConsistent s
    → IsConsistent s'
unfolding parse
parse-IsConsistent s s' input rest r e h =
    let ((channel, s₁), _, e₁) = bind-eq-ok (Signed.read_signed_base128 input) _ e in
    let ((remaining, s₂), _, e₂) = bind-eq-ok (Unsigned.read_unsigned_base128 s₁) _ e₁ in
    let (((attrs, σ), s₃), members, e₃) =
      bind-eq-ok (parse_members (2 * length s₂ + 1) s nil remaining s₂) _ e₂ in
    subst-IsConsistent σ s' (cc)
      (parse_members-IsConsistent _ s σ nil attrs remaining s₂ s₃ members h)
