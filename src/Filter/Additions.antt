-- ===== src/Filter/Additions.antt =====
-- The filter object of horace/address_filter.cc when netblocks are added after it was compiled.
use libholmes_horace.Common.{
  ◌≡◌, refl, sym, ap, ◌∙◌, inl, inr, false, List, [], ◌∷◌, Bool-cases, bind-eq-ok, Result, ok,
}
use libholmes_horace.Netblock.Inet4.{Inet4Netblock}
use libholmes_horace.Netblock.Inet6.{Inet6Netblock}
use libholmes_horace.Filter.{
  compile_filter, add_inet4, add_inet6, compile, Instruction, AddressFilter,
}

-- One of the two overloads of `add`.
pub data Addition : Type 0 where
  inet4 : Inet4Netblock → Addition
  inet6 : Inet6Netblock → Addition

unfoldable pub add : Addition → AddressFilter → AddressFilter
unfolding add_inet4 add_inet6
add (inet4 nb) f = add_inet4 nb f
add (inet6 nb) f = add_inet6 nb f

unfoldable pub add_all : List Addition → AddressFilter → AddressFilter
unfolding add
add_all [] f = f
add_all (x ∷ xs) f = add_all xs (add x f)

add-kept :
    (x : Addition) (f : AddressFilter)
    → ((add x f).modified ≡ f.modified) × ((add x f).compiled ≡ f.compiled)
unfolding add add_inet4 add_inet6
add-kept (inet4 nb) f = (refl, refl)
add-kept (inet6 nb) f = (refl, refl)

add_all-kept :
    (xs : List Addition) (f : AddressFilter)
    → ((add_all xs f).modified ≡ f.modified) × ((add_all xs f).compiled ≡ f.compiled)
unfolding add_all
add_all-kept [] f = (refl, refl)
add_all-kept (x ∷ xs) f =
    let h = add_all-kept xs (add x f) in let k = add-kept x f in (h.0 ∙ k.0, h.1 ∙ k.1)

-- The filter and the program that were returned.
returned_pair :
    (f : AddressFilter) (p q : AddressFilter × List Instruction)
    → ◌≡◌ {A = Result (AddressFilter × List Instruction)} (ok p) (ok q)
    → p ≡ q
returned_pair f p q h = cc

compile-compiled :
    (f g : AddressFilter) (code : List Instruction)
    → compile f ≡ ok (g, code)
    → (g.modified ≡ false) × (g.compiled ≡ code)
unfolding compile
compile-compiled f g code h = elim (Bool-cases f.modified) [
  | inl t ↦
      let r = bind-eq-ok (compile_filter f.inet4_netblocks f.inet6_netblocks) _ (rw (t) at h) in
      let e = returned_pair f _ (g, code) r.2 in
      (
        sym (ap (λ (x : AddressFilter × List Instruction). x.0.modified) e),
        sym (ap (λ (x : AddressFilter × List Instruction). x.0.compiled) e)
            ∙ ap (λ (x : AddressFilter × List Instruction). x.1) e,
      )
  | inr t ↦
      let e = returned_pair f (record f { modified = false }, f.compiled) (g, code) (rw (t) at h) in
      (
        sym (ap (λ (x : AddressFilter × List Instruction). x.0.modified) e),
        sym (ap (λ (x : AddressFilter × List Instruction). x.0.compiled) e)
            ∙ ap (λ (x : AddressFilter × List Instruction). x.1) e,
      )
]

-- Once the filter has been compiled, netblocks that are added to it have no effect: however many
-- follow, it goes on returning the program that was compiled first.
pub compile-add_all :
    (f g : AddressFilter) (code : List Instruction) (xs : List Addition)
    → compile f ≡ ok (g, code)
    → compile (add_all xs g) ≡ ok (add_all xs g, code)
compile-add_all f g code xs h =
    let k = compile-compiled f g code h in
    let e = add_all-kept xs g in
    let unmodified : (add_all xs g).modified ≡ false = e.0 ∙ k.0 in
    let same : (add_all xs g).compiled ≡ code = e.1 ∙ k.1 in
    unfold compile in (rw (unmodified, same) refl)
