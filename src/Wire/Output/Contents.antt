-- ===== src/Wire/Output/Contents.antt =====
-- A buffered writer against the octets that it was given.
use mathlib.Core.Path.{subst}
use libholmes_horace.Wire.Output.{
  Ending, proceed, append_octets, store, send, flush, write_octets, OctetWriter, Direct, whole,
  partial,
}
use libholmes_horace.Common.{
  ℕ, ◌+◌, ◌-◌, ◌*◌, ◌%◌, ◌^◌, ◌≤◌, ◌<◌, ◌≡◌, refl, sym, ap, ◌∙◌, List, [], ◌∷◌, ◌++◌, append_assoc,
  append-nil, arith, leb, ◌==◌, test→eq, if-cases, length, take, drop, length-append,
  take-append-drop, length-nil, err, ok,
}

abbrev pub concat : List (List ℕ) → List ℕ
concat [] = []
concat (block ∷ blocks) = block ++ concat blocks

-- What was written directly, and then what is in the buffer.
abbrev pub contents : OctetWriter → List ℕ
contents w = concat w.blocks ++ w.buffer

abbrev pub IsWithin : OctetWriter → Type 0
IsWithin w = length w.buffer ≤ w.capacity

-- The second list of octets is a beginning of the first.
abbrev pub StartsWith : List ℕ → List ℕ → Type 0
StartsWith s t = (rest : List ℕ) × (s ≡ t ++ rest)

-- The buffer is within its size. Where the operation returned, the contents have grown by the octets;
-- where it threw, more may have been written directly, and what has been is a beginning of the
-- contents and the octets.
abbrev pub Wrote : OctetWriter → List ℕ → Ending → Type 0
Wrote w octets (w', ok u) =
    IsWithin w' × (w'.capacity ≡ w.capacity) × (contents w' ≡ contents w ++ octets)
Wrote w octets (w', err e) =
    IsWithin w'
    × (w'.capacity ≡ w.capacity)
    × StartsWith (concat w'.blocks) (concat w.blocks)
    × StartsWith (contents w ++ octets) (concat w'.blocks)

concat-append :
    (blocks : List (List ℕ)) (block : List ℕ)
    → concat (blocks ++ (block ∷ [])) ≡ concat blocks ++ block
concat-append [] block = append-nil block
concat-append (b ∷ blocks) block =
    ap (λ t. b ++ t) (concat-append blocks block) ∙ sym (append_assoc b (concat blocks) block)

append_octets-Wrote :
    (w : OctetWriter) (octets : List ℕ)
    → length w.buffer + length octets ≤ w.capacity
    → Wrote w octets (append_octets w octets, ok tt)
unfolding append_octets
append_octets-Wrote w octets h = (
  omega (arith, length-append w.buffer octets),
  refl,
  sym (append_assoc (concat w.blocks) w.buffer octets),
)

-- A flush that returned left an empty buffer and the same contents; one that threw left the buffer as
-- it was, although it may have written a part of it.
abbrev pub Flushed : OctetWriter → Ending → Type 0
Flushed w (w', ok u) =
    (w'.buffer ≡ [])
    × (w'.capacity ≡ w.capacity)
    × (contents w' ≡ contents w)
    × StartsWith (concat w'.blocks) (concat w.blocks)
Flushed w (w', err e) =
    (w'.buffer ≡ w.buffer)
    × (w'.capacity ≡ w.capacity)
    × StartsWith (concat w'.blocks) (concat w.blocks)
    × StartsWith (contents w) (concat w'.blocks)

StartsWith-trans : (s t u : List ℕ) → StartsWith s t → StartsWith t u → StartsWith s u
StartsWith-trans s t u (more, e) (rest, f) =
    (rest ++ more, e ∙ ap (λ x. x ++ more) f ∙ append_assoc u rest more)

StartsWith-append : (s t u : List ℕ) → StartsWith s t → StartsWith (s ++ u) t
StartsWith-append s t u (rest, e) = (rest ++ u, ap (λ x. x ++ u) e ∙ append_assoc t rest u)

Wrote-trans :
    (w w' : OctetWriter) (octets : List ℕ) (m : Ending)
    → w'.capacity ≡ w.capacity
    → contents w' ≡ contents w
    → StartsWith (concat w'.blocks) (concat w.blocks)
    → Wrote w' octets m
    → Wrote w octets m
Wrote-trans w w' octets (v, ok u) c e s (h, k, l) = (h, k ∙ c, l ∙ ap (λ t. t ++ octets) e)
Wrote-trans w w' octets (v, err x) c e s (h, k, l, m) = (
  h,
  k ∙ c,
  StartsWith-trans _ _ _ l s,
  subst (λ t. StartsWith (t ++ octets) (concat v.blocks)) e m,
)

proceed-Wrote :
    (w : OctetWriter) (octets : List ℕ) (m : Ending) (k : OctetWriter → Ending)
    → IsWithin w
    → Flushed w m
    → ((w' : OctetWriter) → w'.buffer ≡ [] → Wrote w' octets (k w'))
    → Wrote w octets (proceed m k)
unfolding proceed
proceed-Wrote w octets (w', ok u) k within (empty, c, e, s) rest =
    Wrote-trans w w' octets (k w') c e s (rest w' empty)
proceed-Wrote w octets (w', err x) k within (same, c, s, t) rest =
    (rw (same, c) within, c, s, StartsWith-append _ _ octets t)

-- A part of a block that was begun.
begun :
    (w : OctetWriter) (octets : List ℕ) (count : ℕ)
    → StartsWith (concat (w.blocks ++ (take count octets ∷ []))) (concat w.blocks)
      × StartsWith (concat w.blocks ++ octets) (concat (w.blocks ++ (take count octets ∷ [])))
begun w octets count =
    let e = concat-append w.blocks (take count octets) in
    (
      (take count octets, e),
      (
        drop count octets,
        ap (λ x. concat w.blocks ++ x) (sym (take-append-drop count octets))
            ∙ sym (append_assoc (concat w.blocks) (take count octets) (drop count octets))
            ∙ ap (λ x. x ++ drop count octets) (sym e),
      ),
    )

store-Wrote :
    (w : OctetWriter) (octets : List ℕ) (r : Direct)
    → w.buffer ≡ []
    → Wrote w octets (store w octets r)
unfolding store
store-Wrote w octets (partial count e) empty =
    let (more, part) = begun w octets count in
    (rw (empty) (omega arith), refl, more, rw (empty, append-nil (concat w.blocks)) part)
store-Wrote w octets whole empty = (
  rw (empty) (omega arith),
  refl,
  rw (empty, concat-append w.blocks octets, append-nil (concat w.blocks))
      (append-nil (concat w.blocks ++ octets)),
)

store-Flushed :
    (w : OctetWriter) (r : Direct)
    → Flushed w (proceed (store w w.buffer r) λ w'. (record w' { buffer = [] }, ok tt))
unfolding store proceed
store-Flushed w (partial count e) =
    let (more, part) = begun w w.buffer count in (refl, refl, more, part)
store-Flushed w whole = (
  refl,
  refl,
  append-nil (concat (w.blocks ++ (w.buffer ∷ []))) ∙ concat-append w.blocks w.buffer,
  (w.buffer, concat-append w.blocks w.buffer),
)

module _ (write_direct : List (List ℕ) → List ℕ → Direct) where
  -- `flush` leaves an empty buffer and the same contents if it returns; if it throws it leaves the
  -- buffer, of which a beginning may have been written.
  pub flush-Flushed : (w : OctetWriter) → Flushed w (flush write_direct w)
  unfolding flush send
  flush-Flushed w =
      if-cases (Flushed w) (length w.buffer == 0) _ _
        (λ t. (
          length-nil w.buffer (test→eq _ _ t),
          refl,
          refl,
          ([], sym (append-nil (concat w.blocks))),
        ))
        λ _. store-Flushed w (write_direct w.blocks w.buffer)

  -- `write(buf, nbyte)`, whether the direct writes return or throw when they have written a part, of a
  -- block and with a buffer smaller than 2^63 octets, the buffer within its size before: it is not
  -- overrun; the contents grow by the octets if the operation returns; if it throws, what has been
  -- written directly is more than before, or the same, and a beginning of the contents and the octets.
  pub write_octets-Wrote :
      (w : OctetWriter) (octets : List ℕ)
      → IsWithin w
      → w.capacity < 2 ^ 63
      → length octets < 2 ^ 63
      → Wrote w octets (write_octets write_direct w octets)
  unfolding write_octets send
  write_octets-Wrote w octets within small short =
      if-cases (Wrote w octets) (leb (length octets) (w.capacity - length w.buffer)) _ _
        (λ t. append_octets-Wrote w octets (ground arith))
        λ _. proceed-Wrote w octets (flush write_direct w) _ within (flush-Flushed w) λ w' empty.
          if-cases (Wrote w' octets)
            (leb (w'.capacity - length w'.buffer) (length octets * 2 % 2 ^ 64)) _ _
            (λ _. store-Wrote w' octets (write_direct w'.blocks octets) empty)
            (λ t.
              let none_held : length w'.buffer ≡ 0 = rw (empty) refl in
              append_octets-Wrote w' octets (ground arith))
