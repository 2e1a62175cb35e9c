-- ===== src/Wire/Input/Refines.antt =====
-- The buffered reads of horace/octet_reader.{h,cc} are those of the plain stream.
use libholmes_horace.Common.{
  ℕ, zero, suc, ◌+◌, ◌-◌, ◌*◌, ◌%◌, ◌^◌, ◌≤◌, ◌<◌, min, ◌≡◌, refl, sym, ap, inl, inr, true, not,
  List, [], ◌∷◌, ◌++◌, append-nil, arith, leb, ◌==◌, if◌then◌else◌, Bool-cases, test→eq, if-cases,
  length, take, drop, length-append, take-append-drop, length-take_of_le, Result,
}
use libholmes_horace.Wire.Input.{
  contents, follow, round, read_loop, read_octets, OctetReader, Round, finished, out_of_octets,
  more,
}
use libholmes_horace.Wire.Input.Contents.{
  take-append_le, drop-append_le, Exactly-step, IsSource, Exactly, complete, ended,
}

-- An empty buffer costs a round.
flag : List ℕ → ℕ
flag [] = 1
flag (c ∷ s) = 0

flag-le : (s : List ℕ) → flag s ≤ 1
unfolding flag
flag-le [] = omega arith
flag-le (c ∷ s) = omega arith

flag-zero : (s : List ℕ) → 1 ≤ length s → flag s ≡ 0
unfolding flag
flag-zero [] h = absurd (omega arith)
flag-zero (c ∷ s) h = refl

-- The rounds that are still needed, at most.
rounds : ℕ → OctetReader → ℕ
rounds left r = 2 * left + flag r.buffered

-- A round reads some octets or fills the buffer, or it is the last one.
data Progress (left : ℕ) (got : List ℕ) (r : OctetReader) : Round → Type 0 where
  last : left ≡ 0 → Progress left got r finished
  nothing_left : length (contents r) < left → Progress left got r out_of_octets
  some_read :
      (k : ℕ) (r' : OctetReader) (got' : List ℕ) (left' : ℕ)
      → k ≤ left
      → k ≤ length (contents r)
      → contents r' ≡ drop k (contents r)
      → got' ≡ got ++ take k (contents r)
      → left' ≡ left - k
      → 1 ≤ r'.size
      → rounds left' r' < rounds left r
      → Progress left got r (more left' got' r')

-- What follows a round.
followed :
    (fuel left : ℕ) (got : List ℕ) (r : OctetReader) (p : Round)
    {next : ℕ → List ℕ → OctetReader → OctetReader × Result (List ℕ)}
    → rounds left r < suc fuel
    → Progress left got r p
    → ((left' : ℕ) (got' : List ℕ) (r' : OctetReader)
        → 1 ≤ r'.size
        → rounds left' r' < fuel
        → Exactly left' got' r' (next left' got' r'))
    → Exactly left got r (follow p got r next)
unfolding follow
followed fuel left got r _ enough (last e) h =
    complete r got (omega (arith, e)) (rw (e) refl) (rw (e) (sym (append-nil got)))
followed fuel left got r _ enough (nothing_left few) h = ended r few
followed fuel left got r _ enough (some_read k r' got' left' le fits e g l size fewer) h =
    Exactly-step left k got r r' _ le fits e
      (rw (sym g, sym l) (h left' got' r' size (omega (arith, enough, fewer))))

module _ (chunk : List ℕ → ℕ → ℕ) (source : IsSource chunk) where
  -- The rounds where the buffer is not empty, where it is passed by, and where it is filled.
  buffered-Progress :
      (left : ℕ) (got : List ℕ) (r : OctetReader)
      → 1 ≤ r.size
      → 1 ≤ left
      → 1 ≤ length r.buffered
      → (k : ℕ) → k ≡ min (length r.buffered) left
      → Progress left got r
          (more (left - k) (got ++ take k r.buffered) (record r { buffered = drop k r.buffered }))
  unfolding rounds
  buffered-Progress left got r size some_left some_there k e =
      let fits : k ≤ length r.buffered = omega (arith, e) in
      some_read k _ _ _ (omega (arith, e)) (omega (arith, fits, length-append r.buffered r.source))
        (sym (drop-append_le k r.buffered r.source fits))
        (ap (λ x. got ++ x) (sym (take-append_le k r.buffered r.source fits))) refl size
        (omega (
          arith,
          e,
          flag-le (drop k r.buffered),
          flag-zero r.buffered some_there,
          some_left,
          some_there,
        ))

  none_there : (s : List ℕ) (n : ℕ) → 1 ≤ n → (chunk s n == 0) ≡ true → length s ≡ 0
  none_there s n some_left t = elim (Bool-cases (length s == 0)) [
    | inl z ↦ test→eq (length s) 0 z
    | inr z ↦
        let d = source.delivers s n (ground (arith, z)) some_left in
        let k = test→eq (chunk s n) 0 t in absurd (omega (arith, d, k))
  ]

  direct-Progress :
      (left : ℕ) (got : List ℕ) (size : ℕ) (s : List ℕ)
      → 1 ≤ size
      → 1 ≤ left
      → Progress left got
          (record { size = size; buffered = []; source = s })
          (let k = chunk s left in
            if k == 0
            then out_of_octets
            else more
                (left - k)
                (got ++ take k s)
                (record { size = size; buffered = []; source = drop k s }))
  unfolding rounds
  direct-Progress left got size s some_size some_left =
      if-cases (Progress left got (record { size = size; buffered = []; source = s }))
        (chunk s left == 0) _ _
        (λ t. nothing_left (omega (arith, none_there s left some_left t, some_left)))
        (λ t.
          let k_pos : 1 ≤ chunk s left = ground (arith, t) in
          some_read (chunk s left) _ _ _ (source.within_request s left)
            (source.within_source s left) refl refl refl some_size
            (omega (arith, k_pos, some_left, source.within_request s left)))

  refill-Progress :
      (left : ℕ) (got : List ℕ) (size : ℕ) (s : List ℕ)
      → 1 ≤ size
      → 1 ≤ left
      → Progress left got
          (record { size = size; buffered = []; source = s })
          (let k = chunk s size in
            if k == 0
            then out_of_octets
            else more left got (record { size = size; buffered = take k s; source = drop k s }))
  unfolding rounds flag
  refill-Progress left got size s some_size some_left =
      if-cases (Progress left got (record { size = size; buffered = []; source = s }))
        (chunk s size == 0) _ _
        (λ t. nothing_left (omega (arith, none_there s size some_size t, some_left)))
        (λ t.
          let k_pos : 1 ≤ chunk s size = ground (arith, t) in
          let there : length (take (chunk s size) s) ≡ chunk s size =
            length-take_of_le (chunk s size) s (source.within_source s size) in
          some_read 0 _ _ _ (omega arith) (omega arith) (take-append-drop (chunk s size) s)
            (sym (append-nil got)) (omega arith) some_size
            (omega (arith, flag-zero (take (chunk s size) s) (omega (arith, there, k_pos)))))

  round-Progress :
      (left : ℕ) (got : List ℕ) (size : ℕ) (b s : List ℕ)
      → 1 ≤ size
      → Progress left got
          (record { size = size; buffered = b; source = s })
          (round chunk left got (record { size = size; buffered = b; source = s }))
  unfolding round
  round-Progress left got size (c ∷ b) s some_size =
      if-cases (Progress left got (record { size = size; buffered = c ∷ b; source = s }))
        (left == 0) _ _ (λ t. last (test→eq left 0 t))
        (λ t.
          if-cases (Progress left got (record { size = size; buffered = c ∷ b; source = s }))
            (not (suc (length b) == 0)) _ _
            (λ d.
              buffered-Progress left got (record { size = size; buffered = c ∷ b; source = s })
                some_size (ground (arith, t)) (omega arith) _ refl)
            (λ d. absurd (ground (arith, d))))
  round-Progress left got size [] s some_size =
      if-cases (Progress left got (record { size = size; buffered = []; source = s })) (left == 0) _
        _ (λ t. last (test→eq left 0 t))
        (λ t.
          if-cases (Progress left got (record { size = size; buffered = []; source = s }))
            (leb size (left * 2 % 2 ^ 64)) _ _
            (λ d. direct-Progress left got size s some_size (ground (arith, t)))
            (λ d. refill-Progress left got size s some_size (ground (arith, t))))

  read_loop-Exactly :
      (fuel left : ℕ) (got : List ℕ) (r : OctetReader)
      → 1 ≤ r.size
      → rounds left r < fuel
      → Exactly left got r (read_loop chunk fuel left got r)
  unfolding read_loop
  read_loop-Exactly zero left got r size enough = absurd (omega (arith, enough))
  read_loop-Exactly (suc fuel) left got r size enough =
      followed fuel left got r (round chunk left got r) enough
        (round-Progress left got r.size r.buffered r.source size)
        (λ left' got' r' size' enough'. read_loop-Exactly fuel left' got' r' size' enough')

  -- Reading any number of octets through the buffer gives what the plain stream gives, whatever the
  -- size of the chunks that the source delivers: the next octets, which are taken from the contents,
  -- or an end of file where there are not so many; the loop ends.
  pub read_octets-Exactly :
      (n : ℕ) (r : OctetReader) → 1 ≤ r.size → Exactly n [] r (read_octets chunk n r)
  unfolding read_octets rounds
  read_octets-Exactly n r size =
      if-cases (Exactly n [] r) (leb n (length r.buffered)) _ _
        (λ t.
          let fits : n ≤ length r.buffered = ground (arith, t) in
          complete _ _ (omega (arith, fits, length-append r.buffered r.source))
            (sym (drop-append_le n r.buffered r.source fits))
            (sym (take-append_le n r.buffered r.source fits)))
        (λ t. read_loop-Exactly (2 * n + 2) n [] r size (omega (arith, flag-le r.buffered)))
