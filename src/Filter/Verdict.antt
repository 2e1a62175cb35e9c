-- ===== src/Filter/Verdict.antt =====
-- What the programs of horace/address_filter.cc do with a frame.
use libholmes_horace.Common.{
  ℕ, ◌+◌, ◌-◌, ◌*◌, ◌/◌, ◌%◌, ◌^◌, ◌≤◌, ◌<◌, bit_and, ◌≡◌, refl, sym, ap, ◌∙◌, inl, inr, Bool, true,
  false, ◌&&◌, ◌||◌, List, [], ◌∷◌, ◌++◌, append_assoc, arith, ◌==◌, if◌then◌else◌, Bool-cases,
  test→eq, drop, All,
}
use libholmes_horace.Netblock.Inet4.{Inet4Netblock}
use libholmes_horace.Netblock.Inet6.{Inet6Netblock}
use libholmes_horace.Filter.{
  instruction, negated_shift, ipv6_mask, network_word, test_inet4, test_all_inet4, test_word,
  test_inet6, test_all_inet6, Instruction, and_constant, jump_equal, return_constant,
}
use libholmes_horace.Filter.Machine.{PacketFilter}
use libholmes_horace.Filter.Mask.{
  and-negated_shift, host_bits, host_bits-le, ipv6_mask-eq, has_prefix, masked_test,
}

-- Some netblock has the IPv4 address.
unfoldable pub any_inet4 : List Inet4Netblock → ℕ → Bool
any_inet4 [] w = false
any_inet4 (nb ∷ nbs) w =
    has_prefix (32 - nb.prefix_length) (network_word nb.prefix) w || any_inet4 nbs w

-- A word of an IPv6 address has its part of the prefix.
unfoldable pub part_inet6 : Inet6Netblock → ℕ → ℕ → Bool
part_inet6 nb i w =
    has_prefix (host_bits (i * 32) nb.prefix_length) (network_word (drop (i * 4) nb.prefix)) w

-- The netblock has the IPv6 address whose word number `i` is `address i`.
unfoldable pub has_inet6 : Inet6Netblock → (ℕ → ℕ) → Bool
has_inet6 nb address =
    part_inet6 nb 0 (address 0)
    && (part_inet6 nb 1 (address 1) && (part_inet6 nb 2 (address 2) && part_inet6 nb 3 (address 3)))

unfoldable pub any_inet6 : List Inet6Netblock → (ℕ → ℕ) → Bool
any_inet6 [] address = false
any_inet6 (nb ∷ nbs) address = has_inet6 nb address || any_inet6 nbs address

abbrev mask_of : ℕ → List Instruction
mask_of len = if len == 32 then [] else instruction and_constant 0 0 (negated_shift (32 - len)) ∷ []

pub or_chain :
    (b c : Bool) (v : ℕ) → (if b then 0 else if c then 0 else v) ≡ (if b || c then 0 else v)
or_chain true c v = refl
or_chain false c v = refl

abbrev pub IsLength4 : Inet4Netblock → Type 0
IsLength4 nb = nb.prefix_length ≤ 32

module _ (m : PacketFilter) where
  mask_step :
      (len w : ℕ) (rest : List Instruction)
      → len ≤ 32
      → w < 2 ^ 32
      → m.exec
          ((if len == 32 then [] else instruction and_constant 0 0 (negated_shift (32 - len)) ∷ [])
            ++ rest)
          w
        ≡ m.exec rest (w / 2 ^ (32 - len) * 2 ^ (32 - len))
  mask_step len w rest le small = elim (Bool-cases (len == 32)) [
    | inl t ↦
        let e : 32 - len ≡ 0 = omega (arith, test→eq len 32 t) in
        let same : w / 2 ^ 0 * 2 ^ 0 ≡ w = omega arith in
        rw (t, e) (ap (λ v. m.exec rest v) (sym same))
    | inr t ↦ rw (t) (
        m.exec_and (negated_shift (32 - len)) rest w
        ∙ ap (λ v. m.exec rest v) (and-negated_shift (32 - len) w (omega arith) small))
  ]

  -- A test that ends in `return 0` when it succeeds, and is left for `rest` when it fails.
  reject_or :
      (b : Bool) (rest : List Instruction) (a : ℕ)
      → m.exec (drop (if b then 0 else 1) (instruction return_constant 0 0 0 ∷ rest)) a
        ≡ (if b then 0 else m.exec rest a)
  reject_or true rest a = m.exec_return 0 rest a
  reject_or false rest a = refl

  test_inet4-exec :
      (k : ℕ) (nb : Inet4Netblock) (rest : List Instruction) (a : ℕ)
      → k + 4 ≤ m.size
      → nb.prefix_length ≤ 32
      → m.exec (test_inet4 k nb ++ rest) a ≡ (
          if has_prefix (32 - nb.prefix_length) (network_word nb.prefix) (m.word k)
          then 0
          else m.exec rest (m.word k / 2 ^ (32 - nb.prefix_length) * 2 ^ (32 - nb.prefix_length)))
  unfolding test_inet4
  test_inet4-exec k nb rest a fits le =
      m.exec_load_word k _ a fits
      ∙ (ap (λ p. m.exec p (m.word k))
            (append_assoc (mask_of nb.prefix_length)
              (instruction jump_equal 0 1 (network_word nb.prefix)
                ∷ instruction return_constant 0 0 0
                ∷ [])
              rest)
          ∙ (mask_step nb.prefix_length (m.word k)
                (instruction jump_equal 0 1 (network_word nb.prefix)
                  ∷ instruction return_constant 0 0 0
                  ∷ rest)
                le (m.word_lt k)
              ∙ (m.exec_jump 0 1 (network_word nb.prefix) (instruction return_constant 0 0 0 ∷ rest)
                    (m.word k / 2 ^ (32 - nb.prefix_length) * 2 ^ (32 - nb.prefix_length))
                  ∙ rw (masked_test (32 - nb.prefix_length) (network_word nb.prefix) (m.word k)) (
                      reject_or
                        (has_prefix (32 - nb.prefix_length) (network_word nb.prefix) (m.word k))
                        rest
                        (m.word k / 2 ^ (32 - nb.prefix_length) * 2 ^ (32 - nb.prefix_length))))))

  -- The tests of one address for all the IPv4 netblocks; `rest` returns `v` whatever they leave in
  -- the accumulator.
  pub test_all_inet4-exec :
      (k : ℕ) (nbs : List Inet4Netblock) (rest : List Instruction) (v : ℕ)
      → k + 4 ≤ m.size
      → All IsLength4 nbs
      → ((a : ℕ) → m.exec rest a ≡ v)
      → (a : ℕ)
      → m.exec (test_all_inet4 k nbs ++ rest) a ≡ (if any_inet4 nbs (m.word k) then 0 else v)
  unfolding test_all_inet4 any_inet4
  test_all_inet4-exec k [] rest v fits le h a = h a
  test_all_inet4-exec k (nb ∷ nbs) rest v fits le h a =
      ap (λ p. m.exec p a) (append_assoc (test_inet4 k nb) (test_all_inet4 k nbs) rest)
      ∙ (test_inet4-exec k nb (test_all_inet4 k nbs ++ rest) a fits le.0
          ∙ rw
              (test_all_inet4-exec k nbs rest v fits le.1 h
                (m.word k / 2 ^ (32 - nb.prefix_length) * 2 ^ (32 - nb.prefix_length)))
              (or_chain (has_prefix (32 - nb.prefix_length) (network_word nb.prefix) (m.word k))
                (any_inet4 nbs (m.word k)) v))

  -- One word of the test of an IPv6 address: a word that differs leads past `skipped`.
  test_word-exec :
      (k : ℕ) (nb : Inet6Netblock) (i : ℕ) (rest : List Instruction) (a : ℕ)
      → k + i * 4 + 4 ≤ m.size
      → (test : Bool) → part_inet6 nb i (m.word (k + i * 4)) ≡ test
      → (masked : ℕ)
      → masked
        ≡ m.word (k + i * 4)
          / 2 ^ host_bits (i * 32) nb.prefix_length
          * 2 ^ host_bits (i * 32) nb.prefix_length
      → m.exec (test_word k nb i ++ rest) a
        ≡ m.exec (drop (if test then 0 else (10 - 3 * i) % 2 ^ 8) rest) masked
  unfolding test_word part_inet6
  test_word-exec k nb i rest a fits test e masked f =
      let bits : ℕ = host_bits (i * 32) nb.prefix_length in
      let prefix : ℕ = network_word (drop (i * 4) nb.prefix) in
      let w : ℕ = m.word (k + i * 4) in
      let mask : bit_and w (ipv6_mask (i * 32) nb.prefix_length) ≡ masked =
        rw (ipv6_mask-eq (i * 32) nb.prefix_length, f)
          (and-negated_shift bits w (host_bits-le (i * 32) nb.prefix_length)
            (m.word_lt (k + i * 4))) in
      let same : (masked == prefix) ≡ test = rw (f) (masked_test bits prefix w ∙ e) in
      m.exec_load_word (k + i * 4) _ a fits
      ∙ (m.exec_and (ipv6_mask (i * 32) nb.prefix_length) _ w
          ∙ rw (mask) (m.exec_jump 0 ((10 - 3 * i) % 2 ^ 8) prefix rest masked ∙ rw (same) refl))

  test_inet6_chain :
      (k : ℕ) (nb : Inet6Netblock) (rest : List Instruction) (v : ℕ)
      → k + 16 ≤ m.size
      → ((a : ℕ) → m.exec rest a ≡ v)
      → (b0 b1 b2 b3 : Bool) → part_inet6 nb 0 (m.word (k + 0 * 4)) ≡ b0
      → part_inet6 nb 1 (m.word (k + 1 * 4)) ≡ b1
      → part_inet6 nb 2 (m.word (k + 2 * 4)) ≡ b2
      → part_inet6 nb 3 (m.word (k + 3 * 4)) ≡ b3
      → (a : ℕ)
      → m.exec
          (test_word k nb 0
            ++ (test_word k nb 1
                ++ (test_word k nb 2
                    ++ (test_word k nb 3 ++ (instruction return_constant 0 0 0 ∷ rest)))))
          a
        ≡ (if b0 && (b1 && (b2 && b3)) then 0 else v)
  unfolding test_word
  test_inet6_chain k nb rest v fits h false b1 b2 b3 e0 e1 e2 e3 a =
      test_word-exec k nb 0 _ a (omega arith) false e0 _ refl ∙ h _
  test_inet6_chain k nb rest v fits h true false b2 b3 e0 e1 e2 e3 a =
      test_word-exec k nb 0 _ a (omega arith) true e0 _ refl
      ∙ (test_word-exec k nb 1 _ _ (omega arith) false e1 _ refl ∙ h _)
  test_inet6_chain k nb rest v fits h true true false b3 e0 e1 e2 e3 a =
      test_word-exec k nb 0 _ a (omega arith) true e0 _ refl
      ∙ (test_word-exec k nb 1 _ _ (omega arith) true e1 _ refl
          ∙ (test_word-exec k nb 2 _ _ (omega arith) false e2 _ refl ∙ h _))
  test_inet6_chain k nb rest v fits h true true true false e0 e1 e2 e3 a =
      test_word-exec k nb 0 _ a (omega arith) true e0 _ refl
      ∙ (test_word-exec k nb 1 _ _ (omega arith) true e1 _ refl
          ∙ (test_word-exec k nb 2 _ _ (omega arith) true e2 _ refl
              ∙ (test_word-exec k nb 3 _ _ (omega arith) false e3 _ refl ∙ h _)))
  test_inet6_chain k nb rest v fits h true true true true e0 e1 e2 e3 a =
      test_word-exec k nb 0 _ a (omega arith) true e0 _ refl
      ∙ (test_word-exec k nb 1 _ _ (omega arith) true e1 _ refl
          ∙ (test_word-exec k nb 2 _ _ (omega arith) true e2 _ refl
              ∙ (test_word-exec k nb 3 _ _ (omega arith) true e3 _ refl ∙ m.exec_return 0 rest _)))

  -- The four words of the address at the offset `k`.
  abbrev pub words_at : ℕ → ℕ → ℕ
  words_at k i = m.word (k + i * 4)

  test_inet6-exec :
      (k : ℕ) (nb : Inet6Netblock) (rest : List Instruction) (v : ℕ)
      → k + 16 ≤ m.size
      → ((a : ℕ) → m.exec rest a ≡ v)
      → (a : ℕ) → m.exec (test_inet6 k nb ++ rest) a ≡ (if has_inet6 nb (words_at k) then 0 else v)
  unfolding test_inet6 has_inet6
  test_inet6-exec k nb rest v fits h a =
      simp (append_assoc) (test_inet6_chain k nb rest v fits h _ _ _ _ refl refl refl refl a)

  pub test_all_inet6-exec :
      (k : ℕ) (nbs : List Inet6Netblock) (rest : List Instruction) (v : ℕ)
      → k + 16 ≤ m.size
      → ((a : ℕ) → m.exec rest a ≡ v)
      → (a : ℕ)
      → m.exec (test_all_inet6 k nbs ++ rest) a ≡ (if any_inet6 nbs (words_at k) then 0 else v)
  unfolding test_all_inet6 any_inet6
  test_all_inet6-exec k [] rest v fits h a = h a
  test_all_inet6-exec k (nb ∷ nbs) rest v fits h a =
      ap (λ p. m.exec p a) (append_assoc (test_inet6 k nb) (test_all_inet6 k nbs) rest)
      ∙ (test_inet6-exec k nb (test_all_inet6 k nbs ++ rest)
            (if any_inet6 nbs (words_at k) then 0 else v) fits
            (test_all_inet6-exec k nbs rest v fits h) a
          ∙ or_chain (has_inet6 nb (words_at k)) (any_inet6 nbs (words_at k)) v)
