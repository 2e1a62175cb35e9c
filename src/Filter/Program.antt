-- ===== src/Filter/Program.antt =====
-- What the compiled program of horace/address_filter.cc does with a frame.
use libholmes_horace.Common.{
  ℕ, suc, ◌+◌, ◌*◌, ◌%◌, ◌^◌, ◌≤◌, ◌<◌, ◌≡◌, refl, sym, ◌∙◌, inl, inr, false, ◌||◌, List, [], ◌∷◌,
  ◌++◌, arith, ltb, ◌==◌, if◌then◌else◌, Bool-cases, test→eq, length, drop, All, ok,
}
use libholmes_horace.Netblock.Inet4.{Inet4Netblock}
use libholmes_horace.Netblock.Inet6.{Inet6Netblock}
use libholmes_horace.Filter.{
  instruction, accept, extra_count, inet4_count, test_all_inet4, program, compile_filter,
  Instruction, load_half, jump_equal, return_constant,
}
use libholmes_horace.Filter.Machine.{PacketFilter}
use libholmes_horace.Filter.Verdict.{
  any_inet4, any_inet6, or_chain, IsLength4, test_all_inet4-exec, words_at, test_all_inet6-exec,
}
use libholmes_horace.Filter.Size.{length-test_all_inet4, extra_count-le, compiled_parts}

-- What becomes of a frame: it is kept out when it is an IPv4 or IPv6 frame of which the source or the
-- destination address is in one of the netblocks.
unfoldable pub verdict : PacketFilter → List Inet4Netblock → List Inet6Netblock → ℕ
verdict m inet4 inet6 =
    if m.half 12 == 0x0800
    then if any_inet4 inet4 (m.word 26) || any_inet4 inet4 (m.word 30) then 0 else accept
    else if m.half 12 == 0x86dd
    then if any_inet6 inet6 (words_at m 22) || any_inet6 inet6 (words_at m 38) then 0 else accept
    else accept

drop-append : (xs ys : List Instruction) (n : ℕ) → drop (length xs + n) (xs ++ ys) ≡ drop n ys
drop-append [] ys n = let e : 0 + n ≡ n = omega arith in rw (e) refl
drop-append (x ∷ xs) ys n =
    let e : suc (length xs) + n ≡ suc (length xs + n) = omega arith in rw (e) (drop-append xs ys n)

-- The jump to the tests of IPv6 addresses leads past those of IPv4 addresses.
skip_inet4 :
    (inet4 : List Inet4Netblock) (rest : List Instruction)
    → length inet4 < 2 ^ 28
    → ltb 0xff ((1 + inet4_count inet4) % 2 ^ 32) ≡ false
    → drop ((1 + inet4_count inet4) % 2 ^ 8) (
        instruction return_constant 0 0 accept
        ∷ (test_all_inet4 26 inet4
            ++ (test_all_inet4 30 inet4 ++ (instruction return_constant 0 0 accept ∷ rest))))
      ≡ rest
skip_inet4 inet4 rest small t =
    let few : (1 + inet4_count inet4) % 2 ^ 32 ≤ 255 = ground (arith, t) in
    let count : inet4_count inet4 ≡ (length inet4 * 6 + 1 + extra_count inet4) % 2 ^ 32 =
      (unfold inet4_count in refl) in
    let a = length-test_all_inet4 26 inet4 in
    let b = length-test_all_inet4 30 inet4 in
    let e : (1 + inet4_count inet4) % 2 ^ 8
        ≡ suc (length (test_all_inet4 26 inet4) + (length (test_all_inet4 30 inet4) + 1)) =
      omega (arith, few, count, a, b, extra_count-le inet4, small) in
    rw (e) (
      drop-append (test_all_inet4 26 inet4) _ (length (test_all_inet4 30 inet4) + 1)
      ∙ drop-append (test_all_inet4 30 inet4) _ 1)

-- The first four instructions, which look at the type of the frame: `frame4` is run for IPv4, and
-- `frame6` for IPv6.
dispatch :
    (m : PacketFilter) (jump : ℕ) (frame4 frame6 : List Instruction) (a u v : ℕ)
    → 14 ≤ m.size
    → drop jump (instruction return_constant 0 0 accept ∷ frame4) ≡ frame6
    → (m.half 12 ≡ 0x0800 → (b : ℕ) → m.exec frame4 b ≡ u)
    → (m.half 12 ≡ 0x86dd → (b : ℕ) → m.exec frame6 b ≡ v)
    → m.exec
        (instruction load_half 0 0 12
          ∷ instruction jump_equal 2 0 0x0800
          ∷ instruction jump_equal jump 0 0x86dd
          ∷ instruction return_constant 0 0 accept
          ∷ frame4)
        a
      ≡ (if m.half 12 == 0x0800 then u else if m.half 12 == 0x86dd then v else accept)
dispatch m jump frame4 frame6 a u v fits e h k =
    m.exec_load_half 12 _ a fits
    ∙ (m.exec_jump 2 0 0x0800 _ (m.half 12) ∙ elim (Bool-cases (m.half 12 == 0x0800)) [
      | inl t ↦ rw (t) (h (test→eq (m.half 12) 0x0800 t) (m.half 12))
      | inr t ↦ rw (t) (
          m.exec_jump jump 0 0x86dd _ (m.half 12) ∙ elim (Bool-cases (m.half 12 == 0x86dd)) [
            | inl s ↦ rw (s, e) (k (test→eq (m.half 12) 0x86dd s) (m.half 12))
            | inr s ↦ rw (s) (m.exec_return accept frame4 (m.half 12))
          ])
    ])

-- The program that is compiled keeps out just the frames that it is meant to keep out: those of IPv4
-- and IPv6 of which the source or the destination address is in one of the netblocks, where a
-- netblock contains the addresses with its prefix, provided that its own bits past the prefix are
-- zero. The frame is long enough for the header of its type. The IPv4 netblocks are fewer than 2^28,
-- and the IPv6 netblocks no more than 2510.
pub exec-compile_filter :
    (m : PacketFilter) (inet4 : List Inet4Netblock) (inet6 : List Inet6Netblock)
    (code : List Instruction) (a : ℕ)
    → All IsLength4 inet4
    → length inet4 < 2 ^ 28
    → length inet6 ≤ 2510
    → 14 ≤ m.size
    → (m.half 12 ≡ 0x0800 → 34 ≤ m.size)
    → (m.half 12 ≡ 0x86dd → 54 ≤ m.size)
    → compile_filter inet4 inet6 ≡ ok code
    → m.exec code a ≡ verdict m inet4 inet6
unfolding program verdict
exec-compile_filter m inet4 inet6 code a lengths small small6 fits fits4 fits6 compiled =
    let (few, same) = compiled_parts inet4 inet6 code small small6 compiled in
    rw (sym same) (
      dispatch m ((1 + inet4_count inet4) % 2 ^ 8) _ _ a
        (if any_inet4 inet4 (m.word 26) || any_inet4 inet4 (m.word 30) then 0 else accept)
        (if any_inet6 inet6 (words_at m 22) || any_inet6 inet6 (words_at m 38) then 0 else accept)
        fits (skip_inet4 inet4 _ small few)
        (λ is4 b.
          let long = fits4 is4 in
          test_all_inet4-exec m 26 inet4 _ _ (omega arith) lengths
            (test_all_inet4-exec m 30 inet4 _ accept (omega arith) lengths
              (λ c. m.exec_return accept _ c))
            b
          ∙ or_chain (any_inet4 inet4 (m.word 26)) (any_inet4 inet4 (m.word 30)) accept)
        (λ is6 b.
          let long = fits6 is6 in
          test_all_inet6-exec m 22 inet6 _ _ (omega arith)
            (test_all_inet6-exec m 38 inet6 _ accept (omega arith) (λ c. m.exec_return accept _ c))
            b
          ∙ or_chain (any_inet6 inet6 (words_at m 22)) (any_inet6 inet6 (words_at m 38)) accept))
