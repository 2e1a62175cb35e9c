-- ===== src/Filter.antt =====
-- horace/address_filter.{h,cc}: the filter that keeps out frames of given netblocks, and the program
-- for the packet filter of the kernel that it is compiled to.
pub mod Machine
pub mod Mask
pub mod Verdict
pub mod Size
pub mod Program
pub mod Additions
use libholmes_horace.Common.{
  ℕ, ◌+◌, ◌-◌, ◌*◌, ◌%◌, ◌^◌, Bool, true, false, List, [], ◌∷◌, ◌++◌, ltb, leb, ◌==◌, if◌then◌else◌,
  length, take, drop, throw_if, ◌>>=◌, ◌>>◌, undefined_behaviour, invalid_argument, Result, ok,
}
use libholmes_horace.Netblock.Inet4.{Inet4Netblock}
use libholmes_horace.Netblock.Inet6.{Inet6Netblock}

-- The `code` of a `sock_filter`: `BPF_LD | BPF_H | BPF_ABS`, `BPF_LD | BPF_W | BPF_ABS`,
-- `BPF_ALU | BPF_AND | BPF_K`, `BPF_JMP | BPF_K | BPF_JEQ` and `BPF_RET`.
pub data Code : Type 0 where
  load_half load_word and_constant jump_equal return_constant : Code

-- `sock_filter`
pub record Instruction : Type 0 where
  pub code : Code
  pub jt : ℕ
  pub jf : ℕ
  pub k : ℕ

abbrev pub instruction : Code → ℕ → ℕ → ℕ → Instruction
instruction code jt jf k = record { code = code; jt = jt; jf = jf; k = k }

abbrev pub accept : ℕ
accept = 0xffffffff

-- `-(1UL << count)`, where a `uint32_t` is wanted.
unfoldable pub negated_shift : ℕ → ℕ
negated_shift count = (2 ^ 64 - 2 ^ count) % 2 ^ 32

unfoldable pub ipv6_mask : ℕ → ℕ → ℕ
unfolding negated_shift
ipv6_mask index prefix_length =
    if leb prefix_length index
    then 0
    else if leb (index + 32) prefix_length
    then 0xffffffff
    else negated_shift (index + 32 - prefix_length)

-- `htonl` of the four octets that are read as a `uint32_t`, on a machine of either byte order.
unfoldable pub network_word : List ℕ → ℕ
network_word (a ∷ b ∷ c ∷ d ∷ rest) = ((a * 256 + b) * 256 + c) * 256 + d
network_word _ = 0

-- `inet4_count += 2` for a netblock that is not a single address.
unfoldable pub extra_count : List Inet4Netblock → ℕ
extra_count [] = 0
extra_count (nb ∷ nbs) = (if nb.prefix_length == 32 then 0 else 2) + extra_count nbs

unfoldable pub inet4_count : List Inet4Netblock → ℕ
inet4_count nbs = (length nbs * 6 + 1 + extra_count nbs) % 2 ^ 32

-- The test of the address at the offset `k` of an IPv4 frame, for one netblock.
unfoldable pub test_inet4 : ℕ → Inet4Netblock → List Instruction
test_inet4 k nb =
    instruction load_word 0 0 k
    ∷ ((if nb.prefix_length == 32
          then []
          else instruction and_constant 0 0 (negated_shift (32 - nb.prefix_length)) ∷ [])
        ++ (instruction jump_equal 0 1 (network_word nb.prefix)
            ∷ instruction return_constant 0 0 0
            ∷ []))

-- The loop over the IPv4 netblocks.
unfoldable pub test_all_inet4 : ℕ → List Inet4Netblock → List Instruction
test_all_inet4 k [] = []
test_all_inet4 k (nb ∷ nbs) = test_inet4 k nb ++ test_all_inet4 k nbs

-- One word of the test of an IPv6 address.
unfoldable pub test_word : ℕ → Inet6Netblock → ℕ → List Instruction
test_word k nb i =
    instruction load_word 0 0 (k + i * 4)
    ∷ instruction and_constant 0 0 (ipv6_mask (i * 32) nb.prefix_length)
    ∷ instruction jump_equal 0 ((10 - 3 * i) % 2 ^ 8) (network_word (drop (i * 4) nb.prefix))
    ∷ []

unfoldable pub test_inet6 : ℕ → Inet6Netblock → List Instruction
unfolding test_word
test_inet6 k nb =
    test_word k nb 0
    ++ (test_word k nb 1
        ++ (test_word k nb 2 ++ (test_word k nb 3 ++ (instruction return_constant 0 0 0 ∷ []))))

unfoldable pub test_all_inet6 : ℕ → List Inet6Netblock → List Instruction
test_all_inet6 k [] = []
test_all_inet6 k (nb ∷ nbs) = test_inet6 k nb ++ test_all_inet6 k nbs

-- The program, without its length check.
unfoldable pub program : List Inet4Netblock → List Inet6Netblock → List Instruction
program inet4 inet6 =
    instruction load_half 0 0 12
    ∷ instruction jump_equal 2 0 0x0800
    ∷ instruction jump_equal ((1 + inet4_count inet4) % 2 ^ 8) 0 0x86dd
    ∷ instruction return_constant 0 0 accept
    ∷ (test_all_inet4 26 inet4
        ++ (test_all_inet4 30 inet4
            ++ (instruction return_constant 0 0 accept
                ∷ (test_all_inet6 22 inet6
                    ++ (test_all_inet6 38 inet6
                        ++ (instruction return_constant 0 0 accept ∷ []))))))

unfoldable pub inet6_count : List Inet6Netblock → ℕ
inet6_count nbs = (length nbs * 26 + 1) % 2 ^ 32

-- The number of instructions that the array is allocated with.
unfoldable pub total_count : List Inet4Netblock → List Inet6Netblock → ℕ
unfolding inet4_count inet6_count
total_count inet4 inet6 = (4 + inet4_count inet4 + inet6_count inet6) % 2 ^ 32

-- `_compile`. An instruction past the end of the array is undefined. The `len` of the program is an
-- unsigned short.
unfoldable pub compile_filter : List Inet4Netblock → List Inet6Netblock → Result (List Instruction)
unfolding inet4_count total_count program
compile_filter inet4 inet6 = do
  throw_if (ltb 0xff ((1 + inet4_count inet4) % 2 ^ 32))
      (invalid_argument "too many addresses in filter")
  let code = program inet4 inet6
  throw_if (ltb (total_count inet4 inet6) (length code)) undefined_behaviour
  ok (take (length code % 2 ^ 16) code)

-- The filter object; `compiled` is the program that `_fprog` refers to.
pub record AddressFilter : Type 0 where
  pub inet4_netblocks : List Inet4Netblock
  pub inet6_netblocks : List Inet6Netblock
  pub modified : Bool
  pub compiled : List Instruction

abbrev pub address_filter : AddressFilter
address_filter = record {
  inet4_netblocks = [];
  inet6_netblocks = [];
  modified = true;
  compiled = [];
}

unfoldable pub add_inet4 : Inet4Netblock → AddressFilter → AddressFilter
add_inet4 nb f = record f { inet4_netblocks = f.inet4_netblocks ++ (nb ∷ []) }

unfoldable pub add_inet6 : Inet6Netblock → AddressFilter → AddressFilter
add_inet6 nb f = record f { inet6_netblocks = f.inet6_netblocks ++ (nb ∷ []) }

unfoldable pub empty : AddressFilter → Bool
empty f = length f.inet4_netblocks == 0

-- The filter afterwards and its program.
unfoldable pub compile : AddressFilter → Result (AddressFilter × List Instruction)
unfolding compile_filter
compile f =
    if f.modified
    then (do
      code ← compile_filter f.inet4_netblocks f.inet6_netblocks
      ok (record f { modified = false; compiled = code }, code))
    else ok (f, f.compiled)
