-- ===== src/Tests/Netblocks.antt =====
-- URIs, netblocks and filters, at concrete texts and frames.
use libholmes_horace.Uri
use libholmes_horace.Netblock
use libholmes_horace.Filter
use libholmes_horace.Filter.Machine.{PacketFilter}
use libholmes_horace.Netblock.Inet4.{Inet4Netblock}
use libholmes_horace.Common.Text.{octets_of}
use libholmes_horace.Filter.{
  Instruction, Code, load_half, load_word, and_constant, jump_equal, return_constant,
}
use libholmes_horace.Common.{
  ℕ, zero, suc, ◌^◌, ◌<◌, bit_and, ◌≡◌, refl, ◌↔◌, false, some, List, [], ◌∷◌, arith, ◌==◌,
  if◌then◌else◌, if-cases, drop, ok,
}

abbrev location : List ℕ
location = octets_of "tcp://host/a:b?x=1#top"

to_string-uri_example :
    (u : Uri.Uri) × (Uri.uri location ≡ ok u)
    × (Uri.to_string u ≡ location)
    × Uri.RoundTrip.IsSeparated u
to_string-uri_example = Uri.RoundTrip.to_string-uri location

abbrev private_network : Inet4Netblock
private_network = record { prefix = 10 ∷ 0 ∷ 0 ∷ 0 ∷ []; prefix_length = 8 }

inet4_netblock_iff_example :
    (Netblock.Inet4.inet4_netblock (octets_of "10.0.0.0/8") ≡ ok private_network)
    ↔ Netblock.Inet4.Exact.StandsFor (octets_of "10.0.0.0/8") private_network
inet4_netblock_iff_example =
    Netblock.Inet4.Complete.inet4_netblock_iff (octets_of "10.0.0.0/8") private_network

inet6_netblock-IsNetblock_example :
    Netblock.Checks.Checks Netblock.Inet6.Bounds.IsNetblock
      (Netblock.Inet6.inet6_netblock (octets_of "fe80::1.2.3.4/64"))
inet6_netblock-IsNetblock_example =
    Netblock.Inet6.Bounds.inet6_netblock-IsNetblock (octets_of "fe80::1.2.3.4/64")

abbrev link_local : List ℕ
link_local = 0xfe ∷ 0x80 ∷ 0 ∷ 0 ∷ 0 ∷ 0 ∷ 0 ∷ 0 ∷ 0 ∷ 0 ∷ 0 ∷ 0 ∷ 1 ∷ 2 ∷ 3 ∷ 4 ∷ []

inet6_dotted :
    Netblock.Inet6.inet6_netblock (octets_of "fe80::1.2.3.4/64")
    ≡ ok (record { prefix = link_local; prefix_length = 64 })
unfolding libholmes_horace.Netblock.Inet6.inet6_netblock libholmes_horace.Netblock.Inet6.read_hex
    octets_of libholmes_horace.Netblock.Inet6.dotted_end
    libholmes_horace.Netblock.Inet6.read_decimal libholmes_horace.Netblock.Inet6.decompress
    libholmes_horace.Netblock.Inet6.read_suffix libholmes_horace.Netblock.Inet6.read_length
inet6_dotted = refl

inet4_accepts : Netblock.Inet4.inet4_netblock (octets_of "10.0.0.0/8") ≡ ok private_network
unfolding libholmes_horace.Netblock.Inet4.inet4_netblock
    libholmes_horace.Netblock.Inet4.read_address octets_of
    libholmes_horace.Netblock.Inet4.read_suffix libholmes_horace.Netblock.Inet4.read_length
inet4_accepts = refl

uri_parts :
    Uri.uri location
    ≡ ok (record {
      scheme = some (octets_of "tcp");
      authority = some (octets_of "host");
      path = octets_of "/a:b";
      query = some (octets_of "x=1");
      fragment = some (octets_of "top");
    })
unfolding Uri.uri Uri.parse_scheme Uri.scheme_upto libholmes_horace.Common.Text.find_if octets_of
    libholmes_horace.Common.Text.substr Uri.parse_authority libholmes_horace.Common.Text.char_at
    Uri.component Uri.parse_path Uri.parse_query Uri.parse_fragment
uri_parts = refl

-- A frame of 60 octets: IPv4, from 10.1.2.3 to 8.8.8.8.
abbrev half_words : ℕ → ℕ
half_words k = 0x0800

abbrev words : ℕ → ℕ
words k = if k == 26 then 0x0a010203 else 0x08080808

-- An interpreter: the first argument counts the instructions that are still to be skipped.
step : (next : ℕ → ℕ) (skip : ℕ → ℕ → ℕ) (code : Code) (jt jf k a : ℕ) → ℕ
step next skip load_half jt jf k a = next (half_words k)
step next skip load_word jt jf k a = next (words k)
step next skip and_constant jt jf k a = next (bit_and a k)
step next skip jump_equal jt jf k a = skip (if a == k then jt else jf) a
step next skip return_constant jt jf k a = k

run : ℕ → List Instruction → ℕ → ℕ
run n [] a = 0
run (suc n) (i ∷ is) a = run n is a
run zero (i ∷ is) a = step (run zero is) (λ n. run n is) i.code i.jt i.jf i.k a

run-drop : (n : ℕ) (is : List Instruction) (a : ℕ) → run n is a ≡ run 0 (drop n is) a
unfolding run
run-drop zero is a = refl
run-drop (suc n) [] a = refl
run-drop (suc n) (i ∷ is) a = run-drop n is a

words_lt : (k : ℕ) → words k < 2 ^ 32
words_lt k = if-cases (λ w. w < 2 ^ 32) (k == 26) _ _ (λ t. omega arith) (λ t. omega arith)

frame : PacketFilter
unfolding run step
frame = record {
  size = 60;
  half = half_words;
  word = words;
  word_lt = words_lt;
  exec = run 0;
  exec_load_half = λ k rest a h. refl;
  exec_load_word = λ k rest a h. refl;
  exec_and = λ k rest a. refl;
  exec_jump = λ jt jf k rest a. run-drop (if a == k then jt else jf) rest a;
  exec_return = λ k rest a. refl;
}

abbrev private_program : List Instruction
private_program = Filter.program (private_network ∷ []) []

exec-compile_filter_example :
    frame.exec private_program 0 ≡ Filter.Program.verdict frame (private_network ∷ []) []
unfolding frame Filter.compile_filter Filter.extra_count Filter.inet4_count Filter.inet6_count
    Filter.total_count Filter.program Filter.test_all_inet4 Filter.test_inet4 Filter.test_all_inet6
    Filter.negated_shift Filter.network_word
exec-compile_filter_example =
    Filter.Program.exec-compile_filter frame (private_network ∷ []) [] private_program 0
      (omega arith, tt) (omega arith) (omega arith) (omega arith) (λ e. omega arith)
      (λ e. omega arith) refl

-- The frame of that network is kept out.
private_frame : Filter.Program.verdict frame (private_network ∷ []) [] ≡ 0
unfolding frame libholmes_horace.Filter.Program.verdict libholmes_horace.Filter.Verdict.any_inet4
    libholmes_horace.Filter.Mask.has_prefix Filter.network_word
private_frame = refl

abbrev compiled_filter : Filter.AddressFilter
compiled_filter = record {
  inet4_netblocks = [];
  inet6_netblocks = [];
  modified = false;
  compiled = Filter.program [] [];
}

compile-add_all_example :
    Filter.compile
      (Filter.Additions.add_all (Filter.Additions.inet4 private_network ∷ []) compiled_filter)
    ≡ ok (
      Filter.Additions.add_all (Filter.Additions.inet4 private_network ∷ []) compiled_filter,
      Filter.program [] [],
    )
unfolding Filter.compile Filter.extra_count Filter.test_all_inet4 Filter.test_all_inet6
compile-add_all_example =
    Filter.Additions.compile-add_all Filter.address_filter compiled_filter (Filter.program [] [])
      (Filter.Additions.inet4 private_network ∷ []) refl
