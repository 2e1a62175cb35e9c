-- ===== src/Tests/Buffers.antt =====
-- A buffered writer and a buffered reader, at concrete buffers.
use libholmes_horace.Wire.Output
use libholmes_horace.Wire.Output.{OctetWriter}
use libholmes_horace.Wire.Input
use libholmes_horace.Wire.Input.{OctetReader}
use libholmes_horace.Common.{ℕ, min, ◌≡◌, refl, List, [], ◌∷◌, arith, length, bad_alloc, ok}

abbrev stop_at_one : List (List ℕ) → List ℕ → Output.Direct
stop_at_one blocks octets = Output.partial 1 bad_alloc

-- Two octets in a buffer of four.
abbrev half_full : OctetWriter
half_full = record { capacity = 4; buffer = 1 ∷ 2 ∷ []; blocks = [] }

write_octets-Wrote_example :
    Output.Contents.Wrote half_full
      (3 ∷ 4 ∷ 5 ∷ [])
      (Output.write_octets stop_at_one half_full (3 ∷ 4 ∷ 5 ∷ []))
write_octets-Wrote_example =
    Output.Contents.write_octets-Wrote stop_at_one half_full (3 ∷ 4 ∷ 5 ∷ []) (omega arith)
      (omega arith) (omega arith)

-- A source that delivers three octets at most at a time.
abbrev three_at_most : List ℕ → ℕ → ℕ
three_at_most s n = min 3 (min n (length s))

three_at_most-IsSource : Input.Contents.IsSource three_at_most
three_at_most-IsSource = record {
  within_source = λ s n. omega arith;
  within_request = λ s n. omega arith;
  delivers = λ s n some_there some_left. omega arith;
}

-- One octet in a buffer of eight, and seven to come.
abbrev one_buffered : OctetReader
one_buffered = record { size = 8; buffered = 1 ∷ []; source = 2 ∷ 3 ∷ 4 ∷ 5 ∷ 6 ∷ 7 ∷ 8 ∷ [] }

read_six :
    Input.read_octets three_at_most 6 one_buffered
    ≡ (record { size = 8; buffered = 7 ∷ []; source = 8 ∷ [] }, ok (1 ∷ 2 ∷ 3 ∷ 4 ∷ 5 ∷ 6 ∷ []))
unfolding Input.read_octets
read_six = refl

read_octets-Exactly_example :
    Input.Contents.Exactly 6 [] one_buffered (Input.read_octets three_at_most 6 one_buffered)
read_octets-Exactly_example =
    Input.Refines.read_octets-Exactly three_at_most three_at_most-IsSource 6 one_buffered
      (omega arith)
