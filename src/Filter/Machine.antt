-- ===== src/Filter/Machine.antt =====
-- The packet filter of the kernel, as far as the programs of horace/address_filter.cc use it. The
-- kernel is not part of the program: its documented behaviour is a parameter.
use libholmes_horace.Common.{
  ℕ, ◌+◌, ◌^◌, ◌≤◌, ◌<◌, bit_and, ◌≡◌, List, ◌∷◌, ◌==◌, if◌then◌else◌, drop,
}
use libholmes_horace.Filter.{
  instruction, Instruction, load_half, load_word, and_constant, jump_equal, return_constant,
}

-- A frame of `size` octets, with the big-endian half words and words at its offsets, and the
-- result of running instructions on it with a value of the accumulator.
pub record PacketFilter : Type 0 where
  pub size : ℕ
  pub half : ℕ → ℕ
  pub word : ℕ → ℕ
  pub word_lt : (k : ℕ) → word k < 2 ^ 32
  pub exec : List Instruction → ℕ → ℕ
  pub exec_load_half :
      (k : ℕ) (rest : List Instruction) (a : ℕ)
      → k + 2 ≤ size
      → exec (instruction load_half 0 0 k ∷ rest) a ≡ exec rest (half k)
  pub exec_load_word :
      (k : ℕ) (rest : List Instruction) (a : ℕ)
      → k + 4 ≤ size
      → exec (instruction load_word 0 0 k ∷ rest) a ≡ exec rest (word k)
  pub exec_and :
      (k : ℕ) (rest : List Instruction) (a : ℕ)
      → exec (instruction and_constant 0 0 k ∷ rest) a ≡ exec rest (bit_and a k)
  pub exec_jump :
      (jt jf k : ℕ) (rest : List Instruction) (a : ℕ)
      → exec (instruction jump_equal jt jf k ∷ rest) a
        ≡ exec (drop (if a == k then jt else jf) rest) a
  pub exec_return :
      (k : ℕ) (rest : List Instruction) (a : ℕ)
      → exec (instruction return_constant 0 0 k ∷ rest) a ≡ k
