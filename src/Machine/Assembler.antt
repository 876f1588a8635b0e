-- ===== src/Machine/Assembler.antt =====
-- The macros of bytecode.h that write a program into an array of bytes: `OP`, `OP_B`, `OP_B_B`,
-- `OP_IM`, `OP_IM_IM` and `OP_IM_B`.
pub mod Reads
pub mod Checked
mod Tests
use lilyvm.Base.{ℕ, ◌+◌, ◌/◌, ◌%◌, ◌^◌, List, [], ◌∷◌, length}
use lilyvm.Outcome.{Outcome, done, ◌>>=◌}
use lilyvm.Heap.{store_words}
use lilyvm.Machine.Op.{Op, opcode}

-- The array, and the place in it that `pc` points to.
pub record Program : Type 0 where
  pub code : List ℕ
  pub pc : ℕ

-- The bytes are stored one after the other, and `pc` goes behind them.
unfoldable pub emit : List ℕ → Program → Outcome Program
unfolding store_words
emit bytes program = do
  code ← store_words program.code program.pc bytes
  done (record { code = code; pc = program.pc + length bytes })

-- A number stored into a byte; `(v) & 255` and `(v) >> 8`.
abbrev pub byte : ℕ → ℕ
byte b = b % 2 ^ 8

abbrev pub high_byte : ℕ → ℕ
high_byte v = byte (v / 2 ^ 8)

unfoldable pub op : Op → Program → Outcome Program
unfolding emit opcode
op o = emit (opcode o ∷ [])

unfoldable pub op_b : Op → ℕ → Program → Outcome Program
unfolding emit opcode
op_b o a1 = emit (opcode o ∷ byte a1 ∷ [])

unfoldable pub op_b_b : Op → ℕ → ℕ → Program → Outcome Program
unfolding emit opcode
op_b_b o a1 a2 = emit (opcode o ∷ byte a1 ∷ byte a2 ∷ [])

unfoldable pub op_im : Op → ℕ → Program → Outcome Program
unfolding emit opcode
op_im o v = emit (opcode o ∷ byte v ∷ high_byte v ∷ [])

unfoldable pub op_im_im : Op → ℕ → ℕ → Program → Outcome Program
unfolding emit opcode
op_im_im o v1 v2 = emit (opcode o ∷ byte v1 ∷ high_byte v1 ∷ byte v2 ∷ high_byte v2 ∷ [])

unfoldable pub op_im_b : Op → ℕ → ℕ → Program → Outcome Program
unfolding emit opcode
op_im_b o im b = emit (opcode o ∷ byte im ∷ high_byte im ∷ byte b ∷ [])
