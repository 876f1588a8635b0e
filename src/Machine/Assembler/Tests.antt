-- ===== src/Machine/Assembler/Tests.antt =====
-- A counting loop in an array of twelve bytes.
use lilyvm.Base.{ℕ, ◌+◌, ◌<◌, ◌≡◌, ◌≢◌, arith, List, [], ◌∷◌, length, get_elem?, replicate}
use lilyvm.Outcome.{done}
use lilyvm.Machine.Op.{Op}
use lilyvm.Machine.Assembler.Reads.{
  Instruction, with_im, plain, with_b, assemble_all, Placed, assemble_all-Placed,
}

abbrev count_up : List Instruction
count_up = with_im Op.push_im 15 ∷ plain Op.inc ∷ with_b Op.jmp_rel8 253 ∷ []

push_im-valid : Op.push_im ≢ Op.invalid
push_im-valid e = cc

inc-valid : Op.inc ≢ Op.invalid
inc-valid e = cc

jmp_rel8-valid : Op.jmp_rel8 ≢ Op.invalid
jmp_rel8-valid e = cc

assemble_all-Placed_example :
    (code' : List ℕ) × (assemble_all count_up (record { code = replicate 12 0; pc = 2 })
      ≡ done (record { code = code'; pc = 2 + 6 }))
    × Placed count_up 2 code'
    × (length code' ≡ 12)
    × ((j : ℕ) → j < 2 → get_elem? code' j ≡ get_elem? (replicate 12 0) j)
assemble_all-Placed_example =
    assemble_all-Placed count_up (replicate 12 0) 2
      ((push_im-valid, omega arith), (inc-valid, ((jmp_rel8-valid, omega arith), tt))) (omega arith)
