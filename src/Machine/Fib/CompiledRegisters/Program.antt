-- ===== src/Machine/Fib/CompiledRegisters/Program.antt =====
-- The program with the operation `fib_with_registers` on the interpreter.
use lilyvm.Base.{
  ℕ, suc, ◌+◌, ◌-◌, ◌*◌, ◌^◌, ◌≤◌, ◌<◌, ◌≡◌, refl, ap, ◌∙◌, arith, List, [], ◌∷◌, length,
}
use lilyvm.Base.{pos, ◌+ℤ◌, to_word}
use mathlib.Core.Path.{subst}
use lilyvm.Outcome.{done}
use lilyvm.Process.{VmProcess}
use lilyvm.Value.{fix, pcnum}
use lilyvm.Value.Fixnum.{fix-lt}
use lilyvm.Machine.Op.{Op}
use lilyvm.Machine.State.{Machine, signed8, start, store_all}
use lilyvm.Machine.Stack.Contents.{contents, IsValid}
use lilyvm.Machine.Assembler.Reads.{Placed, AreInstructions, plain}
use lilyvm.Machine.Assembler.Checked.{are_instructions, are_instructions-AreInstructions}
use lilyvm.Machine.Ops.Fib.{
  Offsets, dispatch, start_calling_conventions, blocks, registers_block, op_fib_with_registers,
}
use lilyvm.Machine.Run.{Native, exec, leaves}
use lilyvm.Machine.Trace.{At, others, IsVerified, Leads, Leads-exec, ◌▹◌}
use lilyvm.Machine.Halts.{RunsTo, Leads-RunsTo}
use lilyvm.Machine.Fresh.{Computes, fresh-Computes}
use lilyvm.Machine.Effects.Moves.{Stands, push_im-Leads}
use lilyvm.Machine.Effects.Calls.{jsr_rel8-Leads}
use lilyvm.Machine.Fib.{fib, compiled_register_rest, compiled_register_program}
use lilyvm.Machine.Fib.Compiled.{blocks-Jumps, jump, stay, trans-Jumps}
use lilyvm.Machine.Fib.CompiledRegisters.{registers, start_lem, end_lem}
use lilyvm.Machine.Fib.CompiledRegisters.Call.{AreRegistersLabels, fib_call, to_end}

op_fib_with_registers-IsCalledFor :
    (offsets : Offsets) (labels : AreRegistersLabels offsets) (code : List ℕ) (base : Machine)
    (pc n r rounds : ℕ) (xs : List ℕ) (s : Machine)
    → At base pc (pcnum r ∷ fix (pos n) ∷ xs) s
    → fib n ≤ 4095
    → r < 2 ^ 13
    → length xs + 2 * n + 2 ≤ base.process.stack.len
    → 4 * fib n ≤ rounds + 1
    → (s' : Machine) × (op_fib_with_registers offsets code rounds s ≡ done (dispatch s'))
      × At
          (registers (fix (pos (fib n))) (fix offsets.end_calling_conventions) base)
          r
          (fix (pos (fib n)) ∷ xs)
          s'
unfolding op_fib_with_registers blocks
op_fib_with_registers-IsCalledFor offsets labels code base pc n r rounds xs s h in_range small room
      enough =
    let block = registers_block offsets code in
    let off = offsets.end_calling_conventions in
    let (s1, starts, h1) = start_lem offsets code base n (pcnum r) s h (omega arith) in
    let c =
      fib_call offsets code labels base pc n base.n off (pcnum r ∷ xs) s1 labels.near_end h1
        in_range (omega arith) in
    let back = c.returns ∙ ap done (to_end offsets code labels c.after) in
    let result = fix (pos (fib n)) in
    let (s2, ends, h2) =
      end_lem offsets code base result r (fix off) c.after c.at small (omega arith) in
    let j = suc (c.rounds + 1) in
    let more = rounds - suc j in
    let e : rounds ≡ j + suc more = omega (arith, c.count) in
    let chain = jump starts (trans-Jumps block c.jumps (jump back stay)) in
    (
      s2,
      ap (λ k. blocks block k start_calling_conventions s) e
          ∙ blocks-Jumps block chain (suc more)
          ∙ rw ends refl,
      h2,
    )

module _ (native : Native) (code : List ℕ) {base : Machine} (v : IsVerified base) (pc : ℕ)
    (labels : AreRegistersLabels native.offsets) where
  fib_with_registers-Leads :
      (n r : ℕ) {xs : List ℕ}
      → Stands (plain Op.fib_with_registers) pc code
      → 4 * fib n ≤ native.rounds + 1
      → fib n ≤ 4095
      → r < 2 ^ 13
      → length xs + 2 * n + 2 ≤ base.process.stack.len
      → Leads native code base pc
          (pcnum r ∷ fix (pos n) ∷ xs)
          (registers (fix (pos (fib n))) (fix native.offsets.end_calling_conventions) base)
          r
          (fix (pos (fib n)) ∷ xs)
  unfolding exec
  fib_with_registers-Leads n r {xs} reads enough in_range small room =
      Leads-exec native code {base = base} {xs = pcnum r ∷ fix (pos n) ∷ xs} v Op.fib_with_registers
        reads
        (λ s h.
          let (s', runs, h') =
            op_fib_with_registers-IsCalledFor native.offsets labels code base pc n r native.rounds
              xs s h in_range small room enough in
          (s', ap (leaves native.registers_away) runs, h'))

start_call : pos 3 +ℤ signed8 3 ≡ pos 6
unfolding ◌+ℤ◌
start_call = refl

-- The process with the result in the register A.
abbrev pub with_result_in_a : ℕ → VmProcess → VmProcess
with_result_in_a n p = record p { a = fix (pos (fib n)) }

-- From a valid stack with room for the calls, in a process that the dispatch accepts, the program in
-- place at 0 puts the Fibonacci number of its argument into the register A and on the stack and
-- leaves all else of the process, if that number is a fixnum, if the labels have addresses of their
-- own, and if the rounds are enough.
pub compiled_register_program-RunsTo :
    (native : Native) (code : List ℕ) (p : VmProcess) (n : ℕ)
    → AreRegistersLabels native.offsets
    → 4 * fib n ≤ native.rounds + 1
    → Placed (compiled_register_program n) 0 code
    → IsValid (start p)
    → IsVerified (start p)
    → fib n ≤ 4095
    → length (contents (start p)) + 2 * n + 2 ≤ p.stack.len
    → RunsTo native code p (with_result_in_a n p) (fix (pos (fib n)) ∷ contents (start p))
unfolding others store_all
compiled_register_program-RunsTo native code p n labels enough placed valid v in_range room =
    let (push, (call, (halt, (op, _)))) = placed in
    let base =
      registers (fix (pos (fib n))) (fix native.offsets.end_calling_conventions) (start p) in
    Leads-RunsTo native code p (with_result_in_a n p) base refl valid v halt (
      push_im-Leads native code v 0 (fix (pos n)) push (omega arith)
      ▹ jsr_rel8-Leads native code v 3 3 6 call start_call (omega arith)
      ▹ fib_with_registers-Leads native code {base = start p} v 6 labels n 5 op enough in_range
          (omega arith) room)

compiled_register_program-AreInstructions : (n : ℕ) → AreInstructions (compiled_register_program n)
unfolding are_instructions fix to_word
compiled_register_program-AreInstructions n =
    (((λ e. cc), fix-lt (pos n)), are_instructions-AreInstructions compiled_register_rest refl)

-- The program with the operation `fib_with_registers` for `n`, assembled into any array of 7 bytes or
-- more and run on the process that `malloc_process` makes, halts with the Fibonacci number of `n` in
-- A and as the only value on the stack, and all else of the process as it was made, if that number is
-- a fixnum, if the stack has room for 2 * n + 2 values and its bound 16 bits, for areas of 1 to 32768
-- words, if the C compiler gives the labels of the operation three addresses within a fixnum of its
-- entry, and within 4 * fib n - 1 blocks.
pub compiled_register_program-Computes :
    (native : Native) (array : List ℕ) (n stacklen numheapwords : ℕ)
    → AreRegistersLabels native.offsets
    → 4 * fib n ≤ native.rounds + 1
    → 7 ≤ length array
    → fib n ≤ 4095
    → 2 * n + 2 ≤ stacklen
    → stacklen < 2 ^ 16
    → 0 < numheapwords
    → numheapwords ≤ 2 ^ 15
    → Computes native
        (compiled_register_program n)
        array
        stacklen
        numheapwords
        (with_result_in_a n)
        (fix (pos (fib n)) ∷ [])
compiled_register_program-Computes native array n stacklen numheapwords labels enough room in_range
      deep narrow some_words small =
    fresh-Computes native (compiled_register_program n) array stacklen numheapwords
      (with_result_in_a n) (fix (pos (fib n)) ∷ []) (compiled_register_program-AreInstructions n)
      room narrow some_words small
      (λ code p placed valid v empty len.
        subst (λ xs. RunsTo native code p (with_result_in_a n p) (fix (pos (fib n)) ∷ xs)) empty
          (compiled_register_program-RunsTo native code p n labels enough placed valid v in_range
            (omega (arith, ap length empty, len))))
