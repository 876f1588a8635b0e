-- ===== src/Machine/Fresh.antt =====
-- A program from bytecode.h's macros to its result: assembled into an array, and run by
-- `vm_process_run` on a process that `malloc_process` has made.
use lilyvm.Base.{ℕ, ◌+◌, ◌^◌, ◌≤◌, ◌<◌, ◌≡◌, ap, ◌∙◌, arith, List, [], length, some, true}
use lilyvm.Outcome.{done}
use lilyvm.Process.{VmProcess, malloc_process}
use lilyvm.Machine.State.{start}
use lilyvm.Machine.Start.{malloc_process-IsLaidOut, malloc_process-len}
use lilyvm.Machine.Stack.Contents.{contents, IsValid}
use lilyvm.Machine.Assembler.Reads.{
  Instruction, AreInstructions, assemble_all, assemble_all-Placed, Placed, size_all,
}
use lilyvm.Machine.Run.{Native}
use lilyvm.Machine.Trace.{IsVerified}
use lilyvm.Machine.Halts.{RunsTo, malloc_process-IsVerified}

-- The process is as `malloc_process` makes it, but for the stack and the registers in `q`.
pub record Computes (native : Native) (program : List Instruction) (array : List ℕ)
    (stacklen numheapwords : ℕ) (after : VmProcess → VmProcess) (ys : List ℕ) : Type 0 where
  pub code : List ℕ
  pub process : VmProcess
  pub assembled :
      assemble_all program (record { code = array; pc = 0 })
      ≡ done (record { code = code; pc = size_all program })
  pub made : malloc_process true true stacklen numheapwords ≡ some process
  pub computes : RunsTo native code process (after process) ys

pub fresh-Computes :
    (native : Native) (program : List Instruction) (array : List ℕ) (stacklen numheapwords : ℕ)
    (after : VmProcess → VmProcess) (ys : List ℕ)
    → AreInstructions program
    → size_all program ≤ length array
    → stacklen < 2 ^ 16
    → 0 < numheapwords
    → numheapwords ≤ 2 ^ 15
    → ((code : List ℕ) (p : VmProcess)
        → Placed program 0 code
        → IsValid (start p)
        → IsVerified (start p)
        → contents (start p) ≡ []
        → p.stack.len ≡ stacklen
        → RunsTo native code p (after p) ys)
    → Computes native program array stacklen numheapwords after ys
fresh-Computes native program array stacklen numheapwords after ys fine room narrow some_words small
      runs =
    let from_start : 0 + size_all program ≡ size_all program = omega arith in
    let (code, assembled, placed, _, _) = assemble_all-Placed program array 0 fine (omega arith) in
    let (p, made, _, _, _, _, _, valid, empty) =
      malloc_process-IsLaidOut stacklen numheapwords some_words small narrow in
    record {
      code = code;
      process = p;
      assembled = assembled ∙ ap (λ n. done (record { code = code; pc = n })) from_start;
      made = made;
      computes =
          runs code p placed valid
            (malloc_process-IsVerified stacklen numheapwords p some_words made) empty
            (malloc_process-len stacklen numheapwords p made);
    }
