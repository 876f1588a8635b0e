-- ===== src/Machine/Fib/Tests.antt =====
-- The programs of vmtest.c in an array of 50 bytes, and on the process that vmtest.c makes.
use lilyvm.Base.{ℕ, ◌≡◌, ◌≢◌, refl, arith, List, [], ◌∷◌, replicate, pos}
use lilyvm.Value.{fix}
use lilyvm.Machine.Tests.{no_native}
use lilyvm.Machine.Fresh.{Computes}
use lilyvm.Machine.Fib.{
  fib, naive_program, combined_program, register_program, binary_program, frame_program,
  compiled_program, compiled_register_program,
}
use lilyvm.Machine.Fib.Naive.{naive_program-Computes}
use lilyvm.Machine.Fib.Combined.{combined_program-Computes}
use lilyvm.Machine.Fib.Registers.{with_result, register_program-Computes}
use lilyvm.Machine.Fib.Binary.{binary_program-Computes}
use lilyvm.Machine.Fib.Frames.{frame_program-Computes}
use lilyvm.Machine.Fib.Compiled.Call.{AreLabels}
use lilyvm.Machine.Fib.Compiled.Program.{compiled_program-Computes}
use lilyvm.Base.{to_word, signed16, shr_ℤ}
use lilyvm.Outcome.{done}
use lilyvm.Value.{int, pcnum}
use lilyvm.Machine.State.{Machine}
use lilyvm.Machine.Stack.{with_vals}
use lilyvm.Machine.Stack.Tests.{two_values}
use lilyvm.Machine.Trace.{At}
use lilyvm.Machine.Ops.Fib.{Offsets, away, op_fib_with_registers}
use lilyvm.Machine.Fib.CompiledRegisters.Far.{op_fib_with_registers-away}
use lilyvm.Machine.Fib.CompiledRegisters.Call.{AreRegistersLabels}
use lilyvm.Machine.Fib.CompiledRegisters.Program.{
  with_result_in_a, compiled_register_program-Computes,
}

abbrev array : List ℕ
array = replicate 50 0

sixteen : fib 16 ≡ 1597
sixteen = refl

naive_program-Computes_example :
    Computes no_native (naive_program 16) array 200 28 (λ p. p) (fix (pos 1597) ∷ [])
naive_program-Computes_example =
    naive_program-Computes no_native array 16 200 28 (omega arith) (omega arith) (omega arith)
      (omega arith) (omega arith) (omega arith)

combined_program-Computes_example :
    Computes no_native (combined_program 2) array 200 28 (λ p. p) (fix (pos 2) ∷ [])
combined_program-Computes_example =
    combined_program-Computes no_native array 2 200 28 (omega arith) (omega arith) (omega arith)
      (omega arith) (omega arith) (omega arith)

register_program-Computes_example :
    Computes no_native (register_program 16) array 200 28 (with_result 16) (fix (pos 1597) ∷ [])
register_program-Computes_example =
    register_program-Computes no_native array 16 200 28 (omega arith) (omega arith) (omega arith)
      (omega arith) (omega arith) (omega arith)

binary_program-Computes_example :
    Computes no_native (binary_program 16) array 200 28 (with_result 16) (fix (pos 1597) ∷ [])
binary_program-Computes_example =
    binary_program-Computes no_native array 16 200 28 (omega arith) (omega arith) (omega arith)
      (omega arith) (omega arith) (omega arith)

frame_program-Computes_example :
    Computes no_native (frame_program 16) array 200 28 (with_result 16) (fix (pos 1597) ∷ [])
frame_program-Computes_example =
    frame_program-Computes no_native array 16 200 28 (omega arith) (omega arith) (omega arith)
      (omega arith) (omega arith) (omega arith)

two_labels : AreLabels no_native.offsets
two_labels = record { near_1 = ground arith; near_2 = ground arith; apart = λ e. ground arith }

compiled_program-Computes_example :
    Computes no_native (compiled_program 6) array 200 28 (λ p. p) (fix (pos 13) ∷ [])
compiled_program-Computes_example =
    compiled_program-Computes no_native array 6 200 28 two_labels (omega arith) (omega arith)
      (omega arith) (omega arith) (omega arith) (omega arith) (omega arith)

three_labels : AreRegistersLabels no_native.offsets
three_labels = record {
  near_1 = ground arith;
  near_2 = ground arith;
  near_end = ground arith;
  apart = λ e. ground arith;
  end_not_1 = λ e. ground arith;
  end_not_2 = λ e. ground arith;
}

compiled_register_program-Computes_example :
    Computes no_native
      (compiled_register_program 6)
      array
      200
      28
      (with_result_in_a 6)
      (fix (pos 13) ∷ [])
compiled_register_program-Computes_example =
    compiled_register_program-Computes no_native array 6 200 28 three_labels (omega arith)
      (omega arith) (omega arith) (omega arith) (omega arith) (omega arith) (omega arith)

-- The last label lies 9000 bytes from the entry.
abbrev far_offsets : Offsets
far_offsets = record no_native.offsets { end_calling_conventions = pos 9000 }

truncated : int (fix (pos 9000)) ≡ pos 808
unfolding int fix to_word signed16 shr_ℤ
truncated = refl

abbrev called : Machine
called = with_vals (fix (pos 1) ∷ pcnum 5 ∷ 0 ∷ 0 ∷ []) two_values

called-At : At called 0 (pcnum 5 ∷ fix (pos 1) ∷ []) called
called-At = record {
  valid = record { full = refl; within = omega arith; narrow = omega arith };
  at = refl;
  holds = refl;
  frame = refl;
}

op_fib_with_registers-away_example :
    (int (fix (pos 9000)) ≢ pos 9000)
    × (s' : Machine) × (op_fib_with_registers far_offsets [] 2 called
        ≡ done (away (int (fix (pos 9000))) s'))
op_fib_with_registers-away_example =
    op_fib_with_registers-away far_offsets [] called 0 1 5 0 [] called called-At (omega arith)
      (omega arith) (λ h. ground arith) (λ e. ground (arith, truncated))
      (λ e. ground (arith, truncated)) (λ e. ground (arith, truncated))
