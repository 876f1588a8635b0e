-- ===== src/Machine/Fib.antt =====
-- The programs of vmtest.c that compute a Fibonacci number, and the number.
pub mod Naive
pub mod Combined
pub mod Registers
pub mod Binary
pub mod Frames
pub mod Compiled
pub mod CompiledRegisters
mod Tests
use lilyvm.Base.{ℕ, zero, suc, ◌+◌, ◌≤◌, arith, List, [], ◌∷◌, pos}
use lilyvm.Value.{fix, fal}
use lilyvm.Machine.Op.{Op}
use lilyvm.Machine.Assembler.Reads.{Instruction, plain, with_b, with_im, with_im_b}

-- `(define (fib n) …)` in the comment of vmtest.c: 1 below 2.
abbrev pub fib : ℕ → ℕ
fib zero = 1
fib (suc zero) = 1
fib (suc (suc n)) = fib (suc n) + fib n

pub le-fib : (n : ℕ) → n ≤ fib n
le-fib zero = omega arith
le-fib (suc zero) = omega arith
le-fib (suc (suc zero)) = omega arith
le-fib (suc (suc (suc n))) = omega (arith, le-fib (suc (suc n)), le-fib (suc n))

-- The function `fib` of the first program, at 6: `n` is below the return address.
abbrev pub naive_fib : List Instruction
naive_fib =
    plain Op.swap
    ∷ with_im_b Op.cmpbr_keep_lt_im_rel8 (fix (pos 2)) 14
    ∷ plain Op.dec
    ∷ plain Op.dup
    ∷ with_b Op.jsr_rel8 249
    ∷ plain Op.swap
    ∷ plain Op.dec
    ∷ with_b Op.jsr_rel8 245
    ∷ plain Op.add
    ∷ plain Op.ret_pop
    ∷ plain Op.drop1
    ∷ with_im Op.ret_im (fix (pos 1))
    ∷ []

-- What follows the first instruction, which pushes the argument.
abbrev pub naive_rest : List Instruction
naive_rest = with_b Op.jsr_rel8 3 ∷ plain Op.halt ∷ naive_fib

abbrev pub naive_program : ℕ → List Instruction
naive_program n = with_im Op.push_im (fix (pos n)) ∷ naive_rest

-- The second program, with combined operations: `n` is above the return address.
abbrev pub combined_fib : List Instruction
combined_fib =
    with_im_b Op.cmpbr_keep_lt_im_rel8 (fix (pos 2)) 12
    ∷ plain Op.dec_then_dup
    ∷ with_b Op.jsr_rel8_then_swap 251
    ∷ plain Op.swap_then_dec
    ∷ with_b Op.jsr_rel8_then_swap 248
    ∷ plain Op.add
    ∷ plain Op.ret_pop
    ∷ plain Op.drop1
    ∷ with_im Op.ret_im (fix (pos 1))
    ∷ []

abbrev pub combined_rest : List Instruction
combined_rest = with_b Op.jsr_rel8_then_swap 3 ∷ plain Op.halt ∷ combined_fib

abbrev pub combined_program : ℕ → List Instruction
combined_program n = with_im Op.push_im (fix (pos n)) ∷ combined_rest

-- The third program: `n` and the result are in the register A.
abbrev pub register_fib : List Instruction
register_fib =
    with_im_b Op.cmpbr_a_lt_im_rel8 (fix (pos 2)) 14
    ∷ plain Op.dec_a
    ∷ plain Op.push_a
    ∷ with_b Op.jsr_rel8 250
    ∷ plain Op.swap_a
    ∷ plain Op.dec_a
    ∷ with_b Op.jsr_rel8 246
    ∷ plain Op.add_a
    ∷ plain Op.ret
    ∷ with_im Op.load_a_im (fix (pos 1))
    ∷ plain Op.ret
    ∷ []

abbrev pub register_rest : List Instruction
register_rest =
    plain Op.nop
    ∷ plain Op.nop
    ∷ with_im Op.load_b_im fal
    ∷ plain Op.nop
    ∷ with_b Op.jsr_rel8 6
    ∷ plain Op.push_a
    ∷ plain Op.nop
    ∷ plain Op.trace_off
    ∷ plain Op.halt
    ∷ register_fib

abbrev pub register_program : ℕ → List Instruction
register_program n = with_im Op.load_a_im (fix (pos n)) ∷ register_rest

-- The program whose function is the operation `fib`.
abbrev pub compiled_rest : List Instruction
compiled_rest = with_b Op.jsr_rel8 3 ∷ plain Op.halt ∷ plain Op.fib ∷ []

abbrev pub compiled_program : ℕ → List Instruction
compiled_program n = with_im Op.push_im (fix (pos n)) ∷ compiled_rest

-- What the programs with the register N leave in it.
abbrev pub parity : ℕ → ℕ
parity zero = 0
parity (suc zero) = 1
parity (suc (suc n)) = parity n

-- The fourth program: the argument is in the register N, as a binary number.
abbrev pub binary_fib : List Instruction
binary_fib =
    with_im_b Op.cmpbr_n_lt_im_rel8 2 14
    ∷ plain Op.dec_n
    ∷ plain Op.push_n
    ∷ with_b Op.jsr_rel8 250
    ∷ plain Op.pop_n_then_push_a
    ∷ plain Op.dec_n
    ∷ with_b Op.jsr_rel8 246
    ∷ plain Op.add_a
    ∷ plain Op.ret
    ∷ with_im Op.load_a_im (fix (pos 1))
    ∷ plain Op.ret
    ∷ []

abbrev pub binary_rest : List Instruction
binary_rest =
    plain Op.trace_on
    ∷ plain Op.nop
    ∷ with_im Op.load_b_im fal
    ∷ plain Op.nop
    ∷ with_b Op.jsr_rel8 6
    ∷ plain Op.push_a
    ∷ plain Op.nop
    ∷ plain Op.trace_off
    ∷ plain Op.halt
    ∷ binary_fib

abbrev pub binary_program : ℕ → List Instruction
binary_program n = with_im Op.load_n_im n ∷ binary_rest

-- The fifth program, with stack frames of one slot.
abbrev pub frame_fib : List Instruction
frame_fib =
    with_im_b Op.cmpbr_n_lt_im_rel8 2 20
    ∷ plain Op.dec_n
    ∷ with_b Op.unsafe_st_n_fix_at 1
    ∷ with_b Op.frame_jsr_rel8_1 249
    ∷ with_b Op.unsafe_ld_n_int_at 1
    ∷ with_b Op.unsafe_st_a_at 1
    ∷ plain Op.dec_n
    ∷ with_b Op.frame_jsr_rel8_1 242
    ∷ with_b Op.unsafe_add_a_at 1
    ∷ with_b Op.unsafe_frame_ret 2
    ∷ with_im Op.load_a_im (fix (pos 1))
    ∷ with_b Op.unsafe_frame_ret 2
    ∷ []

abbrev pub frame_rest : List Instruction
frame_rest =
    plain Op.trace_on
    ∷ plain Op.nop
    ∷ with_im Op.load_b_im fal
    ∷ plain Op.nop
    ∷ with_b Op.frame_jsr_rel8_1 6
    ∷ plain Op.push_a
    ∷ plain Op.nop
    ∷ plain Op.trace_off
    ∷ plain Op.halt
    ∷ frame_fib

abbrev pub frame_program : ℕ → List Instruction
frame_program n = with_im Op.load_n_im n ∷ frame_rest

-- The last program, whose function is the operation `fib_with_registers`.
abbrev pub compiled_register_rest : List Instruction
compiled_register_rest = with_b Op.jsr_rel8 3 ∷ plain Op.halt ∷ plain Op.fib_with_registers ∷ []

abbrev pub compiled_register_program : ℕ → List Instruction
compiled_register_program n = with_im Op.push_im (fix (pos n)) ∷ compiled_register_rest
