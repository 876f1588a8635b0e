-- ===== src/Machine/Fib/Frames.antt =====
-- The program with stack frames on the interpreter.
use lilyvm.Base.{
  ℕ, zero, suc, ◌+◌, ◌*◌, ◌^◌, ◌≤◌, ◌<◌, ◌≡◌, refl, ap, arith, List, [], ◌∷◌, length, pos, ◌+ℤ◌,
  to_word,
}
use lilyvm.Value.{fix, fal, pcnum, uninitialized}
use lilyvm.Machine.State.{Machine, signed8, start, store_all}
use lilyvm.Machine.Stack.Contents.{contents, IsValid}
use lilyvm.Machine.Halts.{RunsTo, Leads-RunsTo}
use lilyvm.Process.{VmProcess}
use lilyvm.Machine.Assembler.Reads.{Placed, AreInstructions}
use lilyvm.Machine.Assembler.Checked.{are_instructions, are_instructions-AreInstructions}
use lilyvm.Machine.Fresh.{Computes, fresh-Computes}
use mathlib.Core.Path.{subst}
use lilyvm.Machine.Run.{Native}
use lilyvm.Machine.Trace.{others, IsVerified, Leads, ◌▹◌}
use lilyvm.Machine.Effects.Registers.{
  with_a, with_b, nop-Leads, trace_off-Leads, load_a_im-Leads, load_b_im-Leads, push_a-Leads,
  trace_on-Leads, with_n,
}
use lilyvm.Machine.Effects.Binary.{load_n_im-Leads, dec_n-Leads, cmpbr_n_lt-Leads}
use lilyvm.Machine.Effects.Frames.{
  frame_jsr_rel8_1-Leads, unsafe_frame_ret-Leads, unsafe_st_n_fix-Leads, unsafe_st_a-Leads,
  unsafe_ld_n_int-Leads, unsafe_add_a-Leads,
}
use lilyvm.Machine.Fib.{fib, le-fib, parity, frame_fib, frame_rest, frame_program}
use lilyvm.Machine.Fib.Registers.{with_result}

first_call : pos 22 +ℤ signed8 249 ≡ pos 15
unfolding ◌+ℤ◌
first_call = refl

second_call : pos 29 +ℤ signed8 242 ≡ pos 15
unfolding ◌+ℤ◌
second_call = refl

start_call : pos 9 +ℤ signed8 6 ≡ pos 15
unfolding ◌+ℤ◌
start_call = refl

module _ (native : Native) (code : List ℕ) (base : Machine) (v : IsVerified base)
    (placed : Placed frame_fib 15 code) where
  -- A machine with a number in N and a value in A.
  abbrev numbers : ℕ → ℕ → Machine
  numbers n x = with_n n (with_a x base)

  -- A call, with the argument in N and a frame of a return address and a slot.
  fib_call :
      (n r x y : ℕ) {xs : List ℕ}
      → fib n ≤ 4095
      → r < 2 ^ 13
      → length xs + 2 * n + 2 ≤ base.process.stack.len
      → Leads native code
          (numbers n x)
          15
          (pcnum r ∷ y ∷ xs)
          (numbers (parity n) (fix (pos (fib n))))
          r
          xs
  fib_call zero r x y small low room =
      let (cmp, (_, (_, (_, (_, (_, (_, (_, (_, (_, (load, (ret, _)))))))))))) = placed in
      cmpbr_n_lt-Leads native code (numbers 0 x) v 15 0 2 20 20 cmp refl (omega arith) (omega arith)
        refl
      ▹ load_a_im-Leads native code {base = numbers 0 x} v 35 (fix (pos 1)) load
      ▹ unsafe_frame_ret-Leads native code (numbers 0 (fix (pos 1))) v 38 r ret low
  fib_call (suc zero) r x y small low room =
      let (cmp, (_, (_, (_, (_, (_, (_, (_, (_, (_, (load, (ret, _)))))))))))) = placed in
      cmpbr_n_lt-Leads native code (numbers 1 x) v 15 1 2 20 20 cmp refl (omega arith) (omega arith)
        refl
      ▹ load_a_im-Leads native code {base = numbers 1 x} v 35 (fix (pos 1)) load
      ▹ unsafe_frame_ret-Leads native code (numbers 1 (fix (pos 1))) v 38 r ret low
  fib_call (suc (suc n)) r x y {xs} small low room =
      let (cmp, (dec, (store, (call, (load, (store', (dec', (call', (add, (ret, _)))))))))) =
        placed in
      let in_range : suc (suc n) ≤ 4095 = omega (arith, le-fib (suc (suc n))) in
      let first = fix (pos (fib (suc n))) in
      let second = fix (pos (fib n)) in
      let result = fix (pos (fib (suc (suc n)))) in
      let after_first = numbers (parity (suc n)) first in
      let narrow : suc n < 2 ^ 15 = omega arith in
      cmpbr_n_lt-Leads native code (numbers (suc (suc n)) x) v 15 (suc (suc n)) 2 20 4 cmp refl
        (omega arith) (omega arith) (ground arith)
      ▹ dec_n-Leads native code (with_a x base) v 19 (suc n) dec (omega arith)
      ▹ unsafe_st_n_fix-Leads native code (numbers (suc n) x) v 20 (suc n) store refl narrow
      ▹ frame_jsr_rel8_1-Leads native code (numbers (suc n) x) v 22 249 15 call first_call
          (omega arith)
      ▹ fib_call (suc n) 24 x uninitialized (omega arith) (omega arith) (omega arith)
      ▹ unsafe_ld_n_int-Leads native code after_first v 24 (suc n) load (omega arith)
      ▹ unsafe_st_a-Leads native code (numbers (suc n) first) v 26 store'
      ▹ dec_n-Leads native code (with_a first base) v 28 n dec' narrow
      ▹ frame_jsr_rel8_1-Leads native code (numbers n first) v 29 242 15 call' second_call
          (omega arith)
      ▹ fib_call n 31 first uninitialized (omega arith) (omega arith) (omega arith)
      ▹ unsafe_add_a-Leads native code (numbers (parity n) second) v 31 (fib n) (fib (suc n))
          (fib (suc (suc n))) add (omega arith) small
      ▹ unsafe_frame_ret-Leads native code (numbers (parity n) result) v 33 r ret low

-- From a valid stack with room for the calls, in a process that the dispatch accepts, the program in
-- place at 0 puts the Fibonacci number of its argument into the register A and on the stack, and
-- false into B, and leaves all else of the process, if that number is a fixnum.
pub frame_program-RunsTo :
    (native : Native) (code : List ℕ) (p : VmProcess) (n : ℕ)
    → Placed (frame_program n) 0 code
    → IsValid (start p)
    → IsVerified (start p)
    → fib n ≤ 4095
    → length (contents (start p)) + 2 * n + 2 ≤ p.stack.len
    → RunsTo native code p (with_result n p) (fix (pos (fib n)) ∷ contents (start p))
unfolding others store_all
frame_program-RunsTo native code p n placed valid v small room =
    let (load, (on, (nop1, (load', (nop2, (call, (push, (nop3, (off, (halt, body)))))))))) =
      placed in
    let base = with_b fal (start p) in
    let argument = with_n n base in
    let result = with_n (parity n) (with_a (fix (pos (fib n))) base) in
    Leads-RunsTo native code p (with_result n p) result refl valid v halt (
      load_n_im-Leads native code (start p) v 0 n load
      ▹ trace_on-Leads native code v 3 on
      ▹ nop-Leads native code v 4 nop1
      ▹ load_b_im-Leads native code v 5 fal load'
      ▹ nop-Leads native code {base = argument} v 8 nop2
      ▹ frame_jsr_rel8_1-Leads native code argument v 9 6 15 call start_call (omega arith)
      ▹ fib_call native code base v body n 11 base.a uninitialized small (omega arith) room
      ▹ push_a-Leads native code {base = result} v 11 push (omega arith)
      ▹ nop-Leads native code {base = result} v 12 nop3
      ▹ trace_off-Leads native code {base = result} v 13 off)

frame_program-AreInstructions : (n : ℕ) → n < 2 ^ 16 → AreInstructions (frame_program n)
unfolding are_instructions fix to_word
frame_program-AreInstructions n small =
    (((λ e. cc), small), are_instructions-AreInstructions frame_rest refl)

-- The program with stack frames for `n`, assembled into any array of 40 bytes or more and run on
-- the process that `malloc_process` makes, halts with the Fibonacci number of `n` in A and as the
-- only value on the stack, with false in B and all else of the process as it was made, if that
-- number is a fixnum, if the stack has room for 2 * n + 2 values and its bound 16 bits, and for
-- areas of 1 to 32768 words.
pub frame_program-Computes :
    (native : Native) (array : List ℕ) (n stacklen numheapwords : ℕ)
    → 40 ≤ length array
    → fib n ≤ 4095
    → 2 * n + 2 ≤ stacklen
    → stacklen < 2 ^ 16
    → 0 < numheapwords
    → numheapwords ≤ 2 ^ 15
    → Computes native
        (frame_program n)
        array
        stacklen
        numheapwords
        (with_result n)
        (fix (pos (fib n)) ∷ [])
frame_program-Computes native array n stacklen numheapwords room in_range deep narrow some_words
      small =
    fresh-Computes native (frame_program n) array stacklen numheapwords (with_result n)
      (fix (pos (fib n)) ∷ []) (frame_program-AreInstructions n (omega (arith, le-fib n))) room
      narrow some_words small
      (λ code p placed valid v empty len.
        subst (λ xs. RunsTo native code p (with_result n p) (fix (pos (fib n)) ∷ xs)) empty
          (frame_program-RunsTo native code p n placed valid v in_range
            (omega (arith, ap length empty, len))))
