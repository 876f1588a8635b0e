-- ===== src/Machine/Fib/Registers.antt =====
-- The program with the register A on the interpreter.
use lilyvm.Base.{
  ℕ, zero, suc, ◌+◌, ◌*◌, ◌^◌, ◌≤◌, ◌<◌, ◌≡◌, refl, ap, arith, List, [], ◌∷◌, length, pos, ◌+ℤ◌,
  to_word,
}
use lilyvm.Value.{fix, fal, pcnum}
use lilyvm.Machine.State.{Machine, signed8, start, store_all}
use lilyvm.Machine.Stack.Contents.{contents, IsValid}
use lilyvm.Machine.Halts.{RunsTo, Leads-RunsTo}
use lilyvm.Process.{VmProcess}
use lilyvm.Machine.Assembler.Reads.{Placed, AreInstructions}
use lilyvm.Machine.Assembler.Checked.{are_instructions, are_instructions-AreInstructions}
use lilyvm.Machine.Fresh.{Computes, fresh-Computes}
use mathlib.Core.Path.{subst}
use lilyvm.Value.Fixnum.{fix-lt}
use lilyvm.Machine.Run.{Native}
use lilyvm.Machine.Trace.{others, IsVerified, Leads, ◌▹◌}
use lilyvm.Machine.Effects.Calls.{jsr_rel8-Leads, ret-Leads}
use lilyvm.Machine.Effects.Registers.{
  with_a, with_b, nop-Leads, trace_off-Leads, load_a_im-Leads, load_b_im-Leads, push_a-Leads,
  swap_a-Leads, dec_a-Leads, add_a-Leads, cmpbr_a_lt-Leads,
}
use lilyvm.Machine.Fib.{fib, le-fib, register_fib, register_rest, register_program}

first_call : pos 21 +ℤ signed8 250 ≡ pos 15
unfolding ◌+ℤ◌
first_call = refl

second_call : pos 25 +ℤ signed8 246 ≡ pos 15
unfolding ◌+ℤ◌
second_call = refl

start_call : pos 9 +ℤ signed8 6 ≡ pos 15
unfolding ◌+ℤ◌
start_call = refl

module _ (native : Native) (code : List ℕ) (base : Machine) (v : IsVerified base)
    (placed : Placed register_fib 15 code) where
  -- A machine with a number in A.
  abbrev number : ℕ → Machine
  number n = with_a (fix (pos n)) base

  -- A call, with the argument in A.
  fib_call :
      (n r : ℕ) {xs : List ℕ}
      → fib n ≤ 4095
      → r < 2 ^ 13
      → length xs + 2 * n + 1 ≤ base.process.stack.len
      → Leads native code (number n) 15 (pcnum r ∷ xs) (number (fib n)) r xs
  fib_call zero r small low room =
      let (cmp, (_, (_, (_, (_, (_, (_, (_, (_, (load, (ret, _))))))))))) = placed in
      cmpbr_a_lt-Leads native code {base = number 0} v 15 0 2 14 14 cmp refl (omega arith)
        (omega arith) refl
      ▹ load_a_im-Leads native code {base = number 0} v 29 (fix (pos 1)) load
      ▹ ret-Leads native code {base = number 1} v 32 r ret low
  fib_call (suc zero) r small low room =
      let (cmp, (_, (_, (_, (_, (_, (_, (_, (_, (load, (ret, _))))))))))) = placed in
      cmpbr_a_lt-Leads native code {base = number 1} v 15 1 2 14 14 cmp refl (omega arith)
        (omega arith) refl
      ▹ load_a_im-Leads native code {base = number 1} v 29 (fix (pos 1)) load
      ▹ ret-Leads native code {base = number 1} v 32 r ret low
  fib_call (suc (suc n)) r {xs} small low room =
      let (cmp, (dec, (push, (call, (swap, (dec', (call', (add, (ret, _))))))))) = placed in
      let in_range : suc (suc n) ≤ 4095 = omega (arith, le-fib (suc (suc n))) in
      cmpbr_a_lt-Leads native code {base = number (suc (suc n))} v 15 (suc (suc n)) 2 14 4 cmp refl
        in_range (omega arith) (ground arith)
      ▹ dec_a-Leads native code base v 19 (suc n) dec in_range
      ▹ push_a-Leads native code {base = number (suc n)} v 20 push (omega arith)
      ▹ jsr_rel8-Leads native code {base = number (suc n)} v 21 250 15 call first_call (omega arith)
      ▹ fib_call (suc n) 23 (omega arith) (omega arith) (omega arith)
      ▹ swap_a-Leads native code {base = number (fib (suc n))} v 23 swap
      ▹ dec_a-Leads native code base v 24 n dec' (omega arith)
      ▹ jsr_rel8-Leads native code {base = number n} v 25 246 15 call' second_call (omega arith)
      ▹ fib_call n 27 (omega arith) (omega arith) (omega arith)
      ▹ add_a-Leads native code base v 27 (fib n) (fib (suc n)) (fib (suc (suc n))) add
          (omega arith) small
      ▹ ret-Leads native code {base = number (fib (suc (suc n)))} v 28 r ret low

-- The process with the registers as the program leaves them.
abbrev pub with_result : ℕ → VmProcess → VmProcess
with_result n p = record p { a = fix (pos (fib n)); b = fal }

-- From a valid stack with room for the calls, in a process that the dispatch accepts, the program in
-- place at 0 puts the Fibonacci number of its argument into the register A and on the stack, and
-- false into B, and leaves all else of the process, if that number is a fixnum.
pub register_program-RunsTo :
    (native : Native) (code : List ℕ) (p : VmProcess) (n : ℕ)
    → Placed (register_program n) 0 code
    → IsValid (start p)
    → IsVerified (start p)
    → fib n ≤ 4095
    → length (contents (start p)) + 2 * n + 1 ≤ p.stack.len
    → RunsTo native code p (with_result n p) (fix (pos (fib n)) ∷ contents (start p))
unfolding others store_all
register_program-RunsTo native code p n placed valid v small room =
    let (load, (nop1, (nop2, (load', (nop3, (call, (push, (nop4, (off, (halt, body)))))))))) =
      placed in
    let base = with_b fal (start p) in
    let result = with_a (fix (pos (fib n))) base in
    let argument = with_a (fix (pos n)) base in
    Leads-RunsTo native code p (with_result n p) result refl valid v halt (
      load_a_im-Leads native code {base = start p} v 0 (fix (pos n)) load
      ▹ nop-Leads native code v 3 nop1
      ▹ nop-Leads native code v 4 nop2
      ▹ load_b_im-Leads native code v 5 fal load'
      ▹ nop-Leads native code {base = argument} v 8 nop3
      ▹ jsr_rel8-Leads native code {base = argument} v 9 6 15 call start_call (omega arith)
      ▹ fib_call native code base v body n 11 small (omega arith) room
      ▹ push_a-Leads native code {base = result} v 11 push (omega arith)
      ▹ nop-Leads native code {base = result} v 12 nop4
      ▹ trace_off-Leads native code {base = result} v 13 off)

register_program-AreInstructions : (n : ℕ) → AreInstructions (register_program n)
unfolding are_instructions fix to_word
register_program-AreInstructions n =
    (((λ e. cc), fix-lt (pos n)), are_instructions-AreInstructions register_rest refl)

-- The program with the register A for `n`, assembled into any array of 33 bytes or more and run on
-- the process that `malloc_process` makes, halts with the Fibonacci number of `n` in A and as the
-- only value on the stack, with false in B and all else of the process as it was made, if that
-- number is a fixnum, if the stack has room for 2 * n + 1 values and its bound 16 bits, and for
-- areas of 1 to 32768 words.
pub register_program-Computes :
    (native : Native) (array : List ℕ) (n stacklen numheapwords : ℕ)
    → 33 ≤ length array
    → fib n ≤ 4095
    → 2 * n + 1 ≤ stacklen
    → stacklen < 2 ^ 16
    → 0 < numheapwords
    → numheapwords ≤ 2 ^ 15
    → Computes native
        (register_program n)
        array
        stacklen
        numheapwords
        (with_result n)
        (fix (pos (fib n)) ∷ [])
register_program-Computes native array n stacklen numheapwords room in_range deep narrow some_words
      small =
    fresh-Computes native (register_program n) array stacklen numheapwords (with_result n)
      (fix (pos (fib n)) ∷ []) (register_program-AreInstructions n) room narrow some_words small
      (λ code p placed valid v empty len.
        subst (λ xs. RunsTo native code p (with_result n p) (fix (pos (fib n)) ∷ xs)) empty
          (register_program-RunsTo native code p n placed valid v in_range
            (omega (arith, ap length empty, len))))
