-- ===== src/Machine/Fib/Binary.antt =====
-- The program with the binary register N on the interpreter.
use lilyvm.Base.{
  ℕ, zero, suc, ◌+◌, ◌*◌, ◌^◌, ◌≤◌, ◌<◌, ◌≡◌, refl, ap, arith, List, [], ◌∷◌, length, pos, ◌+ℤ◌,
  to_word,
}
use lilyvm.Value.{fix, fal, pcnum}
use lilyvm.Machine.State.{Machine, signed8, start, store_all}
use lilyvm.Machine.Stack.Contents.{contents, IsValid}
use lilyvm.Machine.Halts.{RunsTo, Leads-RunsTo}
use lilyvm.Process.{VmProcess}
use lilyvm.Machine.Assembler.Reads.{Placed, AreInstructions}
use lilyvm.Machine.Assembler.Checked.{are_instructions, are_instructions-AreInstructions}
use lilyvm.Machine.Fresh.{Computes, fresh-Computes}
use mathlib.Core.Path.{subst}
use lilyvm.Machine.Run.{Native}
use lilyvm.Machine.Trace.{others, IsVerified, Leads, ◌▹◌}
use lilyvm.Machine.Effects.Calls.{jsr_rel8-Leads, ret-Leads}
use lilyvm.Machine.Effects.Registers.{
  with_a, with_b, nop-Leads, trace_off-Leads, load_a_im-Leads, load_b_im-Leads, push_a-Leads,
  add_a-Leads, trace_on-Leads, with_n,
}
use lilyvm.Machine.Effects.Binary.{
  load_n_im-Leads, dec_n-Leads, push_n-Leads, pop_n_then_push_a-Leads, cmpbr_n_lt-Leads,
}
use lilyvm.Machine.Fib.{fib, le-fib, parity, binary_fib, binary_rest, binary_program}
use lilyvm.Machine.Fib.Registers.{with_result}

first_call : pos 21 +ℤ signed8 250 ≡ pos 15
unfolding ◌+ℤ◌
first_call = refl

second_call : pos 25 +ℤ signed8 246 ≡ pos 15
unfolding ◌+ℤ◌
second_call = refl

start_call : pos 9 +ℤ signed8 6 ≡ pos 15
unfolding ◌+ℤ◌
start_call = refl

module _ (native : Native) (code : List ℕ) (base : Machine) (v : IsVerified base)
    (placed : Placed binary_fib 15 code) where
  -- A machine with a number in N and a value in A.
  abbrev numbers : ℕ → ℕ → Machine
  numbers n x = with_n n (with_a x base)

  -- A call, with the argument in N.
  fib_call :
      (n r x : ℕ) {xs : List ℕ}
      → fib n ≤ 4095
      → r < 2 ^ 13
      → length xs + 2 * n + 1 ≤ base.process.stack.len
      → Leads native code
          (numbers n x)
          15
          (pcnum r ∷ xs)
          (numbers (parity n) (fix (pos (fib n))))
          r
          xs
  fib_call zero r x small low room =
      let (cmp, (_, (_, (_, (_, (_, (_, (_, (_, (load, (ret, _))))))))))) = placed in
      cmpbr_n_lt-Leads native code (numbers 0 x) v 15 0 2 14 14 cmp refl (omega arith) (omega arith)
        refl
      ▹ load_a_im-Leads native code {base = numbers 0 x} v 29 (fix (pos 1)) load
      ▹ ret-Leads native code {base = numbers 0 (fix (pos 1))} v 32 r ret low
  fib_call (suc zero) r x small low room =
      let (cmp, (_, (_, (_, (_, (_, (_, (_, (_, (load, (ret, _))))))))))) = placed in
      cmpbr_n_lt-Leads native code (numbers 1 x) v 15 1 2 14 14 cmp refl (omega arith) (omega arith)
        refl
      ▹ load_a_im-Leads native code {base = numbers 1 x} v 29 (fix (pos 1)) load
      ▹ ret-Leads native code {base = numbers 1 (fix (pos 1))} v 32 r ret low
  fib_call (suc (suc n)) r x {xs} small low room =
      let (cmp, (dec, (push, (call, (pop, (dec', (call', (add, (ret, _))))))))) = placed in
      let in_range : suc (suc n) ≤ 4095 = omega (arith, le-fib (suc (suc n))) in
      let first = fix (pos (fib (suc n))) in
      let second = fix (pos (fib n)) in
      let result = fix (pos (fib (suc (suc n)))) in
      let after_first = numbers (parity (suc n)) first in
      let narrow : suc n < 2 ^ 15 = omega arith in
      cmpbr_n_lt-Leads native code (numbers (suc (suc n)) x) v 15 (suc (suc n)) 2 14 4 cmp refl
        (omega arith) (omega arith) (ground arith)
      ▹ dec_n-Leads native code (with_a x base) v 19 (suc n) dec (omega arith)
      ▹ push_n-Leads native code (numbers (suc n) x) v 20 (suc n) push refl narrow (omega arith)
      ▹ jsr_rel8-Leads native code {base = numbers (suc n) x} v 21 250 15 call first_call
          (omega arith)
      ▹ fib_call (suc n) 23 x (omega arith) (omega arith) (omega arith)
      ▹ pop_n_then_push_a-Leads native code after_first v 23 (suc n) pop (omega arith)
      ▹ dec_n-Leads native code (with_a first base) v 24 n dec' narrow
      ▹ jsr_rel8-Leads native code {base = numbers n first} v 25 246 15 call' second_call
          (omega arith)
      ▹ fib_call n 27 first (omega arith) (omega arith) (omega arith)
      ▹ add_a-Leads native code (numbers (parity n) second) v 27 (fib n) (fib (suc n))
          (fib (suc (suc n))) add (omega arith) small
      ▹ ret-Leads native code {base = numbers (parity n) result} v 28 r ret low

-- From a valid stack with room for the calls, in a process that the dispatch accepts, the program in
-- place at 0 puts the Fibonacci number of its argument into the register A and on the stack, and
-- false into B, and leaves all else of the process, if that number is a fixnum.
pub binary_program-RunsTo :
    (native : Native) (code : List ℕ) (p : VmProcess) (n : ℕ)
    → Placed (binary_program n) 0 code
    → IsValid (start p)
    → IsVerified (start p)
    → fib n ≤ 4095
    → length (contents (start p)) + 2 * n + 1 ≤ p.stack.len
    → RunsTo native code p (with_result n p) (fix (pos (fib n)) ∷ contents (start p))
unfolding others store_all
binary_program-RunsTo native code p n placed valid v small room =
    let (load, (on, (nop1, (load', (nop2, (call, (push, (nop3, (off, (halt, body)))))))))) =
      placed in
    let base = with_b fal (start p) in
    let argument = with_n n base in
    let result = with_n (parity n) (with_a (fix (pos (fib n))) base) in
    Leads-RunsTo native code p (with_result n p) result refl valid v halt (
      load_n_im-Leads native code (start p) v 0 n load
      ▹ trace_on-Leads native code v 3 on
      ▹ nop-Leads native code v 4 nop1
      ▹ load_b_im-Leads native code v 5 fal load'
      ▹ nop-Leads native code {base = argument} v 8 nop2
      ▹ jsr_rel8-Leads native code {base = argument} v 9 6 15 call start_call (omega arith)
      ▹ fib_call native code base v body n 11 base.a small (omega arith) room
      ▹ push_a-Leads native code {base = result} v 11 push (omega arith)
      ▹ nop-Leads native code {base = result} v 12 nop3
      ▹ trace_off-Leads native code {base = result} v 13 off)

binary_program-AreInstructions : (n : ℕ) → n < 2 ^ 16 → AreInstructions (binary_program n)
unfolding are_instructions fix to_word
binary_program-AreInstructions n small =
    (((λ e. cc), small), are_instructions-AreInstructions binary_rest refl)

-- The program with the binary register N for `n`, assembled into any array of 33 bytes or more and run on
-- the process that `malloc_process` makes, halts with the Fibonacci number of `n` in A and as the
-- only value on the stack, with false in B and all else of the process as it was made, if that
-- number is a fixnum, if the stack has room for 2 * n + 1 values and its bound 16 bits, and for
-- areas of 1 to 32768 words.
pub binary_program-Computes :
    (native : Native) (array : List ℕ) (n stacklen numheapwords : ℕ)
    → 33 ≤ length array
    → fib n ≤ 4095
    → 2 * n + 1 ≤ stacklen
    → stacklen < 2 ^ 16
    → 0 < numheapwords
    → numheapwords ≤ 2 ^ 15
    → Computes native
        (binary_program n)
        array
        stacklen
        numheapwords
        (with_result n)
        (fix (pos (fib n)) ∷ [])
binary_program-Computes native array n stacklen numheapwords room in_range deep narrow some_words
      small =
    fresh-Computes native (binary_program n) array stacklen numheapwords (with_result n)
      (fix (pos (fib n)) ∷ []) (binary_program-AreInstructions n (omega (arith, le-fib n))) room
      narrow some_words small
      (λ code p placed valid v empty len.
        subst (λ xs. RunsTo native code p (with_result n p) (fix (pos (fib n)) ∷ xs)) empty
          (binary_program-RunsTo native code p n placed valid v in_range
            (omega (arith, ap length empty, len))))
