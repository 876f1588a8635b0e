-- ===== src/Machine/Fib/Naive.antt =====
-- The naive program on the interpreter.
use lilyvm.Base.{
  ℕ, zero, suc, ◌+◌, ◌*◌, ◌^◌, ◌≤◌, ◌<◌, ◌≡◌, refl, ap, arith, List, [], ◌∷◌, length, pos, ◌+ℤ◌,
  to_word,
}
use lilyvm.Value.{fix, pcnum}
use lilyvm.Machine.State.{Machine, signed8, start}
use lilyvm.Machine.Stack.Contents.{contents, IsValid}
use lilyvm.Machine.Halts.{RunsTo, Leads-RunsTo, others-start}
use lilyvm.Process.{VmProcess}
use lilyvm.Machine.Assembler.Reads.{Placed, AreInstructions}
use lilyvm.Machine.Assembler.Checked.{are_instructions, are_instructions-AreInstructions}
use lilyvm.Machine.Fresh.{Computes, fresh-Computes}
use mathlib.Core.Path.{subst}
use lilyvm.Value.Fixnum.{fix-lt}
use lilyvm.Machine.Run.{Native}
use lilyvm.Machine.Trace.{IsVerified, Leads, ◌▹◌}
use lilyvm.Machine.Effects.Moves.{swap-Leads, dup-Leads, drop1-Leads, push_im-Leads}
use lilyvm.Machine.Effects.Calls.{jsr_rel8-Leads, ret_pop-Leads, ret_im-Leads}
use lilyvm.Machine.Effects.Numbers.{dec-Leads, add-Leads, cmpbr_lt-Leads}
use lilyvm.Machine.Fib.{fib, le-fib, naive_fib, naive_rest, naive_program}

first_call : pos 13 +ℤ signed8 249 ≡ pos 6
unfolding ◌+ℤ◌
first_call = refl

second_call : pos 17 +ℤ signed8 245 ≡ pos 6
unfolding ◌+ℤ◌
second_call = refl

start_call : pos 3 +ℤ signed8 3 ≡ pos 6
unfolding ◌+ℤ◌
start_call = refl

module _ (native : Native) (code : List ℕ) {base : Machine} (v : IsVerified base)
    (placed : Placed naive_fib 6 code) where
  -- A call, with the argument below the return address.
  fib_call :
      (n r : ℕ) {xs : List ℕ}
      → fib n ≤ 4095
      → r < 2 ^ 13
      → length xs + 2 * n + 2 ≤ base.process.stack.len
      → Leads native code base 6 (pcnum r ∷ fix (pos n) ∷ xs) base r (fix (pos (fib n)) ∷ xs)
  fib_call zero r small low room =
      let (swap, (cmp, (_, (_, (_, (_, (_, (_, (_, (_, (drop, (ret, _)))))))))))) = placed in
      swap-Leads native code v 6 swap
      ▹ cmpbr_lt-Leads native code v 7 0 2 14 14 cmp (omega arith) (omega arith) refl
      ▹ drop1-Leads native code v 21 drop
      ▹ ret_im-Leads native code v 22 (fix (pos 1)) r ret low (omega arith)
  fib_call (suc zero) r small low room =
      let (swap, (cmp, (_, (_, (_, (_, (_, (_, (_, (_, (drop, (ret, _)))))))))))) = placed in
      swap-Leads native code v 6 swap
      ▹ cmpbr_lt-Leads native code v 7 1 2 14 14 cmp (omega arith) (omega arith) refl
      ▹ drop1-Leads native code v 21 drop
      ▹ ret_im-Leads native code v 22 (fix (pos 1)) r ret low (omega arith)
  fib_call (suc (suc n)) r {xs} small low room =
      let (swap, (cmp, (dec, (dup, (call, (swap', (dec', (call', (add, (ret, _)))))))))) = placed in
      let in_range : suc (suc n) ≤ 4095 = omega (arith, le-fib (suc (suc n))) in
      swap-Leads native code v 6 swap
      ▹ cmpbr_lt-Leads native code v 7 (suc (suc n)) 2 14 4 cmp in_range (omega arith)
          (ground arith)
      ▹ dec-Leads native code v 11 (suc n) dec in_range
      ▹ dup-Leads native code v 12 dup (omega arith)
      ▹ jsr_rel8-Leads native code v 13 249 6 call first_call (omega arith)
      ▹ fib_call (suc n) 15 (omega arith) (omega arith) (omega arith)
      ▹ swap-Leads native code v 15 swap'
      ▹ dec-Leads native code v 16 n dec' (omega arith)
      ▹ jsr_rel8-Leads native code v 17 245 6 call' second_call (omega arith)
      ▹ fib_call n 19 (omega arith) (omega arith) (omega arith)
      ▹ add-Leads native code v 19 (fib (suc n)) (fib n) add small
      ▹ ret_pop-Leads native code v 20 r ret low

-- From a valid stack with room for the calls, in a process that the dispatch accepts, the program in
-- place at 0 puts the Fibonacci number of its argument on the stack and leaves all else of the
-- process, if that number is a fixnum.
pub naive_program-RunsTo :
    (native : Native) (code : List ℕ) (p : VmProcess) (n : ℕ)
    → Placed (naive_program n) 0 code
    → IsValid (start p)
    → IsVerified (start p)
    → fib n ≤ 4095
    → length (contents (start p)) + 2 * n + 2 ≤ p.stack.len
    → RunsTo native code p p (fix (pos (fib n)) ∷ contents (start p))
naive_program-RunsTo native code p n placed valid v small room =
    let (push, (call, (halt, body))) = placed in
    Leads-RunsTo native code p p (start p) (others-start p) valid v halt (
      push_im-Leads native code v 0 (fix (pos n)) push (omega arith)
      ▹ jsr_rel8-Leads native code v 3 3 6 call start_call (omega arith)
      ▹ fib_call native code v body n 5 small (omega arith) room)

pub naive_program-AreInstructions : (n : ℕ) → AreInstructions (naive_program n)
unfolding are_instructions fix to_word
naive_program-AreInstructions n =
    (((λ e. cc), fix-lt (pos n)), are_instructions-AreInstructions naive_rest refl)

-- The naive program for `n`, assembled into any array of 25 bytes or more and run on the process
-- that `malloc_process` makes, halts with the Fibonacci number of `n` as the only value on the
-- stack and all else of the process as it was made, if that number is a fixnum, if the stack has
-- room for 2 * n + 2 values and its bound 16 bits, and for areas of 1 to 32768 words.
pub naive_program-Computes :
    (native : Native) (array : List ℕ) (n stacklen numheapwords : ℕ)
    → 25 ≤ length array
    → fib n ≤ 4095
    → 2 * n + 2 ≤ stacklen
    → stacklen < 2 ^ 16
    → 0 < numheapwords
    → numheapwords ≤ 2 ^ 15
    → Computes native
        (naive_program n)
        array
        stacklen
        numheapwords
        (λ p. p)
        (fix (pos (fib n)) ∷ [])
naive_program-Computes native array n stacklen numheapwords room in_range deep narrow some_words
      small =
    fresh-Computes native (naive_program n) array stacklen numheapwords (λ p. p)
      (fix (pos (fib n)) ∷ []) (naive_program-AreInstructions n) room narrow some_words small
      (λ code p placed valid v empty len.
        subst (λ xs. RunsTo native code p p (fix (pos (fib n)) ∷ xs)) empty
          (naive_program-RunsTo native code p n placed valid v in_range
            (omega (arith, ap length empty, len))))
