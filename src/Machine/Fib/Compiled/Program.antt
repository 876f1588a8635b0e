-- ===== src/Machine/Fib/Compiled/Program.antt =====
-- The program with the operation `fib` on the interpreter.
use lilyvm.Base.{
  ℕ, suc, ◌+◌, ◌-◌, ◌*◌, ◌^◌, ◌≤◌, ◌<◌, ◌≡◌, refl, ap, ◌∙◌, arith, List, [], ◌∷◌, length,
}
use lilyvm.Base.{pos, ◌+ℤ◌, to_word, false}
use mathlib.Core.Path.{subst}
use lilyvm.Outcome.{done}
use lilyvm.Process.{VmProcess}
use lilyvm.Value.{fix, pcnum, is_fixnum}
use lilyvm.Value.Fixnum.{fix-lt}
use lilyvm.Value.Tags.{is_fixnum_lem, pcnum_lem}
use lilyvm.Machine.Op.{Op}
use lilyvm.Machine.State.{Machine, signed8, start, store_all, set_pc}
use lilyvm.Machine.Stack.Contents.{contents, IsValid}
use lilyvm.Machine.Assembler.Reads.{Placed, AreInstructions, plain}
use lilyvm.Machine.Assembler.Checked.{are_instructions, are_instructions-AreInstructions}
use lilyvm.Machine.Ops.Fib.{
  Offsets, leave, dispatch, fib_entry, blocks, fib_block, fib_return, op_fib,
}
use lilyvm.Machine.Run.{Native, exec, leaves}
use lilyvm.Machine.Trace.{At, others, IsVerified, Leads, Leads-exec, ◌▹◌}
use lilyvm.Machine.Halts.{RunsTo, Leads-RunsTo}
use lilyvm.Machine.Fresh.{Computes, fresh-Computes}
use lilyvm.Machine.Effects.Moves.{Stands, push_im-Leads}
use lilyvm.Machine.Effects.Calls.{jsr_rel8-Leads, return_address}
use lilyvm.Machine.Effects.Registers.{with_n}
use lilyvm.Machine.Fib.{fib, compiled_rest, compiled_program}
use lilyvm.Machine.Fib.Compiled.{blocks-Jumps}
use lilyvm.Machine.Fib.Compiled.Call.{AreLabels, IsCalled, left_in_n, fib_call}

no_fixnum : (r : ℕ) → is_fixnum (pcnum r) ≡ false
no_fixnum r = ground (arith, is_fixnum_lem (pcnum r), pcnum_lem r)

to_code :
    (offsets : Offsets) (r : ℕ) (s : Machine)
    → r < 2 ^ 13
    → fib_return offsets (pcnum r) s ≡ leave (dispatch (set_pc r s))
unfolding fib_return
to_code offsets r s small = rw (no_fixnum r, return_address r small) refl

arrived :
    {base : Machine} {pc : ℕ} {xs : List ℕ} {s : Machine} (r : ℕ)
    → At base pc xs s
    → At base r xs (set_pc r s)
unfolding others
arrived r h = record {
  valid = record { full = h.valid.full; within = h.valid.within; narrow = h.valid.narrow };
  at = refl;
  holds = h.holds;
  frame = h.frame;
}

op_fib-IsCalled :
    (offsets : Offsets) (base : Machine) (pc n r register rounds : ℕ) (xs : List ℕ) (s : Machine)
    → (c : IsCalled offsets base pc n (pcnum r) register xs s) → r < 2 ^ 13
    → 4 * fib n ≤ rounds + 3
    → op_fib offsets rounds s ≡ done (dispatch (set_pc r c.after))
unfolding op_fib blocks
op_fib-IsCalled offsets base pc n r register rounds xs s c small enough =
    let more = rounds - suc c.rounds in
    let e : rounds ≡ c.rounds + suc more = omega (arith, c.count) in
    let block = fib_block offsets in
    ap (λ k. blocks block k fib_entry s) e
    ∙ blocks-Jumps block c.jumps (suc more)
    ∙ rw (c.returns, to_code offsets r c.after small) refl

module _ (native : Native) (code : List ℕ) {base : Machine} (v : IsVerified base) (pc : ℕ)
    (labels : AreLabels native.offsets) where
  fib-Leads :
      (n r : ℕ) {xs : List ℕ}
      → Stands (plain Op.fib) pc code
      → 4 * fib n ≤ native.rounds + 3
      → fib n ≤ 4095
      → r < 2 ^ 13
      → length xs + 2 * n + 2 ≤ base.process.stack.len
      → Leads native code base pc
          (pcnum r ∷ fix (pos n) ∷ xs)
          (with_n (left_in_n n (pcnum r) base.n) base)
          r
          (fix (pos (fib n)) ∷ xs)
  unfolding exec
  fib-Leads n r {xs} reads enough in_range small room =
      Leads-exec native code {base = base} {xs = pcnum r ∷ fix (pos n) ∷ xs} v Op.fib reads (λ s h.
        let c = fib_call native.offsets labels base pc n (pcnum r) base.n xs s h in_range room in
        (
          set_pc r c.after,
          ap (leaves native.fib_away)
              (op_fib-IsCalled native.offsets base pc n r base.n native.rounds xs s c small enough),
          arrived r c.at,
        ))

start_call : pos 3 +ℤ signed8 3 ≡ pos 6
unfolding ◌+ℤ◌
start_call = refl

-- From a valid stack with room for the calls, in a process that the dispatch accepts, the program in
-- place at 0 puts the Fibonacci number of its argument on the stack and leaves all else of the
-- process, if that number is a fixnum, if the labels have addresses of their own, and if the rounds
-- are enough.
pub compiled_program-RunsTo :
    (native : Native) (code : List ℕ) (p : VmProcess) (n : ℕ)
    → AreLabels native.offsets
    → 4 * fib n ≤ native.rounds + 3
    → Placed (compiled_program n) 0 code
    → IsValid (start p)
    → IsVerified (start p)
    → fib n ≤ 4095
    → length (contents (start p)) + 2 * n + 2 ≤ p.stack.len
    → RunsTo native code p p (fix (pos (fib n)) ∷ contents (start p))
unfolding others store_all
compiled_program-RunsTo native code p n labels enough placed valid v in_range room =
    let (push, (call, (halt, (op, _)))) = placed in
    let base = with_n (left_in_n n (pcnum 5) 0) (start p) in
    Leads-RunsTo native code p p base refl valid v halt (
      push_im-Leads native code v 0 (fix (pos n)) push (omega arith)
      ▹ jsr_rel8-Leads native code v 3 3 6 call start_call (omega arith)
      ▹ fib-Leads native code {base = start p} v 6 labels n 5 op enough in_range (omega arith) room)

compiled_program-AreInstructions : (n : ℕ) → AreInstructions (compiled_program n)
unfolding are_instructions fix to_word
compiled_program-AreInstructions n =
    (((λ e. cc), fix-lt (pos n)), are_instructions-AreInstructions compiled_rest refl)

-- The program with the operation `fib` for `n`, assembled into any array of 7 bytes or more and run
-- on the process that `malloc_process` makes, halts with the Fibonacci number of `n` as the only
-- value on the stack and all else of the process as it was made, if that number is a fixnum, if the
-- stack has room for 2 * n + 2 values and its bound 16 bits, for areas of 1 to 32768 words, if the
-- C compiler gives the labels of the operation two addresses within a fixnum of its entry, and
-- within 4 * fib n - 3 jumps.
pub compiled_program-Computes :
    (native : Native) (array : List ℕ) (n stacklen numheapwords : ℕ)
    → AreLabels native.offsets
    → 4 * fib n ≤ native.rounds + 3
    → 7 ≤ length array
    → fib n ≤ 4095
    → 2 * n + 2 ≤ stacklen
    → stacklen < 2 ^ 16
    → 0 < numheapwords
    → numheapwords ≤ 2 ^ 15
    → Computes native
        (compiled_program n)
        array
        stacklen
        numheapwords
        (λ p. p)
        (fix (pos (fib n)) ∷ [])
compiled_program-Computes native array n stacklen numheapwords labels enough room in_range deep
      narrow some_words small =
    fresh-Computes native (compiled_program n) array stacklen numheapwords (λ p. p)
      (fix (pos (fib n)) ∷ []) (compiled_program-AreInstructions n) room narrow some_words small
      (λ code p placed valid v empty len.
        subst (λ xs. RunsTo native code p p (fix (pos (fib n)) ∷ xs)) empty
          (compiled_program-RunsTo native code p n labels enough placed valid v in_range
            (omega (arith, ap length empty, len))))
