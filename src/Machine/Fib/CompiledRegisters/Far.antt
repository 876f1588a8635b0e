-- ===== src/Machine/Fib/CompiledRegisters/Far.antt =====
-- The operation `fib_with_registers` where the compiler lays a label too far from the entry: `FIX`
-- keeps 13 bits of an offset, and nothing tests that the offset has no more.
use lilyvm.Base.{ℕ, suc, ◌+◌, ◌≤◌, ◌<◌, ◌≡◌, ◌≢◌, refl, arith, List, ◌∷◌, length, pos}
use mathlib.Core.Path.{subst}
use lilyvm.Outcome.{done}
use lilyvm.Value.{fix, int, pcnum}
use lilyvm.Value.Fixnum.{InFixRange, int-InFixRange, fix-lt}
use lilyvm.Machine.State.{Machine}
use lilyvm.Machine.Ops.Fib.{Offsets, away, blocks, registers_goto, op_fib_with_registers}
use lilyvm.Machine.Trace.{At}
use lilyvm.Machine.Fib.Compiled.Call.{eqb_apart}
use lilyvm.Machine.Fib.CompiledRegisters.{start_lem, entry_small}

-- `fib_with_registers` of 0 or 1, where its final label lies no fixnum away from the entry and none of
-- its labels lies at the offset that the fixnum gives, leaves for that offset, which is not the
-- label's.
pub op_fib_with_registers-away :
    (offsets : Offsets) (code : List ℕ) (base : Machine) (pc n r rounds : ℕ) (xs : List ℕ)
    (s : Machine)
    → At base pc (pcnum r ∷ fix (pos n) ∷ xs) s
    → n < 2
    → length xs + 2 ≤ base.process.stack.len
    → ¬ InFixRange offsets.end_calling_conventions
    → int (fix offsets.end_calling_conventions) ≢ offsets.with_registers_ret_1
    → int (fix offsets.end_calling_conventions) ≢ offsets.with_registers_ret_2
    → int (fix offsets.end_calling_conventions) ≢ pos 0
    → (int (fix offsets.end_calling_conventions) ≢ offsets.end_calling_conventions)
      × (s' : Machine) × (op_fib_with_registers offsets code (rounds + 2) s
          ≡ done (away (int (fix offsets.end_calling_conventions)) s'))
unfolding op_fib_with_registers blocks registers_goto
op_fib_with_registers-away offsets code base pc n r rounds xs s h small room far not_1 not_2 not_0 =
    let last = offsets.end_calling_conventions in
    let off = int (fix last) in
    let other : off ≢ last =
      λ e. far (subst InFixRange e (int-InFixRange (fix last) (fix-lt last))) in
    let (s1, starts, h1) = start_lem offsets code base n (pcnum r) s h room in
    let (s2, enters, _) = entry_small offsets code base n (fix last) base.n s1 h1 small in
    let more : rounds + 2 ≡ suc (suc rounds) = omega arith in
    (
      other,
      s2,
      rw
          (
            more,
            starts,
            enters,
            eqb_apart off offsets.with_registers_ret_1 not_1,
            eqb_apart off offsets.with_registers_ret_2 not_2,
            eqb_apart off last other,
            eqb_apart off (pos 0) not_0,
          )
          refl,
    )
