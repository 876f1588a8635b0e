-- ===== src/Machine/Fib/CompiledRegisters/Call.antt =====
-- A call within the operation `fib_with_registers`.
use lilyvm.Base.{ℕ, zero, suc, ◌+◌, ◌*◌, ◌≤◌, ◌≡◌, ◌≢◌, refl, ap, ◌∙◌, arith, List, ◌∷◌, length}
use lilyvm.Base.{pos, ℤ}
use lilyvm.Outcome.{done}
use lilyvm.Value.{fix, int}
use lilyvm.Value.Fixnum.{InFixRange, is_fixnum-fix, int-fix}
use lilyvm.Machine.State.{Machine}
use lilyvm.Machine.Ops.Fib.{Offsets, goto, RegistersLabel, entry, registers_block, registers_goto}
use lilyvm.Machine.Trace.{At}
use lilyvm.Machine.Fib.{fib, le-fib}
use lilyvm.Machine.Fib.Compiled.{Jumps, stay, jump, trans-Jumps}
use lilyvm.Machine.Fib.Compiled.Call.{eqb_same, eqb_apart}
use lilyvm.Machine.Fib.CompiledRegisters.{registers, entry_small, entry_large, ret_1_lem, ret_2_lem}

-- The labels have addresses of their own, near enough for a fixnum.
pub record AreRegistersLabels (offsets : Offsets) : Type 0 where
  pub near_1 : InFixRange offsets.with_registers_ret_1
  pub near_2 : InFixRange offsets.with_registers_ret_2
  pub near_end : InFixRange offsets.end_calling_conventions
  pub apart : offsets.with_registers_ret_2 ≢ offsets.with_registers_ret_1
  pub end_not_1 : offsets.end_calling_conventions ≢ offsets.with_registers_ret_1
  pub end_not_2 : offsets.end_calling_conventions ≢ offsets.with_registers_ret_2

-- From the entry to the block that returns to the label at `off`.
pub record IsCalledFor (offsets : Offsets) (code : List ℕ) (base : Machine) (pc n : ℕ) (off : ℤ)
    (xs : List ℕ) (s : Machine) : Type 0 where
  pub rounds : ℕ
  pub count : rounds + 4 ≡ 4 * fib n
  pub label : RegistersLabel
  pub before : Machine
  pub jumps : Jumps (registers_block offsets code) rounds entry s label before
  pub after : Machine
  pub returns : registers_block offsets code label before ≡ done (registers_goto offsets off after)
  pub at : At (registers (fix (pos (fib n))) (fix off) base) pc xs after

module _ (offsets : Offsets) (code : List ℕ) (labels : AreRegistersLabels offsets) where
  to_ret_1 :
      (s : Machine)
      → registers_goto offsets offsets.with_registers_ret_1 s ≡ goto RegistersLabel.ret_1 s
  unfolding registers_goto
  to_ret_1 s = rw (eqb_same offsets.with_registers_ret_1) refl

  to_ret_2 :
      (s : Machine)
      → registers_goto offsets offsets.with_registers_ret_2 s ≡ goto RegistersLabel.ret_2 s
  unfolding registers_goto
  to_ret_2 s =
      let off = offsets.with_registers_ret_2 in
      rw (eqb_apart off offsets.with_registers_ret_1 labels.apart, eqb_same off) refl

  pub to_end :
      (s : Machine)
      → registers_goto offsets offsets.end_calling_conventions s
        ≡ goto RegistersLabel.end_calling_conventions s
  unfolding registers_goto
  to_end s =
      let off = offsets.end_calling_conventions in
      rw
        (
          eqb_apart off offsets.with_registers_ret_1 labels.end_not_1,
          eqb_apart off offsets.with_registers_ret_2 labels.end_not_2,
          eqb_same off,
        )
        refl

  -- A return to an offset within a fixnum.
  back :
      (off : ℤ) (s : Machine)
      → InFixRange off
      → registers_goto offsets (int (fix off)) s ≡ registers_goto offsets off s
  back off s near = ap (λ z. registers_goto offsets z s) (int-fix off near)

  call_small :
      (base : Machine) (pc n old : ℕ) (off : ℤ) (xs : List ℕ) (s : Machine)
      → InFixRange off
      → At (registers (fix (pos n)) old base) pc (fix off ∷ xs) s
      → n ≤ 1
      → fib n ≡ 1
      → IsCalledFor offsets code base pc n off xs s
  call_small base pc n old off xs s near h small one =
      let (s', runs, h') = entry_small offsets code base n (fix off) old s h (omega arith) in
      record {
        rounds = 0;
        count = omega arith;
        label = entry;
        before = s;
        jumps = stay;
        after = s';
        returns = runs ∙ ap done (back off s' near);
        at = rw one h';
      }

  pub fib_call :
      (base : Machine) (pc n old : ℕ) (off : ℤ) (xs : List ℕ) (s : Machine)
      → InFixRange off
      → At (registers (fix (pos n)) old base) pc (fix off ∷ xs) s
      → fib n ≤ 4095
      → length xs + 2 * n + 1 ≤ base.process.stack.len
      → IsCalledFor offsets code base pc n off xs s
  fib_call base pc zero old off xs s near h small room =
      call_small base pc 0 old off xs s near h (omega arith) refl
  fib_call base pc (suc zero) old off xs s near h small room =
      call_small base pc 1 old off xs s near h (omega arith) refl
  fib_call base pc (suc (suc n)) old off xs s near h small room =
      let block = registers_block offsets code in
      let off1 = offsets.with_registers_ret_1 in
      let off2 = offsets.with_registers_ret_2 in
      let in_range : suc (suc n) ≤ 4095 = omega (arith, le-fib (suc (suc n))) in
      let below = fix off ∷ xs in
      let first = fix (pos (fib (suc n))) in
      let (s1, to_first, h1) = entry_large offsets code base n old s h in_range (omega arith) in
      let c1 =
        fib_call base pc (suc n) old off1 (fix (pos (suc n)) ∷ below) s1 labels.near_1 h1
          (omega arith) (omega arith) in
      let back1 = c1.returns ∙ ap done (to_ret_1 c1.after) in
      let (s2, to_second, h2) =
        ret_1_lem offsets code base n first (fix off1) c1.after c1.at (omega arith) (omega arith) in
      let c2 =
        fib_call base pc n (fix (pos (suc n))) off2 (first ∷ below) s2 labels.near_2 h2
          (omega arith) (omega arith) in
      let back2 = c2.returns ∙ ap done (to_ret_2 c2.after) in
      let (s3, runs, h3) =
        ret_2_lem offsets code base (fib n) (fib (suc n)) (fib (suc (suc n))) (fix off2) (fix off)
          c2.after c2.at (omega arith) small (is_fixnum-fix off) in
      let r1 = c1.rounds in
      let r2 = c2.rounds in
      record {
        rounds = suc (r1 + suc (suc (r2 + 1)));
        count = omega (arith, c1.count, c2.count);
        label = RegistersLabel.ret_2;
        before = c2.after;
        jumps = jump to_first (
            trans-Jumps block c1.jumps
              (jump back1 (jump to_second (trans-Jumps block c2.jumps (jump back2 stay)))));
        after = s3;
        returns = runs ∙ ap done (back off s3 near);
        at = h3;
      }
