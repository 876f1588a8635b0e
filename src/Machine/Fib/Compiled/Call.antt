-- ===== src/Machine/Fib/Compiled/Call.antt =====
-- A call within the operation `fib`, and the operation.
use lilyvm.Base.{ℕ, zero, suc, ◌+◌, ◌*◌, ◌≤◌, ◌≡◌, ◌≢◌, refl, ap, ◌∙◌, arith, List, ◌∷◌, length}
use lilyvm.Base.{true, false, pos, eqb_ℤ, ℤ}
use lilyvm.Outcome.{done}
use lilyvm.Value.{fix}
use lilyvm.Value.Fixnum.{InFixRange, is_fixnum-fix, int-fix}
use lilyvm.Machine.State.{Machine}
use lilyvm.Machine.Ops.Fib.{Offsets, goto, FibLabel, fib_entry, fib_block, fib_return, fib_goto}
use lilyvm.Machine.Effects.Registers.{with_n}
use lilyvm.Machine.Trace.{At}
use lilyvm.Machine.Fib.{fib, le-fib}
use lilyvm.Machine.Fib.Compiled.{
  Jumps, stay, jump, trans-Jumps, fib_entry_small, fib_entry_large, fib_ret_1_lem, fib_ret_2_lem,
}

-- The labels have addresses of their own, near enough for a fixnum.
pub record AreLabels (offsets : Offsets) : Type 0 where
  pub near_1 : InFixRange offsets.fib_ret_1
  pub near_2 : InFixRange offsets.fib_ret_2
  pub apart : offsets.fib_ret_2 ≢ offsets.fib_ret_1

pub eqb_same : (x : ℤ) → eqb_ℤ x x ≡ true
eqb_same x = ground arith

pub eqb_apart : (x y : ℤ) → x ≢ y → eqb_ℤ x y ≡ false
eqb_apart x y h = ground arith

-- What a call leaves in the register N: a number below 2 returns without it.
abbrev pub left_in_n : ℕ → ℕ → ℕ → ℕ
left_in_n zero ret register = register
left_in_n (suc zero) ret register = register
left_in_n (suc (suc n)) ret register = ret

-- From the entry to the block that returns: the argument's Fibonacci number instead of it and of
-- the return address.
pub record IsCalled (offsets : Offsets) (base : Machine) (pc n ret register : ℕ) (xs : List ℕ)
    (s : Machine) : Type 0 where
  pub rounds : ℕ
  pub count : rounds + 4 ≡ 4 * fib n
  pub label : FibLabel
  pub before : Machine
  pub jumps : Jumps (fib_block offsets) rounds fib_entry s label before
  pub after : Machine
  pub returns : fib_block offsets label before ≡ done (fib_return offsets ret after)
  pub at : At (with_n (left_in_n n ret register) base) pc (fix (pos (fib n)) ∷ xs) after

module _ (offsets : Offsets) (labels : AreLabels offsets) where
  to_ret_1 : (s : Machine) → fib_return offsets (fix offsets.fib_ret_1) s ≡ goto FibLabel.ret_1 s
  unfolding fib_return fib_goto
  to_ret_1 s =
      let off = offsets.fib_ret_1 in
      rw (is_fixnum-fix off, int-fix off labels.near_1, eqb_same off) refl

  to_ret_2 : (s : Machine) → fib_return offsets (fix offsets.fib_ret_2) s ≡ goto FibLabel.ret_2 s
  unfolding fib_return fib_goto
  to_ret_2 s =
      let off = offsets.fib_ret_2 in
      rw
        (
          is_fixnum-fix off,
          int-fix off labels.near_2,
          eqb_apart off offsets.fib_ret_1 labels.apart,
          eqb_same off,
        )
        refl

  pub fib_call :
      (base : Machine) (pc n ret register : ℕ) (xs : List ℕ) (s : Machine)
      → At (with_n register base) pc (ret ∷ fix (pos n) ∷ xs) s
      → fib n ≤ 4095
      → length xs + 2 * n + 2 ≤ base.process.stack.len
      → IsCalled offsets base pc n ret register xs s
  fib_call base pc zero ret register xs s h small room =
      let (s', runs, h') = fib_entry_small offsets 0 ret s h (omega arith) in
      record {
        rounds = 0;
        count = refl;
        label = fib_entry;
        before = s;
        jumps = stay;
        after = s';
        returns = runs;
        at = h';
      }
  fib_call base pc (suc zero) ret register xs s h small room =
      let (s', runs, h') = fib_entry_small offsets 1 ret s h (omega arith) in
      record {
        rounds = 0;
        count = refl;
        label = fib_entry;
        before = s;
        jumps = stay;
        after = s';
        returns = runs;
        at = h';
      }
  fib_call base pc (suc (suc n)) ret register xs s h small room =
      let in_range : suc (suc n) ≤ 4095 = omega (arith, le-fib (suc (suc n))) in
      let (s1, to_first, h1) = fib_entry_large offsets n ret s h in_range (omega arith) in
      let register' = left_in_n (suc n) (fix offsets.fib_ret_1) register in
      let c1 =
        fib_call base pc (suc n) (fix offsets.fib_ret_1) register (fix (pos (suc n)) ∷ ret ∷ xs) s1
          h1 (omega arith) (omega arith) in
      let back1 = c1.returns ∙ ap done (to_ret_1 c1.after) in
      let (s2, to_second, h2) =
        fib_ret_1_lem offsets n (fix (pos (fib (suc n)))) c1.after c1.at (omega arith)
          (omega arith) in
      let c2 =
        fib_call base pc n (fix offsets.fib_ret_2) register' (fix (pos (fib (suc n))) ∷ ret ∷ xs) s2
          h2 (omega arith) (omega arith) in
      let back2 = c2.returns ∙ ap done (to_ret_2 c2.after) in
      let (s3, runs, h3) = fib_ret_2_lem offsets (fib (suc n)) (fib n) ret c2.after c2.at small in
      let block = fib_block offsets in
      let r1 = c1.rounds in
      let r2 = c2.rounds in
      record {
        rounds = suc (r1 + suc (suc (r2 + 1)));
        count = omega (arith, c1.count, c2.count);
        label = FibLabel.ret_2;
        before = c2.after;
        jumps = jump to_first (
            trans-Jumps block c1.jumps
              (jump back1 (jump to_second (trans-Jumps block c2.jumps (jump back2 stay)))));
        after = s3;
        returns = runs;
        at = h3;
      }
