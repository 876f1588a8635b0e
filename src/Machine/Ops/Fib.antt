-- ===== src/Machine/Ops/Fib.antt =====
-- The operations `fib` and `fib_with_registers`, which are whole programs: they jump between labels
-- of their own, and to return addresses that are fixnums, offsets of a label from the entry. These
-- offsets are the C compiler's, and so parameters.
use lilyvm.Base.{ℕ, zero, suc, List, ◌==◌, if◌then◌else◌, ℤ, pos, eqb_ℤ}
use lilyvm.Outcome.{Outcome, done, hangs, ◌>>=◌, ◌>>◌}
use lilyvm.Value.{fix, int, lt, is_fixnum, pcnum_to_word}
use lilyvm.Number.Scm.{scm_dec, scm_add, scm_number_cmp}
use lilyvm.Machine.State.{Machine, with_process, set_pc}
use lilyvm.Machine.Stack.{
  push, pop, let_stack_last, drop1, swap, alloc, ensure_has, unsafe_ref, unsafe_set, unsafe_remove,
}
use lilyvm.Machine.Ops.Arith.{dec_except_a, add_except_a}
use lilyvm.Machine.Ops.Jumps.{op_ret}

-- `(uintptr_t)&&label - (uintptr_t)&&entry` for the labels of the two operations.
pub record Offsets : Type 0 where
  pub fib_ret_1 : ℤ
  pub fib_ret_2 : ℤ
  pub end_calling_conventions : ℤ
  pub with_registers_ret_1 : ℤ
  pub with_registers_ret_2 : ℤ

-- Where an operation leaves: to the next operation, or to the address that lies so many bytes
-- behind its entry and is no label of its own.
pub data Departure : Type 0 where
  dispatch : Machine → Departure
  away : ℤ → Machine → Departure

-- Where a block of code goes.
pub data Way (L : Type 0) : Type 0 where
  goto : L → Machine → Way L
  leave : Departure → Way L

-- Blocks one after the other, at most so many.
unfoldable pub blocks :
    {L : Type 0} → (L → Machine → Outcome (Way L)) → ℕ → L → Machine → Outcome Departure
blocks block zero label s = hangs
blocks block (suc rounds) label s = do
  exit ← block label s
  elim exit [ goto label' s' ↦ blocks block rounds label' s' | leave departure ↦ done departure ]

pub data FibLabel : Type 0 where
  fib_entry ret_1 ret_2 : FibLabel

pub data RegistersLabel : Type 0 where
  start_calling_conventions end_calling_conventions entry ret_1 ret_2 : RegistersLabel

module _ (offsets : Offsets) where
  -- `goto *(&&fib_entry + offset)`
  unfoldable pub fib_goto : ℤ → Machine → Way FibLabel
  fib_goto offset s =
      if eqb_ℤ offset offsets.fib_ret_1
      then goto FibLabel.ret_1 s
      else (if eqb_ℤ offset offsets.fib_ret_2
          then goto FibLabel.ret_2 s
          else (if eqb_ℤ offset (pos 0) then goto fib_entry s else leave (away offset s)))

  -- A return, to a label or to the byte code.
  unfoldable pub fib_return : ℕ → Machine → Way FibLabel
  unfolding fib_goto
  fib_return origpc s =
      if is_fixnum origpc
      then fib_goto (int origpc) s
      else leave (dispatch (set_pc (pcnum_to_word origpc) s))

  unfoldable pub fib_block : FibLabel → Machine → Outcome (Way FibLabel)
  unfolding swap let_stack_last scm_number_cmp drop1 pop push fib_return alloc unsafe_ref scm_dec
      unsafe_set scm_add
  fib_block fib_entry s = do
    s1 ← swap s
    x ← let_stack_last s1
    (order, p) ← scm_number_cmp s1.process x (fix (pos 2))
    let s2 = with_process p s1
    let small : Outcome (Way FibLabel) = (do
      s3 ← drop1 s2
      (origpc, s4) ← pop s3
      s5 ← push (fix (pos 1)) s4
      done (fib_return origpc s5))
    let recurs : Outcome (Way FibLabel) = (do
      s3 ← alloc 1 s2
      v ← unsafe_ref s3 1
      (y, p') ← scm_dec s3.process v
      s4 ← unsafe_set 1 y (with_process p' s3)
      s5 ← unsafe_set 0 y s4
      s6 ← push (fix offsets.fib_ret_1) s5
      done (goto fib_entry s6))
    if order == lt then small else recurs
  fib_block FibLabel.ret_1 s = do
    s1 ← swap s
    x ← let_stack_last s1
    (y, p) ← scm_dec s1.process x
    s2 ← unsafe_set 0 y (with_process p s1)
    s3 ← push (fix offsets.fib_ret_2) s2
    done (goto fib_entry s3)
  -- The macro `origpc` is the register N.
  fib_block FibLabel.ret_2 s = do
    ensure_has 2 s
    x ← unsafe_ref s 1
    y ← unsafe_ref s 0
    (sum, p) ← scm_add s.process x y
    s1 ← unsafe_set 1 sum (with_process p s)
    let s2 = unsafe_remove 1 s1
    ensure_has 2 s2
    origpc ← unsafe_ref s2 1
    v ← unsafe_ref s2 0
    s3 ← unsafe_set 1 v (record s2 { n = origpc })
    done (fib_return origpc (unsafe_remove 1 s3))

  unfoldable pub op_fib : ℕ → Machine → Outcome Departure
  unfolding blocks fib_block
  op_fib rounds s = blocks fib_block rounds fib_entry s

  -- `goto *(&&fib_with_registers_entry + offset)`
  unfoldable pub registers_goto : ℤ → Machine → Way RegistersLabel
  registers_goto offset s =
      if eqb_ℤ offset offsets.with_registers_ret_1
      then goto RegistersLabel.ret_1 s
      else (if eqb_ℤ offset offsets.with_registers_ret_2
          then goto RegistersLabel.ret_2 s
          else (if eqb_ℤ offset offsets.end_calling_conventions
              then goto RegistersLabel.end_calling_conventions s
              else (if eqb_ℤ offset (pos 0) then goto entry s else leave (away offset s))))

  unfoldable pub registers_block : List ℕ → RegistersLabel → Machine → Outcome (Way RegistersLabel)
  unfolding swap pop push op_ret scm_number_cmp unsafe_ref registers_goto dec_except_a unsafe_set
      add_except_a
  registers_block code start_calling_conventions s = do
    s1 ← swap s
    (n, s2) ← pop s1
    s3 ← push (fix offsets.end_calling_conventions) (record s2 { a = n })
    done (goto entry s3)
  registers_block code RegistersLabel.end_calling_conventions s = do
    s1 ← push s.a s
    s2 ← swap s1
    s3 ← op_ret code s2
    done (leave (dispatch s3))
  registers_block code entry s = do
    (order, p) ← scm_number_cmp s.process s.a (fix (pos 2))
    let s1 = with_process p s
    let small : Outcome (Way RegistersLabel) = (do
      origpc ← unsafe_ref s1 0
      let s2 = unsafe_remove 1 (record s1 { n = origpc })
      done (registers_goto (int origpc) (record s2 { a = fix (pos 1) })))
    let recurs : Outcome (Way RegistersLabel) = (do
      (y, s2) ← dec_except_a s1 s1.a
      s3 ← push y (record s2 { a = y })
      s4 ← push (fix offsets.with_registers_ret_1) s3
      done (goto entry s4))
    if order == lt then small else recurs
  registers_block code RegistersLabel.ret_1 s = do
    oldx ← unsafe_ref s 0
    s1 ← unsafe_set 0 s.a (record s { n = oldx })
    (y, s2) ← dec_except_a s1 oldx
    s3 ← push (fix offsets.with_registers_ret_2) (record s2 { a = y })
    done (goto entry s3)
  registers_block code RegistersLabel.ret_2 s = do
    y ← unsafe_ref s 0
    (sum, s1) ← add_except_a s s.a y
    let s2 = unsafe_remove 1 (record s1 { a = sum })
    origpc ← unsafe_ref s2 0
    let s3 = unsafe_remove 1 (record s2 { n = origpc })
    done (
        if is_fixnum origpc
        then registers_goto (int origpc) s3
        else leave (dispatch (set_pc (pcnum_to_word origpc) s3)))

  unfoldable pub op_fib_with_registers : List ℕ → ℕ → Machine → Outcome Departure
  unfolding blocks registers_block
  op_fib_with_registers code rounds s =
      blocks (registers_block code) rounds start_calling_conventions s
