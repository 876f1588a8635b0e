-- ===== src/Machine/Ops/Branches.antt =====
-- Conditional branches. Their offsets are unsigned.
use lilyvm.Base.{ℕ, Bool, List, ◌==◌, if◌then◌else◌, pos, ltb_ℤ, leb_ℤ, signed16}
use lilyvm.Outcome.{Outcome, done, ◌>>=◌}
use lilyvm.Value.{fix, int, lt, fixnum_is_negative}
use lilyvm.Number.Scm.{scm_number_cmp}
use lilyvm.Machine.State.{Machine, with_process, advance, arg_b, arg_im}
use lilyvm.Machine.Stack.{pop, let_stack_ref, let_stack_last}

-- `pc += rel` if the test holds, and else over the operation's own bytes.
abbrev pub branch : Bool → Outcome ℕ → ℕ → Machine → Outcome Machine
branch test target size s =
    if test then (do rel ← target; done (advance rel s)) else done (advance size s)

module _ (code : List ℕ) (s : Machine) where
  unfoldable pub op_beq_im_rel16 : Outcome Machine
  unfolding pop arg_im
  op_beq_im_rel16 = do
    (x, s') ← pop s
    y ← arg_im code s' 1
    branch (x == y) (arg_im code s' 3) 5 s'

  unfoldable pub op_bpos_keep_rel16 : Outcome Machine
  unfolding let_stack_ref arg_im
  op_bpos_keep_rel16 = do
    x ← let_stack_ref s 0
    branch (ltb_ℤ (pos 0) (int x)) (arg_im code s 1) 3 s

  unfoldable pub op_bneg0_keep_rel16 : Outcome Machine
  unfolding let_stack_last arg_im
  op_bneg0_keep_rel16 = do
    x ← let_stack_last s
    branch (leb_ℤ (int x) (pos 0)) (arg_im code s 1) 3 s

  unfoldable pub op_bneg_keep_rel16 : Outcome Machine
  unfolding let_stack_last arg_im
  op_bneg_keep_rel16 = do x ← let_stack_last s; branch (fixnum_is_negative x) (arg_im code s 1) 3 s

  unfoldable pub op_bz_keep_rel16 : Outcome Machine
  unfolding let_stack_last arg_im
  op_bz_keep_rel16 = do x ← let_stack_last s; branch (x == fix (pos 0)) (arg_im code s 1) 3 s

  unfoldable pub op_bz_rel16 : Outcome Machine
  unfolding pop arg_im
  op_bz_rel16 = do (x, s') ← pop s; branch (x == fix (pos 0)) (arg_im code s' 1) 3 s'

  unfoldable pub op_cmpbr_keep_lt_im_rel8 : Outcome Machine
  unfolding let_stack_last arg_im arg_b scm_number_cmp
  op_cmpbr_keep_lt_im_rel8 = do
    x ← let_stack_last s
    y ← arg_im code s 1
    (order, p) ← scm_number_cmp s.process x y
    branch (order == lt) (arg_b code s 3) 4 (with_process p s)

  unfoldable pub op_cmpbr_a_lt_im_rel8 : Outcome Machine
  unfolding arg_im arg_b scm_number_cmp
  op_cmpbr_a_lt_im_rel8 = do
    y ← arg_im code s 1
    (order, p) ← scm_number_cmp s.process s.a y
    branch (order == lt) (arg_b code s 3) 4 (with_process p s)

  unfoldable pub op_cmpbr_n_lt_im_rel8 : Outcome Machine
  unfolding arg_im arg_b
  op_cmpbr_n_lt_im_rel8 = do
    y ← arg_im code s 1
    branch (ltb_ℤ (signed16 s.n) (signed16 y)) (arg_b code s 3) 4 s
