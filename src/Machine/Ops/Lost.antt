-- ===== src/Machine/Ops/Lost.antt =====
-- The push of `inc_`, between `STORE_ALL` and `RESTORE_ALL`.
use lilyvm.Base.{
  ℕ, ◌+◌, ◌<◌, ◌≡◌, refl, arith, List, length, get_elem?, set, some, ltb, lt→ltb, true,
}
use lilyvm.Base.{ℤ, pos, ◌+ℤ◌}
use lilyvm.Outcome.{done}
use lilyvm.Value.{fix, is_in_fix_range}
use lilyvm.Value.Fixnum.{InFixRange, is_fixnum-fix, int-fix}
use lilyvm.Process.{VmProcess}
use lilyvm.Number.Dispatch.{do_scm_step}
use lilyvm.Number.Scm.{scm_inc}
use lilyvm.Number.Add.{small_lem, fixaddint-sum}
use lilyvm.Machine.State.{Machine, advance, arg_b, store_all, restore_all}
use lilyvm.Machine.Stack.{vals_of, with_vals, sp_add, push, let_stack_ref}
use lilyvm.Machine.Stack.Contents.{contents, IsValid, tops-set_above}
use lilyvm.Machine.Ops.Arith.{op_inc_at}

scm_inc-fix :
    (p : VmProcess) (n : ℤ)
    → InFixRange n
    → is_in_fix_range (n +ℤ pos 1) ≡ true
    → scm_inc p (fix n) ≡ done (fix (n +ℤ pos 1), p)
unfolding scm_inc do_scm_step
scm_inc-fix p n h small =
    rw (is_fixnum-fix n, int-fix n h)
      (small_lem p (n +ℤ pos 1) small (fixaddint-sum n (pos 1) h (ground arith)))

-- On a valid stack with room, `inc_` of a fixnum whose successor is a fixnum ends with the stack
-- as it was: the value that it pushes is lost.
pub op_inc_at-contents :
    (code : List ℕ) (s : Machine) (i : ℕ) (n : ℤ)
    → IsValid s
    → s.sp < s.process.stack.len
    → get_elem? code (s.pc + 1) ≡ some i
    → let_stack_ref s i ≡ done (fix n)
    → InFixRange n
    → is_in_fix_range (n +ℤ pos 1) ≡ true
    → (s' : Machine) × (op_inc_at code s ≡ done s')
      × (s'.pc ≡ s.pc + 2)
      × (contents s' ≡ contents s)
unfolding op_inc_at arg_b store_all restore_all push
op_inc_at-contents code s i n valid room byte item h small =
    let y = fix (n +ℤ pos 1) in
    let fits : ltb s.sp s.process.stack.len ≡ true = ground arith in
    let there : ltb s.sp (length (vals_of s)) ≡ true =
      lt→ltb s.sp (length (vals_of s)) (omega (arith, valid.full)) in
    (
      advance 2 (restore_all (sp_add 1 (with_vals (set (vals_of s) s.sp y) (store_all s)))),
      rw (byte, item, scm_inc-fix (store_all s).process n h small, fits, there) refl,
      refl,
      tops-set_above s.sp (vals_of s) s.sp y (omega arith),
    )
