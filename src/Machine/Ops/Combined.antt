-- ===== src/Machine/Ops/Combined.antt =====
-- The combined operations.
use lilyvm.Base.{ℕ, ◌+◌, List}
use lilyvm.Outcome.{Outcome, done, ◌>>=◌, ◌>>◌}
use lilyvm.Value.{pcnum}
use lilyvm.Number.Scm.{scm_dec}
use lilyvm.Machine.State.{
  Machine, with_process, advance, arg_b, signed8, jump, store_all, restore_all,
}
use lilyvm.Machine.Stack.{swap, let_stack_last, ensure_has, alloc, unsafe_ref, unsafe_set}

module _ (code : List ℕ) (s : Machine) where
  unfoldable pub op_dec_then_dup : Outcome Machine
  unfolding alloc store_all unsafe_ref scm_dec unsafe_set restore_all
  op_dec_then_dup = do
    s1 ← alloc 1 s
    let saved = store_all s1
    v ← unsafe_ref saved 1
    (x, p) ← scm_dec saved.process v
    s2 ← unsafe_set 1 x (with_process p saved)
    s3 ← unsafe_set 0 x s2
    done (advance 1 (restore_all s3))

  unfoldable pub op_swap_then_dec : Outcome Machine
  unfolding swap let_stack_last store_all scm_dec unsafe_set restore_all
  op_swap_then_dec = do
    s1 ← swap s
    x ← let_stack_last s1
    let saved = store_all s1
    (y, p) ← scm_dec saved.process x
    s2 ← unsafe_set 0 y (with_process p saved)
    done (advance 1 (restore_all s2))

  unfoldable pub op_jsr_rel8_then_swap : Outcome Machine
  unfolding unsafe_ref unsafe_set alloc arg_b jump
  op_jsr_rel8_then_swap = do
    ensure_has 1 s
    x ← unsafe_ref s 0
    s1 ← unsafe_set 0 (pcnum (s.pc + 2)) s
    s2 ← alloc 1 s1
    s3 ← unsafe_set 0 x s2
    rel ← arg_b code s3 1
    jump s3 (signed8 rel)
