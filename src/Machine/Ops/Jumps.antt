-- ===== src/Machine/Ops/Jumps.antt =====
-- Jumps, calls and returns. A return address is a `PCNUM`, which holds 13 bits of the offset.
use lilyvm.Base.{ℕ, ◌+◌, List, signed16}
use lilyvm.Outcome.{Outcome, done, ◌>>=◌, ◌>>◌}
use lilyvm.Value.{pcnum, pcnum_to_word, uninitialized}
use lilyvm.Machine.State.{Machine, arg_b, arg_im, signed8, jump, set_pc}
use lilyvm.Machine.Stack.{push, pop, ensure_has, ensure_free, unsafe_ref, unsafe_set, unsafe_remove}
use lilyvm.Machine.Stack.{sp_add, sp_sub}

module _ (code : List ℕ) (s : Machine) where
  unfoldable pub op_jmp_rel8 : Outcome Machine
  unfolding arg_b jump
  op_jmp_rel8 = do rel ← arg_b code s 1; jump s (signed8 rel)

  unfoldable pub op_jmp_rel16 : Outcome Machine
  unfolding arg_im jump
  op_jmp_rel16 = do rel ← arg_im code s 1; jump s (signed16 rel)

  unfoldable pub op_jsr_rel8 : Outcome Machine
  unfolding arg_b push jump
  op_jsr_rel8 = do s' ← push (pcnum (s.pc + 2)) s; rel ← arg_b code s' 1; jump s' (signed8 rel)

  unfoldable pub op_frame_jsr_rel8_1 : Outcome Machine
  unfolding arg_b ensure_free unsafe_set jump
  op_frame_jsr_rel8_1 = do
    ensure_free 2 s
    s1 ← unsafe_set 0 (pcnum (s.pc + 2)) (sp_add 2 s)
    s2 ← unsafe_set 1 uninitialized s1
    rel ← arg_b code s2 1
    jump s2 (signed8 rel)

  unfoldable pub op_frame_jsr_rel8_2 : Outcome Machine
  unfolding arg_b ensure_free unsafe_set jump
  op_frame_jsr_rel8_2 = do
    ensure_free 3 s
    s1 ← unsafe_set 0 (pcnum (s.pc + 2)) (sp_add 3 s)
    s2 ← unsafe_set 1 uninitialized s1
    s3 ← unsafe_set 2 uninitialized s2
    rel ← arg_b code s3 1
    jump s3 (signed8 rel)

  unfoldable pub op_ret : Outcome Machine
  unfolding pop
  op_ret = do (origpc, s') ← pop s; done (set_pc (pcnum_to_word origpc) s')

  unfoldable pub op_unsafe_frame_ret : Outcome Machine
  unfolding arg_b unsafe_ref
  op_unsafe_frame_ret = do
    arg1 ← arg_b code s 1
    origpc ← unsafe_ref s 0
    done (sp_sub arg1 (set_pc (pcnum_to_word origpc) s))

  -- The immediate is read before `pc` changes.
  unfoldable pub op_ret_im : Outcome Machine
  unfolding pop arg_im push
  op_ret_im = do
    (origpc, s1) ← pop s
    x ← arg_im code s1 1
    s2 ← push x s1
    done (set_pc (pcnum_to_word origpc) s2)

  unfoldable pub op_ret_pop : Outcome Machine
  unfolding unsafe_ref unsafe_set
  op_ret_pop = do
    ensure_has 2 s
    origpc ← unsafe_ref s 1
    v ← unsafe_ref s 0
    s' ← unsafe_set 1 v s
    done (set_pc (pcnum_to_word origpc) (unsafe_remove 1 s'))
