-- ===== src/Machine/Ops/Tests.antt =====
-- A call at the start of a code of two operations, and a frame with too little room.
use lilyvm.Base.{ℕ, ◌+ℤ◌, ◌≡◌, refl, arith, List, [], ◌∷◌}
use lilyvm.Base.{to_word, pos}
use lilyvm.Value.{fix}
use lilyvm.Machine.Stack.{let_stack_ref}
use lilyvm.Machine.Ops.Arith.{op_inc_at}
use lilyvm.Machine.Ops.Lost.{op_inc_at-contents}
use lilyvm.Outcome.{done, fault}
use lilyvm.Machine.State.{Machine}
use lilyvm.Machine.Stack.Contents.{contents, IsValid}
use lilyvm.Machine.Stack.Tests.{two_values, two_values-IsValid}
use lilyvm.Machine.Ops.Jumps.{op_jsr_rel8, op_ret, op_frame_jsr_rel8_2}
use lilyvm.Machine.Ops.Calls.{jsr-ret}
use lilyvm.Machine.Ops.Frames.{op_frame_jsr_rel8_2-fault}

abbrev code : List ℕ
code = 85 ∷ 3 ∷ 255 ∷ 86 ∷ []

jsr-ret_example :
    (s1 : Machine) × (op_jsr_rel8 code two_values ≡ done s1)
    × (s1.pc ≡ 3)
    × ((s2 : Machine)
        → IsValid s2
        → contents s2 ≡ contents s1
        → (s3 : Machine) × (op_ret code s2 ≡ done s3)
          × (s3.pc ≡ 2)
          × (contents s3 ≡ contents two_values))
unfolding ◌+ℤ◌
jsr-ret_example =
    jsr-ret code two_values 3 3 two_values-IsValid (omega arith) (omega arith) refl refl

op_frame_jsr_rel8_2-fault_example : op_frame_jsr_rel8_2 code two_values ≡ fault
op_frame_jsr_rel8_2-fault_example =
    op_frame_jsr_rel8_2-fault code two_values two_values-IsValid (omega arith) (omega arith)

op_inc_at-contents_example :
    (s' : Machine) × (op_inc_at (21 ∷ 0 ∷ []) two_values ≡ done s')
    × (s'.pc ≡ 2)
    × (contents s' ≡ contents two_values)
unfolding let_stack_ref fix to_word ◌+ℤ◌
op_inc_at-contents_example =
    op_inc_at-contents (21 ∷ 0 ∷ []) two_values 0 (pos 2) two_values-IsValid (omega arith) refl refl
      (ground arith) refl
