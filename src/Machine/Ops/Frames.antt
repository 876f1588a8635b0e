-- ===== src/Machine/Ops/Frames.antt =====
-- The frames that `FRAME_JSR_REL8_2` makes: three values with one test.
use lilyvm.Base.{ℕ, ◌+◌, ◌-◌, ◌%◌, ◌^◌, ◌<◌, ◌≡◌, refl, arith, List, length, ltb, true, false}
use lilyvm.Outcome.{fault}
use lilyvm.Machine.State.{Machine}
use lilyvm.Machine.Stack.{ensure_free, unsafe_set, vals_of}
use lilyvm.Machine.Stack.Contents.{IsValid}
use lilyvm.Machine.Ops.Jumps.{op_frame_jsr_rel8_2}

-- With room for exactly two values on a valid stack whose bound is below 65535, the test of
-- `STACK_ENSURE_FREE(3)` passes and the operation writes behind the stack's array.
pub op_frame_jsr_rel8_2-fault :
    (code : List ℕ) (s : Machine)
    → IsValid s
    → s.sp + 2 ≡ s.process.stack.len
    → s.process.stack.len + 1 < 2 ^ 16
    → op_frame_jsr_rel8_2 code s ≡ fault
unfolding op_frame_jsr_rel8_2 ensure_free unsafe_set
op_frame_jsr_rel8_2-fault code s valid two narrow =
    let passes : ltb (s.sp + 1) s.process.stack.len ≡ true = ground arith in
    let raised : (s.sp + 3) % 2 ^ 16 ≡ s.sp + 3 = omega arith in
    let some : ltb 0 (s.sp + 3) ≡ true = ground arith in
    let outside : ltb (s.sp + 3 - 1 - 0) (length (vals_of s)) ≡ false =
      ground (arith, valid.full) in
    rw (passes, raised, some, outside) refl
