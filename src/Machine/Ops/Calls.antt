-- ===== src/Machine/Ops/Calls.antt =====
-- `JSR_REL8` and `RET`: a call and its return.
use lilyvm.Base.{ℕ, ◌+◌, ◌^◌, ◌<◌, ◌≡◌, refl, ap, ◌∙◌, arith, List, ◌∷◌}
use lilyvm.Base.{get_elem?, some, pos, ◌+ℤ◌}
use lilyvm.Outcome.{done}
use lilyvm.Value.{pcnum, pcnum_to_word}
use lilyvm.Value.Fixnum.{pcnum_to_word-pcnum}
use lilyvm.Machine.State.{Machine, arg_b, signed8, jump, set_pc}
use lilyvm.Machine.Stack.Contents.{contents, IsValid}
use lilyvm.Machine.Stack.Known.{sp-length, pop_known, push_known}
use lilyvm.Machine.Ops.Jumps.{op_jsr_rel8, op_ret}

module _ (code : List ℕ) (s : Machine) (valid : IsValid s) where
  -- `RET` with a return address on the top: it goes there and drops it.
  ret_lem :
      (r : ℕ) (xs : List ℕ)
      → contents s ≡ pcnum r ∷ xs
      → r < 2 ^ 13
      → (s' : Machine) × (op_ret code s ≡ done s') × (s'.pc ≡ r) × (contents s' ≡ xs)
  unfolding op_ret
  ret_lem r xs top small =
      let (s1, popped, after) = pop_known s valid top in
      (
        set_pc (pcnum_to_word (pcnum r)) s1,
        rw popped refl,
        pcnum_to_word-pcnum r ∙ omega arith,
        after.holds,
      )

  -- `JSR_REL8` with room on the stack, towards an address in the code.
  jsr_lem :
      (rel target : ℕ)
      → s.sp < s.process.stack.len
      → get_elem? code (s.pc + 1) ≡ some rel
      → pos s.pc +ℤ signed8 rel ≡ pos target
      → (s' : Machine) × (op_jsr_rel8 code s ≡ done s')
        × (s'.pc ≡ target)
        × IsValid s'
        × (contents s' ≡ pcnum (s.pc + 2) ∷ contents s)
  unfolding op_jsr_rel8 arg_b jump
  jsr_lem rel target room byte e =
      let (s1, pushed, after) =
        push_known s valid (pcnum (s.pc + 2)) refl (omega (arith, sp-length s valid refl)) in
      let same_pc : s1.pc ≡ s.pc = ap (λ q. q.pc) after.frame in
      (
        record s1 { pc = target },
        rw (pushed, same_pc, byte, e) refl,
        refl,
        record {
          full = after.valid.full;
          within = after.valid.within;
          narrow = after.valid.narrow;
        },
        after.holds,
      )

-- A call with room on the stack, from an address whose successor fits a program counter, to an
-- address in the code: `JSR_REL8` jumps there, and once the callee has brought the stack back to
-- what it found, `RET` goes behind the call with the stack of before the call.
pub jsr-ret :
    (code : List ℕ) (s : Machine) (rel target : ℕ)
    → IsValid s
    → s.sp < s.process.stack.len
    → s.pc + 2 < 2 ^ 13
    → get_elem? code (s.pc + 1) ≡ some rel
    → pos s.pc +ℤ signed8 rel ≡ pos target
    → (s1 : Machine) × (op_jsr_rel8 code s ≡ done s1)
      × (s1.pc ≡ target)
      × ((s2 : Machine)
          → IsValid s2
          → contents s2 ≡ contents s1
          → (s3 : Machine) × (op_ret code s2 ≡ done s3)
            × (s3.pc ≡ s.pc + 2)
            × (contents s3 ≡ contents s))
jsr-ret code s rel target valid room small byte e =
    let (s1, called, at, valid1, top) = jsr_lem code s valid rel target room byte e in
    (
      s1,
      called,
      at,
      λ s2 valid2 same. ret_lem code s2 valid2 (s.pc + 2) (contents s) (same ∙ top) small,
    )
