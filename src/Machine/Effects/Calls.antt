-- ===== src/Machine/Effects/Calls.antt =====
-- `JSR_REL8`, `RET_POP`, `RET_IM` and `RET`.
use lilyvm.Base.{ℕ, suc, ◌+◌, ◌^◌, ◌<◌, ◌≡◌, refl, ap, ◌∙◌, arith, List, ◌∷◌, length}
use lilyvm.Base.{leb, true, pos, ◌+ℤ◌}
use lilyvm.Value.{pcnum, pcnum_to_word}
use lilyvm.Value.Fixnum.{pcnum_to_word-pcnum}
use lilyvm.Machine.Op.{Op}
use lilyvm.Machine.State.{Machine, signed8, jump, set_pc}
use lilyvm.Machine.Stack.{sp_sub}
use lilyvm.Machine.Stack.Known.{
  sp-length, pop_known, push_known, unsafe_ref_known, collapse_known, IsAfter-IsAfter,
}
use lilyvm.Machine.Assembler.Reads.{plain, with_im, with_b}
use lilyvm.Machine.Run.{Native, exec}
use lilyvm.Machine.Ops.Jumps.{op_jsr_rel8, op_ret, op_ret_pop, op_ret_im}
use lilyvm.Machine.Effects.Moves.{Stands}
use lilyvm.Machine.Trace.{At-len, after-At, IsVerified, Leads, Leads-exec}

pub first : (xs : List ℕ) → 0 < suc (length xs)
first xs = omega arith

pub second : (xs : List ℕ) → 1 < suc (suc (length xs))
second xs = omega arith

-- A return address below 2 ^ 13 comes back.
pub return_address : (r : ℕ) → r < 2 ^ 13 → pcnum_to_word (pcnum r) ≡ r
return_address r h = pcnum_to_word-pcnum r ∙ omega arith

module _ (native : Native) (code : List ℕ) {base : Machine} (v : IsVerified base) (pc : ℕ) where
  pub jsr_rel8-Leads :
      (rel target : ℕ) {xs : List ℕ}
      → Stands (with_b Op.jsr_rel8 rel) pc code
      → pos pc +ℤ signed8 rel ≡ pos target
      → length xs < base.process.stack.len
      → Leads native code base pc xs base target (pcnum (pc + 2) ∷ xs)
  unfolding exec op_jsr_rel8 jump
  jsr_rel8-Leads rel target {xs} reads e room =
      Leads-exec native code v Op.jsr_rel8 (λ s f. (reads s f).0)
        (λ s h.
          let link = ap (λ i. pcnum (i + 2)) h.at in
          let (s1, runs, a) =
            push_known s h.valid (pcnum (s.pc + 2)) h.holds (omega (arith, At-len h)) in
          let at1 : s1.pc ≡ pc = ap (λ t. t.pc) a.frame ∙ h.at in
          (
            record s1 { pc = target },
            rw (runs, (reads s1 at1).1, at1, e) refl,
            after-At h
                (record {
                  valid = a.valid;
                  holds = a.holds ∙ ap (λ y. y ∷ xs) link;
                  frame = a.frame;
                })
                target refl,
          ))

  pub ret_pop-Leads :
      {x : ℕ} (r : ℕ) {xs : List ℕ}
      → Stands (plain Op.ret_pop) pc code
      → r < 2 ^ 13
      → Leads native code base pc (x ∷ pcnum r ∷ xs) base r (x ∷ xs)
  unfolding exec op_ret_pop
  ret_pop-Leads {x} r {xs} reads small =
      Leads-exec native code {xs = x ∷ pcnum r ∷ xs} v Op.ret_pop reads (λ s h.
        let two : leb 2 s.sp ≡ true = ground (arith, sp-length s h.valid h.holds) in
        let (s1, runs, a) = collapse_known s h.valid x h.holds in
        (
          set_pc (pcnum_to_word (pcnum r)) (sp_sub 1 s1),
          rw
              (
                two,
                unsafe_ref_known s h.valid 1 (pcnum r) h.holds refl (second xs),
                unsafe_ref_known s h.valid 0 x h.holds refl (first (pcnum r ∷ xs)),
                runs,
              )
              refl,
          after-At h a (pcnum_to_word (pcnum r)) (return_address r small),
        ))

  pub ret_im-Leads :
      (x r : ℕ) {xs : List ℕ}
      → Stands (with_im Op.ret_im x) pc code
      → r < 2 ^ 13
      → length xs < base.process.stack.len
      → Leads native code base pc (pcnum r ∷ xs) base r (x ∷ xs)
  unfolding exec op_ret_im
  ret_im-Leads x r reads small room =
      Leads-exec native code v Op.ret_im (λ s f. (reads s f).0)
        (λ s h.
          let (s1, popped, a) = pop_known s h.valid h.holds in
          let at1 : s1.pc ≡ pc = ap (λ t. t.pc) a.frame ∙ h.at in
          let len1 = ap (λ t. t.process.stack.len) a.frame in
          let (s2, pushed, a') = push_known s1 a.valid x a.holds (omega (arith, At-len h, len1)) in
          (
            set_pc (pcnum_to_word (pcnum r)) s2,
            rw (popped, (reads s1 at1).1, pushed) refl,
            after-At h (IsAfter-IsAfter a a') (pcnum_to_word (pcnum r)) (return_address r small),
          ))

  pub ret-Leads :
      (r : ℕ) {xs : List ℕ}
      → Stands (plain Op.ret) pc code
      → r < 2 ^ 13
      → Leads native code base pc (pcnum r ∷ xs) base r xs
  unfolding exec op_ret
  ret-Leads r reads small = Leads-exec native code v Op.ret reads (λ s h.
      let (s1, popped, a) = pop_known s h.valid h.holds in
      (
        set_pc (pcnum_to_word (pcnum r)) s1,
        rw popped refl,
        after-At h a (pcnum_to_word (pcnum r)) (return_address r small),
      ))
