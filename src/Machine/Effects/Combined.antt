-- ===== src/Machine/Effects/Combined.antt =====
-- `DEC__DUP`, `SWAP__DEC` and `JSR_REL8__SWAP`.
use lilyvm.Base.{ℕ, suc, ◌+◌, ◌≤◌, ◌<◌, ◌≡◌, refl, ap, ◌∙◌, arith, List, ◌∷◌, length}
use lilyvm.Base.{leb, true, pos, ◌+ℤ◌}
use lilyvm.Value.{fix, pcnum}
use lilyvm.Machine.Op.{Op}
use lilyvm.Machine.State.{Machine, store_all, restore_all, advance, signed8, jump}
use lilyvm.Machine.Stack.{sp_add}
use lilyvm.Machine.Stack.Known.{
  sp-length, swap_known, let_stack_last_known, unsafe_ref_known, overwrite, unsafe_set-overwrite,
  alloc_known,
}
use lilyvm.Machine.Assembler.Reads.{plain, with_b}
use lilyvm.Machine.Run.{Native, exec}
use lilyvm.Machine.Ops.Combined.{op_dec_then_dup, op_swap_then_dec, op_jsr_rel8_then_swap}
use lilyvm.Machine.Effects.Moves.{Stands, advance-At}
use lilyvm.Machine.Effects.Calls.{first, second}
use lilyvm.Machine.Effects.Numbers.{scm_dec_small, stored-At}
use lilyvm.Machine.Trace.{At-len, stay-At, after-At, IsVerified, Leads, Leads-exec}

module _ (native : Native) (code : List ℕ) {base : Machine} (v : IsVerified base) (pc : ℕ) where
  pub swap_then_dec-Leads :
      (n : ℕ) {x : ℕ} {xs : List ℕ}
      → Stands (plain Op.swap_then_dec) pc code
      → suc n ≤ 4095
      → Leads native code base pc (x ∷ fix (pos (suc n)) ∷ xs) base (pc + 1) (fix (pos n) ∷ x ∷ xs)
  unfolding exec op_swap_then_dec store_all restore_all
  swap_then_dec-Leads n {x} {xs} reads small =
      Leads-exec native code {xs = x ∷ fix (pos (suc n)) ∷ xs} v Op.swap_then_dec reads (λ s h.
        let y = fix (pos n) in
        let (s1, swapped, a) = swap_known s h.valid h.holds in
        let h1 = stored-At (stay-At h a) in
        let saved = store_all s1 in
        let (set, a') = unsafe_set-overwrite saved h1.valid 0 y h1.holds (first (x ∷ xs)) in
        (
          advance 1 (overwrite 0 y saved),
          rw
              (
                swapped,
                let_stack_last_known s1 a.valid a.holds,
                scm_dec_small saved.process n small,
                set,
              )
              refl,
          advance-At 1 h1 a',
        ))

  pub dec_then_dup-Leads :
      (n : ℕ) {xs : List ℕ}
      → Stands (plain Op.dec_then_dup) pc code
      → suc n ≤ 4095
      → suc (length xs) < base.process.stack.len
      → Leads native code base pc
          (fix (pos (suc n)) ∷ xs)
          base
          (pc + 1)
          (fix (pos n) ∷ fix (pos n) ∷ xs)
  unfolding exec op_dec_then_dup store_all restore_all
  dec_then_dup-Leads n {xs} reads small room =
      Leads-exec native code {xs = fix (pos (suc n)) ∷ xs} v Op.dec_then_dup reads (λ s h.
        let y = fix (pos n) in
        let (old, made, a) = alloc_known s h.valid h.holds (omega (arith, At-len h)) in
        let h1 = stored-At (stay-At h a) in
        let saved = store_all (sp_add 1 s) in
        let (set1, a1) = unsafe_set-overwrite saved h1.valid 1 y h1.holds (second xs) in
        let h2 = stay-At h1 a1 in
        let s2 = overwrite 1 y saved in
        let (set0, a0) = unsafe_set-overwrite s2 h2.valid 0 y h2.holds (first (y ∷ xs)) in
        (
          advance 1 (overwrite 0 y s2),
          rw
              (
                made,
                unsafe_ref_known saved h1.valid 1 (fix (pos (suc n))) h1.holds refl (second xs),
                scm_dec_small saved.process n small,
                set1,
                set0,
              )
              refl,
          advance-At 1 h2 a0,
        ))

  pub jsr_rel8_then_swap-Leads :
      (rel target : ℕ) {x : ℕ} {xs : List ℕ}
      → Stands (with_b Op.jsr_rel8_then_swap rel) pc code
      → pos pc +ℤ signed8 rel ≡ pos target
      → suc (length xs) < base.process.stack.len
      → Leads native code base pc (x ∷ xs) base target (x ∷ pcnum (pc + 2) ∷ xs)
  unfolding exec op_jsr_rel8_then_swap jump
  jsr_rel8_then_swap-Leads rel target {x} {xs} reads e room =
      Leads-exec native code {xs = x ∷ xs} v Op.jsr_rel8_then_swap (λ s f. (reads s f).0)
        (λ s h.
          let one : leb 1 s.sp ≡ true = ground (arith, sp-length s h.valid h.holds) in
          let r = pcnum (s.pc + 2) in
          let (set1, a1) = unsafe_set-overwrite s h.valid 0 r h.holds (first xs) in
          let s1 = overwrite 0 r s in
          let (old, made, a2) = alloc_known s1 a1.valid a1.holds (omega (arith, At-len h)) in
          let s2 = sp_add 1 s1 in
          let (set2, a3) = unsafe_set-overwrite s2 a2.valid 0 x a2.holds (first (r ∷ xs)) in
          let s3 = overwrite 0 x s2 in
          let link = ap (λ i. x ∷ pcnum (i + 2) ∷ xs) h.at in
          (
            record s3 { pc = target },
            rw
                (
                  one,
                  unsafe_ref_known s h.valid 0 x h.holds refl (first xs),
                  set1,
                  made,
                  set2,
                  (reads s h.at).1,
                  h.at,
                  e,
                )
                refl,
            after-At h
                (record {
                  valid = a3.valid;
                  holds = a3.holds ∙ link;
                  frame = a3.frame ∙ a2.frame ∙ a1.frame;
                })
                target refl,
          ))
