-- ===== src/Machine/Effects/Frames.antt =====
-- `FRAME_JSR_REL8_1`, `UNSAFE_FRAME_RET` and the operations on the slot of such a frame.
use lilyvm.Base.{
  ℕ, suc, ◌+◌, ◌-◌, ◌%◌, ◌^◌, ◌≤◌, ◌<◌, ◌≡◌, refl, ap, ◌∙◌, arith, List, [], ◌∷◌, length,
}
use lilyvm.Base.{ltb, true, pos, ◌+ℤ◌, get_or, sym}
use lilyvm.Outcome.{done}
use lilyvm.Value.{fix, pcnum, pcnum_to_word, uninitialized}
use lilyvm.Machine.Op.{Op}
use lilyvm.Machine.State.{
  Machine, signed8, jump, set_pc, advance, with_process, store_except_a, restore_except_a,
}
use lilyvm.Machine.Stack.{sp_add, sp_sub, vals_of, ensure_free}
use lilyvm.Machine.Stack.Contents.{tops, contents, IsValid, IsAfter}
use lilyvm.Machine.Stack.Refinement.{after}
use lilyvm.Machine.Stack.Known.{
  sp-length, unsafe_ref_known, overwrite, unsafe_set-overwrite, holding,
}
use lilyvm.Machine.Assembler.Reads.{with_b}
use lilyvm.Machine.Run.{Native, exec}
use lilyvm.Machine.Ops.Jumps.{op_frame_jsr_rel8_1, op_unsafe_frame_ret}
use lilyvm.Machine.Ops.Moves.{op_unsafe_st, op_unsafe_st_n_fix, op_unsafe_ld_n_int, fix_word}
use lilyvm.Machine.Ops.Arith.{op_unsafe_add_a_at, add_except_a}
use lilyvm.Machine.Effects.Moves.{Stands, advance-At}
use lilyvm.Machine.Effects.Calls.{first, second, return_address}
use lilyvm.Machine.Effects.Numbers.{do_scm_add_small}
use lilyvm.Machine.Effects.Registers.{with_a, with_a-At, with_n, with_n-At, At-a, still}
use lilyvm.Machine.Effects.Binary.{At-n, to_word-int-fix, fix_word_small}
use lilyvm.Machine.Trace.{At-len, stay-At, after-At, IsVerified, Leads, Leads-exec}

-- Below the two values on the top.
below : List ℕ → List ℕ
below [] = []
below (x ∷ []) = []
below (x ∷ y ∷ xs) = xs

module _ (s : Machine) (valid : IsValid s) where
  frame_known :
      {xs : List ℕ}
      → contents s ≡ xs
      → length xs + 2 ≤ s.process.stack.len
      → (x y : ℕ) × IsAfter s (sp_add 2 s) (x ∷ y ∷ xs)
  frame_known {xs} e room =
      let sp = sp-length s valid e in
      let up : (s.sp + 2) % 2 ^ 16 ≡ suc (suc s.sp) = omega (arith, valid.narrow) in
      let x = get_or (vals_of s) (suc s.sp) 0 in
      let y = get_or (vals_of s) s.sp 0 in
      (
        x,
        y,
        rw up (
            after s valid (suc (suc s.sp)) (vals_of s) (x ∷ y ∷ xs) valid.full (omega arith)
              (ap (λ ys. x ∷ y ∷ ys) e)),
      )

  unframe_known : {x y : ℕ} {xs : List ℕ} → contents s ≡ x ∷ y ∷ xs → IsAfter s (sp_sub 2 s) xs
  unfolding below
  unframe_known {x} {y} {xs} e =
      let m = length xs in
      let sp : s.sp ≡ suc (suc m) = sp-length s valid e in
      let down : (s.sp + 2 ^ 16 - 2) % 2 ^ 16 ≡ m = omega (arith, valid.within, valid.narrow) in
      let same : tops (suc (suc m)) (vals_of s) ≡ x ∷ y ∷ xs =
        ap (λ n. tops n (vals_of s)) (sym sp) ∙ e in
      rw down
        (after s valid m (vals_of s) xs valid.full (omega (arith, valid.within)) (ap below same))

module _ (native : Native) (code : List ℕ) (base : Machine) (v : IsVerified base) (pc : ℕ) where
  pub frame_jsr_rel8_1-Leads :
      (rel target : ℕ) {xs : List ℕ}
      → Stands (with_b Op.frame_jsr_rel8_1 rel) pc code
      → pos pc +ℤ signed8 rel ≡ pos target
      → length xs + 2 ≤ base.process.stack.len
      → Leads native code base pc xs base target (pcnum (pc + 2) ∷ uninitialized ∷ xs)
  unfolding exec op_frame_jsr_rel8_1 jump ensure_free
  frame_jsr_rel8_1-Leads rel target {xs} reads e room =
      Leads-exec native code {base = base} {xs = xs} v Op.frame_jsr_rel8_1 (λ s f. (reads s f).0)
        (λ s h.
          let len = At-len h in
          let free : ltb (s.sp + 1) s.process.stack.len ≡ true =
            ground (arith, sp-length s h.valid h.holds) in
          let r = pcnum (s.pc + 2) in
          let (x, y, a1) = frame_known s h.valid h.holds (omega arith) in
          let h1 = stay-At h a1 in
          let s1 = sp_add 2 s in
          let (set0, a2) = unsafe_set-overwrite s1 h1.valid 0 r h1.holds (first (y ∷ xs)) in
          let h2 = stay-At h1 a2 in
          let s2 = overwrite 0 r s1 in
          let (set1, a3) = unsafe_set-overwrite s2 h2.valid 1 uninitialized h2.holds (second xs) in
          let s3 = overwrite 1 uninitialized s2 in
          let link = ap (λ i. pcnum (i + 2) ∷ uninitialized ∷ xs) h.at in
          (
            record s3 { pc = target },
            rw (free, set0, set1, (reads s h.at).1, h.at, e) refl,
            after-At h2 (holding a3 link) target refl,
          ))

  pub unsafe_frame_ret-Leads :
      (r : ℕ) {y : ℕ} {xs : List ℕ}
      → Stands (with_b Op.unsafe_frame_ret 2) pc code
      → r < 2 ^ 13
      → Leads native code base pc (pcnum r ∷ y ∷ xs) base r xs
  unfolding exec op_unsafe_frame_ret
  unsafe_frame_ret-Leads r {y} {xs} reads small =
      Leads-exec native code {base = base} {xs = pcnum r ∷ y ∷ xs} v Op.unsafe_frame_ret
        (λ s f. (reads s f).0)
        (λ s h. (
          sp_sub 2 (set_pc (pcnum_to_word (pcnum r)) s),
          rw
              (
                (reads s h.at).1,
                unsafe_ref_known s h.valid 0 (pcnum r) h.holds refl (first (y ∷ xs)),
              )
              refl,
          after-At h (unframe_known s h.valid h.holds) (pcnum_to_word (pcnum r))
              (return_address r small),
        ))

  -- The slot below the return address.
  module _ {x y : ℕ} {xs : List ℕ} where
    pub unsafe_st_n_fix-Leads :
        (k : ℕ)
        → Stands (with_b Op.unsafe_st_n_fix_at 1) pc code
        → base.n ≡ k
        → k < 2 ^ 15
        → Leads native code base pc (x ∷ y ∷ xs) base (pc + 2) (x ∷ fix (pos k) ∷ xs)
    unfolding exec op_unsafe_st_n_fix
    unsafe_st_n_fix-Leads k reads e small =
        Leads-exec native code {base = base} {xs = x ∷ y ∷ xs} v Op.unsafe_st_n_fix_at
          (λ s f. (reads s f).0)
          (λ s h.
            let (set, a) = unsafe_set-overwrite s h.valid 1 (fix_word s.n) h.holds (second xs) in
            let same =
              ap (λ w. x ∷ fix_word w ∷ xs) (At-n h ∙ e)
              ∙ ap (λ z. x ∷ z ∷ xs) (fix_word_small k small) in
            (
              advance 2 (overwrite 1 (fix_word s.n) s),
              rw ((reads s h.at).1, set) refl,
              advance-At 2 h (holding a same),
            ))

    pub unsafe_st_a-Leads :
        Stands (with_b Op.unsafe_st_a_at 1) pc code
        → Leads native code base pc (x ∷ y ∷ xs) base (pc + 2) (x ∷ base.a ∷ xs)
    unfolding exec op_unsafe_st
    unsafe_st_a-Leads reads =
        Leads-exec native code {base = base} {xs = x ∷ y ∷ xs} v Op.unsafe_st_a_at
          (λ s f. (reads s f).0)
          (λ s h.
            let (set, a) = unsafe_set-overwrite s h.valid 1 s.a h.holds (second xs) in
            (
              advance 2 (overwrite 1 s.a s),
              rw ((reads s h.at).1, set) refl,
              advance-At 2 h (holding a (ap (λ z. x ∷ z ∷ xs) (At-a h))),
            ))

  pub unsafe_ld_n_int-Leads :
      (k : ℕ) {x : ℕ} {xs : List ℕ}
      → Stands (with_b Op.unsafe_ld_n_int_at 1) pc code
      → k ≤ 4095
      → Leads native code base pc
          (x ∷ fix (pos k) ∷ xs)
          (with_n k base)
          (pc + 2)
          (x ∷ fix (pos k) ∷ xs)
  unfolding exec op_unsafe_ld_n_int
  unsafe_ld_n_int-Leads k {x} {xs} reads small =
      Leads-exec native code {base = base} {xs = x ∷ fix (pos k) ∷ xs} v Op.unsafe_ld_n_int_at
        (λ s f. (reads s f).0)
        (λ s h. (
          advance 2 (with_n k s),
          rw
              (
                (reads s h.at).1,
                unsafe_ref_known s h.valid 1 (fix (pos k)) h.holds refl (second xs),
                to_word-int-fix k small,
              )
              refl,
          with_n-At k (advance-At 2 h (still h)),
        ))

  pub unsafe_add_a-Leads :
      (m n k : ℕ) {x : ℕ} {xs : List ℕ}
      → Stands (with_b Op.unsafe_add_a_at 1) pc code
      → m + n ≡ k
      → k ≤ 4095
      → Leads native code
          (with_a (fix (pos m)) base)
          pc
          (x ∷ fix (pos n) ∷ xs)
          (with_a (fix (pos k)) base)
          (pc + 2)
          (x ∷ fix (pos n) ∷ xs)
  unfolding exec op_unsafe_add_a_at add_except_a
  unsafe_add_a-Leads m n k {x} {xs} reads e small =
      Leads-exec native code {base = with_a (fix (pos m)) base} {xs = x ∷ fix (pos n) ∷ xs} v
        Op.unsafe_add_a_at (λ s f. (reads s f).0)
        (λ s h.
          let sum =
            ap (λ y. add_except_a s y (fix (pos n))) (At-a h)
            ∙ do_scm_add_small Machine.process with_process store_except_a restore_except_a s m n
                (omega arith)
            ∙ ap (λ l. done (fix (pos l), s)) e in
          (
            advance 2 (with_a (fix (pos k)) s),
            rw
                (
                  (reads s h.at).1,
                  unsafe_ref_known s h.valid 1 (fix (pos n)) h.holds refl (second xs),
                  sum,
                )
                refl,
            with_a-At (fix (pos k)) (advance-At 2 h (still h)),
          ))
