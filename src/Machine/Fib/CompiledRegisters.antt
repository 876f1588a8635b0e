-- ===== src/Machine/Fib/CompiledRegisters.antt =====
-- The blocks of the operation `fib_with_registers`.
pub mod Call
pub mod Program
pub mod Far
use lilyvm.Base.{ℕ, suc, ◌+◌, ◌≤◌, ◌<◌, ◌≡◌, ◌^◌, refl, ap, ◌∙◌, arith, List, ◌∷◌, length}
use lilyvm.Base.{true, false, pos, ltb}
use lilyvm.Outcome.{done}
use lilyvm.Value.{fix, int, is_fixnum, pcnum, pcnum_to_word}
use lilyvm.Value.Fixnum.{is_fixnum-fix, int-fix, InFixRange}
use lilyvm.Number.Scm.{scm_number_cmp}
use lilyvm.Machine.State.{Machine, with_process, set_pc, store_except_a, restore_except_a}
use lilyvm.Machine.Stack.{sp_sub}
use lilyvm.Machine.Stack.Known.{
  swap_known, drop1_known, pop_known, push_known, unsafe_ref_known, unsafe_set-overwrite, overwrite,
  holding,
}
use lilyvm.Machine.Ops.Arith.{dec_except_a, add_except_a}
use lilyvm.Machine.Ops.Jumps.{op_ret}
use lilyvm.Machine.Ops.Fib.{
  Offsets, goto, leave, dispatch, RegistersLabel, start_calling_conventions, entry, registers_block,
  registers_goto,
}
use lilyvm.Machine.Effects.Calls.{first, return_address}
use lilyvm.Machine.Effects.Numbers.{
  do_scm_dec_small, do_scm_add_small, scm_number_cmp_small, is_below,
}
use lilyvm.Machine.Effects.Registers.{with_a, with_a-At, with_n, with_n-At, At-a}
use lilyvm.Machine.Trace.{At, At-len, stay-At, after-At}

-- A machine with a value in A and another in N.
abbrev pub registers : ℕ → ℕ → Machine → Machine
registers a n base = with_n n (with_a a base)

dec_a :
    (s : Machine) (x n : ℕ)
    → suc n ≤ 4095
    → x ≡ fix (pos (suc n))
    → dec_except_a s x ≡ done (fix (pos n), s)
unfolding dec_except_a
dec_a s x n small e =
    ap (dec_except_a s) e
    ∙ do_scm_dec_small Machine.process with_process store_except_a restore_except_a s n small

module _ (offsets : Offsets) (code : List ℕ) (base : Machine) {pc : ℕ} where
  pub entry_small :
      (n off old : ℕ) {xs : List ℕ} (s : Machine)
      → At (registers (fix (pos n)) old base) pc (off ∷ xs) s
      → n < 2
      → (s' : Machine) × (registers_block offsets code entry s
          ≡ done (registers_goto offsets (int off) s'))
        × At (registers (fix (pos 1)) off base) pc xs s'
  unfolding registers_block
  entry_small n off old {xs} s h small =
      let cmp =
        ap (λ x. scm_number_cmp s.process x (fix (pos 2))) (At-a h)
        ∙ scm_number_cmp_small s.process (pos n) (pos 2) (ground arith) (ground arith) in
      let below : ltb n 2 ≡ true = ground arith in
      let (_, a) = drop1_known s h.valid h.holds in
      (
        with_a (fix (pos 1)) (with_n off (sp_sub 1 s)),
        rw (cmp, is_below n 2, below, unsafe_ref_known s h.valid 0 off h.holds refl (first xs))
            refl,
        with_a-At (fix (pos 1)) (with_n-At off (stay-At h a)),
      )

  pub entry_large :
      (n old : ℕ) {xs : List ℕ} (s : Machine)
      → At (registers (fix (pos (suc (suc n)))) old base) pc xs s
      → suc (suc n) ≤ 4095
      → length xs + 2 ≤ base.process.stack.len
      → (s' : Machine) × (registers_block offsets code entry s ≡ done (goto entry s'))
        × At
            (registers (fix (pos (suc n))) old base)
            pc
            (fix offsets.with_registers_ret_1 ∷ fix (pos (suc n)) ∷ xs)
            s'
  unfolding registers_block
  entry_large n old {xs} s h small room =
      let y = fix (pos (suc n)) in
      let cmp =
        ap (λ x. scm_number_cmp s.process x (fix (pos 2))) (At-a h)
        ∙ scm_number_cmp_small s.process (pos (suc (suc n))) (pos 2) (ground arith)
            (ground arith) in
      let above : ltb (suc (suc n)) 2 ≡ false = ground arith in
      let dec = dec_a s s.a (suc n) small (At-a h) in
      let h1 = with_a-At y h in
      let s1 = with_a y s in
      let room1 : length xs < s1.process.stack.len = omega (arith, At-len h1) in
      let (s2, pushed, a2) = push_known s1 h1.valid y h1.holds room1 in
      let h2 = stay-At h1 a2 in
      let room2 : length (y ∷ xs) < s2.process.stack.len = omega (arith, At-len h2) in
      let (s3, pushed', a3) =
        push_known s2 h2.valid (fix offsets.with_registers_ret_1) h2.holds room2 in
      (s3, rw (cmp, is_below (suc (suc n)) 2, above, dec, pushed, pushed') refl, stay-At h2 a3)

  pub ret_1_lem :
      (n x old : ℕ) {xs : List ℕ} (s : Machine)
      → At (registers x old base) pc (fix (pos (suc n)) ∷ xs) s
      → suc n ≤ 4095
      → length xs + 1 < base.process.stack.len
      → (s' : Machine) × (registers_block offsets code RegistersLabel.ret_1 s
          ≡ done (goto entry s'))
        × At
            (registers (fix (pos n)) (fix (pos (suc n))) base)
            pc
            (fix offsets.with_registers_ret_2 ∷ x ∷ xs)
            s'
  unfolding registers_block
  ret_1_lem n x old {xs} s h small room =
      let oldx = fix (pos (suc n)) in
      let y = fix (pos n) in
      let h1 = with_n-At oldx h in
      let s1 = with_n oldx s in
      let (set, a2) = unsafe_set-overwrite s1 h1.valid 0 s.a h1.holds (first xs) in
      let h2 = stay-At h1 (holding a2 (ap (λ z. z ∷ xs) (At-a h))) in
      let s2 = overwrite 0 s.a s1 in
      let h3 = with_a-At y h2 in
      let s3 = with_a y s2 in
      let room3 : length (x ∷ xs) < s3.process.stack.len = omega (arith, At-len h3) in
      let (s4, pushed, a4) =
        push_known s3 h3.valid (fix offsets.with_registers_ret_2) h3.holds room3 in
      (
        s4,
        rw
            (
              unsafe_ref_known s h.valid 0 oldx h.holds refl (first xs),
              set,
              dec_a s2 oldx n small refl,
              pushed,
            )
            refl,
        stay-At h3 a4,
      )

  pub ret_2_lem :
      (m n k old : ℕ) (off : ℕ) {xs : List ℕ} (s : Machine)
      → At (registers (fix (pos m)) old base) pc (fix (pos n) ∷ off ∷ xs) s
      → m + n ≡ k
      → k ≤ 4095
      → is_fixnum off ≡ true
      → (s' : Machine) × (registers_block offsets code RegistersLabel.ret_2 s
          ≡ done (registers_goto offsets (int off) s'))
        × At (registers (fix (pos k)) off base) pc xs s'
  unfolding registers_block add_except_a
  ret_2_lem m n k old off {xs} s h e small is_label =
      let z = fix (pos k) in
      let sum =
        ap (λ x. add_except_a s x (fix (pos n))) (At-a h)
        ∙ do_scm_add_small Machine.process with_process store_except_a restore_except_a s m n
            (omega arith)
        ∙ ap (λ l. done (fix (pos l), s)) e in
      let (_, a1) = drop1_known s h.valid h.holds in
      let h1 = with_a-At z (stay-At h a1) in
      let s1 = with_a z (sp_sub 1 s) in
      let h2 = with_n-At off h1 in
      let (_, a3) = drop1_known (with_n off s1) h2.valid h2.holds in
      (
        sp_sub 1 (with_n off s1),
        rw
            (
              unsafe_ref_known s h.valid 0 (fix (pos n)) h.holds refl (first (off ∷ xs)),
              sum,
              unsafe_ref_known s1 h1.valid 0 off h1.holds refl (first xs),
              is_label,
            )
            refl,
        stay-At h2 a3,
      )

  pub start_lem :
      (n r : ℕ) {xs : List ℕ} (s : Machine)
      → At base pc (r ∷ fix (pos n) ∷ xs) s
      → length xs + 2 ≤ base.process.stack.len
      → (s' : Machine) × (registers_block offsets code start_calling_conventions s
          ≡ done (goto entry s'))
        × At
            (registers (fix (pos n)) base.n base)
            pc
            (fix offsets.end_calling_conventions ∷ r ∷ xs)
            s'
  unfolding registers_block
  start_lem n r {xs} s h room =
      let (s1, swapped, a1) = swap_known s h.valid h.holds in
      let h1 = stay-At h a1 in
      let (s2, popped, a2) = pop_known s1 h1.valid h1.holds in
      let h3 = with_a-At (fix (pos n)) (stay-At h1 a2) in
      let s3 = with_a (fix (pos n)) s2 in
      let room3 : length (r ∷ xs) < s3.process.stack.len = omega (arith, At-len h3) in
      let (s4, pushed, a4) =
        push_known s3 h3.valid (fix offsets.end_calling_conventions) h3.holds room3 in
      (s4, rw (swapped, popped, pushed) refl, stay-At h3 a4)

  pub end_lem :
      (x r old : ℕ) {xs : List ℕ} (s : Machine)
      → At (registers x old base) pc (pcnum r ∷ xs) s
      → r < 2 ^ 13
      → length xs + 1 < base.process.stack.len
      → (s' : Machine) × (registers_block offsets code RegistersLabel.end_calling_conventions s
          ≡ done (leave (dispatch s')))
        × At (registers x old base) r (x ∷ xs) s'
  unfolding registers_block op_ret
  end_lem x r old {xs} s h small room =
      let room0 : length (pcnum r ∷ xs) < s.process.stack.len = omega (arith, At-len h) in
      let (s1, pushed, a1) = push_known s h.valid s.a h.holds room0 in
      let h1 = stay-At h (holding a1 (ap (λ z. z ∷ pcnum r ∷ xs) (At-a h))) in
      let (s2, swapped, a2) = swap_known s1 h1.valid h1.holds in
      let h2 = stay-At h1 a2 in
      let (s3, popped, a3) = pop_known s2 h2.valid h2.holds in
      (
        set_pc (pcnum_to_word (pcnum r)) s3,
        rw (pushed, swapped, popped) refl,
        after-At h2 a3 (pcnum_to_word (pcnum r)) (return_address r small),
      )
