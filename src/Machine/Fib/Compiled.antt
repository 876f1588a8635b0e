-- ===== src/Machine/Fib/Compiled.antt =====
-- The blocks of the operation `fib`, and chains of them.
pub mod Call
pub mod Program
use lilyvm.Base.{ℕ, zero, suc, ◌+◌, ◌≤◌, ◌<◌, ◌≡◌, refl, ap, ◌∙◌, arith, List, ◌∷◌, length}
use lilyvm.Base.{leb, true, false, pos, ltb, eqb_ℤ, ◌==◌}
use lilyvm.Outcome.{Outcome, done, ◌>>=◌}
use lilyvm.Value.{fix, int, lt, is_fixnum, pcnum, pcnum_to_word}
use lilyvm.Value.Tags.{is_fixnum_lem, pcnum_lem}
use lilyvm.Value.Fixnum.{InFixRange, is_fixnum-fix, int-fix}
use lilyvm.Number.Scm.{here, replaced, scm_add}
use lilyvm.Machine.State.{Machine, set_pc}
use lilyvm.Machine.Stack.{sp_add, sp_sub}
use lilyvm.Machine.Stack.Known.{
  sp-length, swap_known, let_stack_last_known, drop1_known, pop_known, push_known, alloc_known,
  unsafe_ref_known, unsafe_set-overwrite, overwrite, collapse_known,
}
use lilyvm.Machine.Ops.Fib.{
  Offsets, Way, goto, leave, dispatch, FibLabel, fib_entry, blocks, fib_block, fib_return, fib_goto,
}
use lilyvm.Machine.Effects.Calls.{first, second, return_address}
use lilyvm.Machine.Effects.Numbers.{scm_dec_small, do_scm_add_small, scm_number_cmp_small, is_below}
use lilyvm.Machine.Effects.Registers.{with_n, with_n-At}
use lilyvm.Machine.Trace.{At, At-len, stay-At}

-- So many jumps from label to label.
pub data Jumps {L : Type 0} (block : L → Machine → Outcome (Way L))
    : ℕ → L → Machine → L → Machine → Type 0 where
  stay : {l : L} {s : Machine} → Jumps block zero l s l s
  jump :
      {k : ℕ} {l l1 l2 : L} {s s1 s2 : Machine}
      → block l s ≡ done (goto l1 s1)
      → Jumps block k l1 s1 l2 s2
      → Jumps block (suc k) l s l2 s2

module _ {L : Type 0} (block : L → Machine → Outcome (Way L)) where
  pub trans-Jumps :
      {j k : ℕ} {l l1 l2 : L} {s s1 s2 : Machine}
      → Jumps block j l s l1 s1
      → Jumps block k l1 s1 l2 s2
      → Jumps block (j + k) l s l2 s2
  trans-Jumps {k = k} {s2 = s2} stay h = let e : 0 + k ≡ k = omega arith in rw e h
  trans-Jumps {k = k} (jump {k = i} e r) h =
      let f : suc i + k ≡ suc (i + k) = omega arith in rw f (jump e (trans-Jumps r h))

  pub blocks-Jumps :
      {k : ℕ} {l l' : L} {s s' : Machine}
      → Jumps block k l s l' s'
      → (more : ℕ) → blocks block (k + more) l s ≡ blocks block more l' s'
  unfolding blocks
  blocks-Jumps stay more = let e : 0 + more ≡ more = omega arith in rw e refl
  blocks-Jumps (jump {k = k} f r) more =
      let e : suc k + more ≡ suc (k + more) = omega arith in rw (e, f) (blocks-Jumps r more)

room_below :
    {base : Machine} {pc x y : ℕ} {xs : List ℕ} {s : Machine}
    → At base pc (x ∷ y ∷ xs) s
    → length xs < base.process.stack.len
room_below {s = s} h = omega (arith, sp-length s h.valid h.holds, h.valid.within, At-len h)

module _ (offsets : Offsets) {base : Machine} {pc : ℕ} where
  pub fib_entry_small :
      (n ret : ℕ) {xs : List ℕ} (s : Machine)
      → At base pc (ret ∷ fix (pos n) ∷ xs) s
      → n < 2
      → (s' : Machine) × (fib_block offsets fib_entry s ≡ done (fib_return offsets ret s'))
        × At base pc (fix (pos 1) ∷ xs) s'
  unfolding fib_block
  fib_entry_small n ret {xs} s h small =
      let (s1, swapped, a1) = swap_known s h.valid h.holds in
      let h1 = stay-At h a1 in
      let (dropped, a2) = drop1_known s1 h1.valid h1.holds in
      let h2 = stay-At h1 a2 in
      let (s3, popped, a3) = pop_known (sp_sub 1 s1) h2.valid h2.holds in
      let h3 = stay-At h2 a3 in
      let room : length xs < s3.process.stack.len = omega (arith, room_below h, At-len h3) in
      let (s4, pushed, a4) = push_known s3 h3.valid (fix (pos 1)) h3.holds room in
      let below : (ltb n 2) ≡ true = ground arith in
      (
        s4,
        rw
            (
              swapped,
              let_stack_last_known s1 h1.valid h1.holds,
              scm_number_cmp_small s1.process (pos n) (pos 2) (ground arith) (ground arith),
              is_below n 2,
              below,
              dropped,
              popped,
              pushed,
            )
            refl,
        stay-At h3 a4,
      )

  pub fib_entry_large :
      (n ret : ℕ) {xs : List ℕ} (s : Machine)
      → At base pc (ret ∷ fix (pos (suc (suc n))) ∷ xs) s
      → suc (suc n) ≤ 4095
      → length xs + 4 ≤ base.process.stack.len
      → (s' : Machine) × (fib_block offsets fib_entry s ≡ done (goto fib_entry s'))
        × At base pc (fix offsets.fib_ret_1 ∷ fix (pos (suc n)) ∷ fix (pos (suc n)) ∷ ret ∷ xs) s'
  unfolding fib_block
  fib_entry_large n ret {xs} s h small room =
      let x = fix (pos (suc (suc n))) in
      let y = fix (pos (suc n)) in
      let (s1, swapped, a1) = swap_known s h.valid h.holds in
      let h1 = stay-At h a1 in
      let room1 : length (x ∷ ret ∷ xs) < s1.process.stack.len = omega (arith, At-len h1) in
      let (old, made, a2) = alloc_known s1 h1.valid h1.holds room1 in
      let h2 = stay-At h1 a2 in
      let s2 = sp_add 1 s1 in
      let (set1, a3) = unsafe_set-overwrite s2 h2.valid 1 y h2.holds (second (ret ∷ xs)) in
      let h3 = stay-At h2 a3 in
      let s3 = overwrite 1 y s2 in
      let (set0, a4) = unsafe_set-overwrite s3 h3.valid 0 y h3.holds (first (y ∷ ret ∷ xs)) in
      let h4 = stay-At h3 a4 in
      let s4 = overwrite 0 y s3 in
      let room4 : length (y ∷ y ∷ ret ∷ xs) < s4.process.stack.len = omega (arith, At-len h4) in
      let (s5, pushed, a5) = push_known s4 h4.valid (fix offsets.fib_ret_1) h4.holds room4 in
      let above : ltb (suc (suc n)) 2 ≡ false = ground arith in
      (
        s5,
        rw
            (
              swapped,
              let_stack_last_known s1 h1.valid h1.holds,
              scm_number_cmp_small s1.process (pos (suc (suc n))) (pos 2) (ground arith)
                  (ground arith),
              is_below (suc (suc n)) 2,
              above,
              made,
              unsafe_ref_known s2 h2.valid 1 x h2.holds refl (second (ret ∷ xs)),
              scm_dec_small s2.process (suc n) small,
              set1,
              set0,
              pushed,
            )
            refl,
        stay-At h4 a5,
      )

  pub fib_ret_1_lem :
      (n y : ℕ) {xs : List ℕ} (s : Machine)
      → At base pc (y ∷ fix (pos (suc n)) ∷ xs) s
      → suc n ≤ 4095
      → length xs + 2 < base.process.stack.len
      → (s' : Machine) × (fib_block offsets FibLabel.ret_1 s ≡ done (goto fib_entry s'))
        × At base pc (fix offsets.fib_ret_2 ∷ fix (pos n) ∷ y ∷ xs) s'
  unfolding fib_block
  fib_ret_1_lem n y {xs} s h small room =
      let x = fix (pos n) in
      let (s1, swapped, a1) = swap_known s h.valid h.holds in
      let h1 = stay-At h a1 in
      let (set, a2) = unsafe_set-overwrite s1 h1.valid 0 x h1.holds (first (y ∷ xs)) in
      let h2 = stay-At h1 a2 in
      let s2 = overwrite 0 x s1 in
      let room2 : length (x ∷ y ∷ xs) < s2.process.stack.len = omega (arith, At-len h2) in
      let (s3, pushed, a3) = push_known s2 h2.valid (fix offsets.fib_ret_2) h2.holds room2 in
      (
        s3,
        rw
            (
              swapped,
              let_stack_last_known s1 h1.valid h1.holds,
              scm_dec_small s1.process n small,
              set,
              pushed,
            )
            refl,
        stay-At h2 a3,
      )

  pub fib_ret_2_lem :
      (m n ret : ℕ) {xs : List ℕ} (s : Machine)
      → At base pc (fix (pos n) ∷ fix (pos m) ∷ ret ∷ xs) s
      → m + n ≤ 4095
      → (s' : Machine) × (fib_block offsets FibLabel.ret_2 s ≡ done (fib_return offsets ret s'))
        × At (with_n ret base) pc (fix (pos (m + n)) ∷ xs) s'
  unfolding fib_block scm_add
  fib_ret_2_lem m n ret {xs} s h small =
      let z = fix (pos (m + n)) in
      let two : leb 2 s.sp ≡ true = ground (arith, sp-length s h.valid h.holds) in
      let (s1, set1, a1) = collapse_known s h.valid z h.holds in
      let h1 = stay-At h a1 in
      let s2 = sp_sub 1 s1 in
      let two' : leb 2 s2.sp ≡ true = ground (arith, sp-length s2 h1.valid h1.holds) in
      let h2 = with_n-At ret h1 in
      let (s3, set2, a3) = collapse_known (with_n ret s2) h2.valid z h2.holds in
      (
        sp_sub 1 s3,
        rw
            (
              two,
              unsafe_ref_known s h.valid 1 (fix (pos m)) h.holds refl (second (ret ∷ xs)),
              unsafe_ref_known s h.valid 0 (fix (pos n)) h.holds refl
                  (first (fix (pos m) ∷ ret ∷ xs)),
              do_scm_add_small here replaced here here s.process m n small,
              set1,
              two',
              unsafe_ref_known s2 h1.valid 1 ret h1.holds refl (second xs),
              unsafe_ref_known s2 h1.valid 0 z h1.holds refl (first (ret ∷ xs)),
              set2,
            )
            refl,
        stay-At h2 a3,
      )
