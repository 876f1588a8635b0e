-- ===== src/Machine/Effects/Numbers.antt =====
-- `DEC`, `ADD` and `CMPBR_KEEP_LT_IM_REL8` on fixnums whose results are fixnums.
use lilyvm.Base.{ℕ, suc, ◌+◌, ◌≤◌, ◌≡◌, refl, ap, ◌∙◌, arith, List, ◌∷◌, +ℤ_parts}
use lilyvm.Base.{Bool, leb, ltb, true, false, pos, negsuc, ◌+ℤ◌, ℤ, ◌==◌, if◌then◌else◌}
use lilyvm.Outcome.{done}
use lilyvm.Value.{fix, lt}
use lilyvm.Value.Tags.{are_fixnums_2_lem}
use lilyvm.Value.Fixnum.{InFixRange, is_fixnum-fix, int-fix}
use lilyvm.Process.{VmProcess}
use lilyvm.Bignum.Order.{order_val}
use lilyvm.Number.Add.{do_fixaddint_to_scm_small}
use lilyvm.Number.Dispatch.{do_scm_step, do_scm_add, do_fixnum_add, number_dispatch}
use lilyvm.Number.Scm.{here, replaced, scm_dec, scm_number_cmp, fixnum_cmp}
use lilyvm.Machine.Op.{Op}
use lilyvm.Machine.State.{Machine, with_process, store_all, restore_all, advance}
use lilyvm.Machine.Stack.{sp_sub}
use lilyvm.Machine.Stack.Known.{
  sp-length, let_stack_last_known, unsafe_ref_known, overwrite, unsafe_set-overwrite,
  collapse_known,
}
use lilyvm.Machine.Assembler.Reads.{plain, with_im_b}
use lilyvm.Machine.Run.{Native, exec, goes_on, running}
use lilyvm.Machine.Ops.Arith.{op_dec, op_add, add_all}
use lilyvm.Machine.Ops.Branches.{branch, op_cmpbr_keep_lt_im_rel8}
use lilyvm.Machine.Effects.Moves.{Stands, advance-At}
use lilyvm.Machine.Effects.Calls.{first, second}
use lilyvm.Machine.Trace.{At, others, IsVerified, Leads, Leads-exec}

pub do_scm_dec_small :
    {S : Type 0} (process : S → VmProcess) (with_p : VmProcess → S → S) (save restore : S → S)
    (s : S) (n : ℕ)
    → suc n ≤ 4095
    → do_scm_step process with_p save restore s (fix (pos (suc n))) (negsuc 0)
      ≡ done (fix (pos n), s)
unfolding do_scm_step
do_scm_dec_small process with_p save restore s n h =
    let down : pos (suc n) +ℤ negsuc 0 ≡ pos n =
      ground (arith, +ℤ_parts (pos (suc n)) (negsuc 0)) in
    rw (is_fixnum-fix (pos (suc n)), int-fix (pos (suc n)) (ground arith), down)
      (do_fixaddint_to_scm_small process with_p save restore s (pos n) (ground arith))

pub scm_dec_small :
    (p : VmProcess) (n : ℕ) → suc n ≤ 4095 → scm_dec p (fix (pos (suc n))) ≡ done (fix (pos n), p)
unfolding scm_dec
scm_dec_small p n h = do_scm_dec_small here replaced here here p n h

pub do_scm_add_small :
    {S : Type 0} (process : S → VmProcess) (with_p : VmProcess → S → S) (save restore : S → S)
    (s : S) (m n : ℕ)
    → m + n ≤ 4095
    → do_scm_add process with_p save restore s (fix (pos m)) (fix (pos n))
      ≡ done (fix (pos (m + n)), s)
unfolding do_scm_add number_dispatch do_fixnum_add
do_scm_add_small process with_p save restore s m n h =
    let sum : pos m +ℤ pos n ≡ pos (m + n) = ground (arith, +ℤ_parts (pos m) (pos n)) in
    rw
      (
        are_fixnums_2_lem (fix (pos m)) (fix (pos n)),
        is_fixnum-fix (pos m),
        is_fixnum-fix (pos n),
        int-fix (pos m) (ground arith),
        int-fix (pos n) (ground arith),
        sum,
      )
      (do_fixaddint_to_scm_small process with_p save restore s (pos (m + n)) (ground arith))

pub scm_number_cmp_small :
    (p : VmProcess) (m n : ℤ)
    → InFixRange m
    → InFixRange n
    → scm_number_cmp p (fix m) (fix n) ≡ done (order_val m n, p)
unfolding scm_number_cmp number_dispatch fixnum_cmp
scm_number_cmp_small p m n hm hn =
    rw
      (
        are_fixnums_2_lem (fix m) (fix n),
        is_fixnum-fix m,
        is_fixnum-fix n,
        int-fix m hm,
        int-fix n hn,
      )
      refl

pub is_below : (m n : ℕ) → (order_val (pos m) (pos n) == lt) ≡ ltb m n
is_below m n = ground arith

pub taken :
    (s : Machine) (rel : ℕ) (b : Bool)
    → goes_on (branch b (done rel) 4 s) ≡ done (running (advance (if b then rel else 4) s))
taken s rel true = refl
taken s rel false = refl

pub stored-At :
    {base : Machine} {pc : ℕ} {xs : List ℕ} {s : Machine}
    → At base pc xs s
    → At base pc xs (store_all s)
unfolding store_all others
stored-At h = record {
  valid = record { full = h.valid.full; within = h.valid.within; narrow = h.valid.narrow };
  at = h.at;
  holds = h.holds;
  frame = h.frame;
}

module _ (native : Native) (code : List ℕ) {base : Machine} (v : IsVerified base) (pc : ℕ) where
  pub dec-Leads :
      (n : ℕ) {xs : List ℕ}
      → Stands (plain Op.dec) pc code
      → suc n ≤ 4095
      → Leads native code base pc (fix (pos (suc n)) ∷ xs) base (pc + 1) (fix (pos n) ∷ xs)
  unfolding exec op_dec store_all restore_all
  dec-Leads n {xs} reads small =
      Leads-exec native code {xs = fix (pos (suc n)) ∷ xs} v Op.dec reads (λ s h.
        let y = fix (pos n) in
        let h' = stored-At h in
        let (set, a) = unsafe_set-overwrite (store_all s) h'.valid 0 y h'.holds (first xs) in
        (
          advance 1 (overwrite 0 y (store_all s)),
          rw
              (
                let_stack_last_known s h.valid h.holds,
                scm_dec_small (store_all s).process n small,
                set,
              )
              refl,
          advance-At 1 h' a,
        ))

  pub add-Leads :
      (m n : ℕ) {xs : List ℕ}
      → Stands (plain Op.add) pc code
      → m + n ≤ 4095
      → Leads native code base pc
          (fix (pos n) ∷ fix (pos m) ∷ xs)
          base
          (pc + 1)
          (fix (pos (m + n)) ∷ xs)
  unfolding exec op_add add_all
  add-Leads m n {xs} reads small =
      Leads-exec native code {xs = fix (pos n) ∷ fix (pos m) ∷ xs} v Op.add reads (λ s h.
        let z = fix (pos (m + n)) in
        let two : leb 2 s.sp ≡ true = ground (arith, sp-length s h.valid h.holds) in
        let (s1, runs, a) = collapse_known s h.valid z h.holds in
        (
          advance 1 (sp_sub 1 s1),
          rw
              (
                two,
                unsafe_ref_known s h.valid 1 (fix (pos m)) h.holds refl (second xs),
                unsafe_ref_known s h.valid 0 (fix (pos n)) h.holds refl (first (fix (pos m) ∷ xs)),
                do_scm_add_small Machine.process with_process store_all restore_all s m n small,
                runs,
              )
              refl,
          advance-At 1 h a,
        ))

  -- The branch of a comparison with a number is taken for the numbers below it.
  pub cmpbr_lt-Leads :
      (m n rel size : ℕ) {xs : List ℕ}
      → Stands (with_im_b Op.cmpbr_keep_lt_im_rel8 (fix (pos n)) rel) pc code
      → m ≤ 4095
      → n ≤ 4095
      → (if ltb m n then rel else 4) ≡ size
      → Leads native code base pc (fix (pos m) ∷ xs) base (pc + size) (fix (pos m) ∷ xs)
  unfolding exec op_cmpbr_keep_lt_im_rel8
  cmpbr_lt-Leads m n rel size {xs} reads hm hn e =
      Leads-exec native code {xs = fix (pos m) ∷ xs} v Op.cmpbr_keep_lt_im_rel8
        (λ s f. (reads s f).0)
        (λ s h. (
          advance size s,
          rw
              (
                let_stack_last_known s h.valid h.holds,
                (reads s h.at).1,
                scm_number_cmp_small s.process (pos m) (pos n) (ground arith) (ground arith),
                is_below m n,
                (reads s h.at).2,
              )
              (taken s rel (ltb m n) ∙ ap (λ k. done (running (advance k s))) e),
          advance-At size h (record { valid = h.valid; holds = h.holds; frame = refl }),
        ))
