-- ===== src/Machine/Effects/Binary.antt =====
-- The operations on the binary register N that the programs of vmtest.c use. It holds a number
-- below 2 ^ 15.
use lilyvm.Base.{ℕ, suc, ◌+◌, ◌^◌, ◌≤◌, ◌<◌, ◌≡◌, refl, ap, ap₂, ◌∙◌, arith, List, ◌∷◌, length}
use lilyvm.Base.{leb, ltb, true, pos, negsuc, if◌then◌else◌, ◌+ℤ◌, ltb_ℤ, to_word, signed16}
use lilyvm.Outcome.{done}
use lilyvm.Value.{fix, int}
use lilyvm.Value.Fixnum.{int-fix}
use lilyvm.Machine.Op.{Op}
use lilyvm.Machine.State.{Machine, advance}
use lilyvm.Machine.Stack.Known.{
  sp-length, push_known, unsafe_ref_known, overwrite, unsafe_set-overwrite, holding,
}
use lilyvm.Machine.Assembler.Reads.{plain, with_im, with_im_b}
use lilyvm.Machine.Run.{Native, exec, running}
use lilyvm.Machine.Ops.Moves.{op_load_n_im, op_push_n, op_pop_n_then_push_a, fix_word}
use lilyvm.Machine.Ops.Arith.{op_dec_n}
use lilyvm.Machine.Ops.Branches.{op_cmpbr_n_lt_im_rel8}
use lilyvm.Machine.Effects.Moves.{Stands, advance-At}
use lilyvm.Machine.Effects.Calls.{first}
use lilyvm.Machine.Effects.Numbers.{taken}
use lilyvm.Machine.Effects.Registers.{with_n, with_n-At, At-a, still}
use lilyvm.Machine.Trace.{At, At-len, others, IsVerified, Leads, Leads-exec}

pub At-n : {base : Machine} {pc : ℕ} {xs : List ℕ} {s : Machine} → At base pc xs s → s.n ≡ base.n
unfolding others
At-n h = ap (λ t. t.n) h.frame

signed16-small : (k : ℕ) → k < 2 ^ 15 → signed16 k ≡ pos k
unfolding signed16
signed16-small k h = ground arith

pub to_word-int-fix : (k : ℕ) → k ≤ 4095 → to_word (int (fix (pos k))) ≡ k
unfolding to_word
to_word-int-fix k h = rw (int-fix (pos k) (ground arith)) (omega arith)

pub fix_word_small : (k : ℕ) → k < 2 ^ 15 → fix_word k ≡ fix (pos k)
fix_word_small k h = ap fix (signed16-small k h)

dec_word : (k : ℕ) → suc k < 2 ^ 15 → to_word (signed16 (suc k) +ℤ negsuc 0) ≡ k
unfolding to_word signed16 ◌+ℤ◌
dec_word k h = ground arith

below : (m n : ℕ) → ltb_ℤ (pos m) (pos n) ≡ ltb m n
below m n = ground arith

module _ (native : Native) (code : List ℕ) (base : Machine) (v : IsVerified base) (pc : ℕ) where
  pub load_n_im-Leads :
      (x : ℕ) {xs : List ℕ}
      → Stands (with_im Op.load_n_im x) pc code
      → Leads native code base pc xs (with_n x base) (pc + 3) xs
  unfolding exec op_load_n_im
  load_n_im-Leads x {xs} reads =
      Leads-exec native code {base = base} {xs = xs} v Op.load_n_im (λ s f. (reads s f).0)
        (λ s h. (
          advance 3 (with_n x s),
          rw ((reads s h.at).1) refl,
          with_n-At x (advance-At 3 h (still h)),
        ))

  pub dec_n-Leads :
      (k : ℕ) {xs : List ℕ}
      → Stands (plain Op.dec_n) pc code
      → suc k < 2 ^ 15
      → Leads native code (with_n (suc k) base) pc xs (with_n k base) (pc + 1) xs
  unfolding exec op_dec_n
  dec_n-Leads k {xs} reads small =
      Leads-exec native code {base = with_n (suc k) base} {xs = xs} v Op.dec_n reads (λ s h.
        let dec = ap (λ w. to_word (signed16 w +ℤ negsuc 0)) (At-n h) ∙ dec_word k small in
        (
          advance 1 (with_n k s),
          ap (λ w. done (running (advance 1 (with_n w s)))) dec,
          with_n-At k (advance-At 1 h (still h)),
        ))

  pub push_n-Leads :
      (k : ℕ) {xs : List ℕ}
      → Stands (plain Op.push_n) pc code
      → base.n ≡ k
      → k < 2 ^ 15
      → length xs < base.process.stack.len
      → Leads native code base pc xs base (pc + 1) (fix (pos k) ∷ xs)
  unfolding exec op_push_n
  push_n-Leads k {xs} reads e small room =
      Leads-exec native code {base = base} {xs = xs} v Op.push_n reads (λ s h.
        let (s1, runs, a) = push_known s h.valid (fix_word s.n) h.holds (omega (arith, At-len h)) in
        let same =
          ap (λ w. fix_word w ∷ xs) (At-n h ∙ e) ∙ ap (λ y. y ∷ xs) (fix_word_small k small) in
        (advance 1 s1, rw runs refl, advance-At 1 h (holding a same)))

  pub pop_n_then_push_a-Leads :
      (k : ℕ) {xs : List ℕ}
      → Stands (plain Op.pop_n_then_push_a) pc code
      → k ≤ 4095
      → Leads native code base pc (fix (pos k) ∷ xs) (with_n k base) (pc + 1) (base.a ∷ xs)
  unfolding exec op_pop_n_then_push_a
  pop_n_then_push_a-Leads k {xs} reads small =
      Leads-exec native code {base = base} {xs = fix (pos k) ∷ xs} v Op.pop_n_then_push_a reads
        (λ s h.
          let one : leb 1 s.sp ≡ true = ground (arith, sp-length s h.valid h.holds) in
          let h1 = with_n-At k h in
          let (set, a) = unsafe_set-overwrite (with_n k s) h1.valid 0 s.a h1.holds (first xs) in
          let same = ap (λ y. y ∷ xs) (At-a h) in
          (
            advance 1 (overwrite 0 s.a (with_n k s)),
            rw
                (
                  one,
                  unsafe_ref_known s h.valid 0 (fix (pos k)) h.holds refl (first xs),
                  to_word-int-fix k small,
                  set,
                )
                refl,
            advance-At 1 h1 (holding a same),
          ))

  pub cmpbr_n_lt-Leads :
      (m n rel size : ℕ) {xs : List ℕ}
      → Stands (with_im_b Op.cmpbr_n_lt_im_rel8 n rel) pc code
      → base.n ≡ m
      → m < 2 ^ 15
      → n < 2 ^ 15
      → (if ltb m n then rel else 4) ≡ size
      → Leads native code base pc xs base (pc + size) xs
  unfolding exec op_cmpbr_n_lt_im_rel8
  cmpbr_n_lt-Leads m n rel size {xs} reads hn hm small e =
      Leads-exec native code {base = base} {xs = xs} v Op.cmpbr_n_lt_im_rel8 (λ s f. (reads s f).0)
        (λ s h.
          let cmp =
            ap₂ ltb_ℤ (ap signed16 (At-n h ∙ hn) ∙ signed16-small m hm) (signed16-small n small)
            ∙ below m n in
          (
            advance size s,
            rw ((reads s h.at).1, cmp, (reads s h.at).2)
                (taken s rel (ltb m n) ∙ ap (λ k. done (running (advance k s))) e),
            advance-At size h (still h),
          ))
