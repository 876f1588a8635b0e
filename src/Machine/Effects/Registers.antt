-- ===== src/Machine/Effects/Registers.antt =====
-- The operations on the registers A, B and N that the programs of vmtest.c use.
use lilyvm.Base.{ℕ, suc, ◌+◌, ◌≤◌, ◌<◌, ◌≡◌, refl, ap, ◌∙◌, arith, List, ◌∷◌, length}
use lilyvm.Base.{leb, ltb, true, pos, if◌then◌else◌}
use lilyvm.Outcome.{done}
use lilyvm.Value.{fix}
use lilyvm.Number.Scm.{scm_number_cmp}
use lilyvm.Machine.Op.{Op}
use lilyvm.Machine.State.{Machine, with_process, store_except_a, restore_except_a, advance}
use lilyvm.Machine.Stack.{sp_sub}
use lilyvm.Machine.Stack.Known.{
  sp-length, push_known, drop1_known, unsafe_ref_known, overwrite, unsafe_set-overwrite, holding,
}
use lilyvm.Machine.Assembler.Reads.{plain, with_im, with_im_b}
use lilyvm.Machine.Run.{Native, exec, running}
use lilyvm.Machine.Ops.Moves.{op_load_im, op_push, op_swap_a}
use lilyvm.Machine.Ops.Arith.{op_dec_a, op_add_a, dec_except_a, add_except_a}
use lilyvm.Machine.Ops.Branches.{op_cmpbr_a_lt_im_rel8}
use lilyvm.Machine.Effects.Moves.{Stands, advance-At}
use lilyvm.Machine.Effects.Calls.{first}
use lilyvm.Machine.Effects.Numbers.{
  do_scm_dec_small, do_scm_add_small, scm_number_cmp_small, is_below, taken,
}
use lilyvm.Machine.Stack.Contents.{IsAfter}
use lilyvm.Machine.Trace.{At, At-len, others, IsVerified, Leads, Leads-exec}

-- Registers of another value.
abbrev pub with_a : ℕ → Machine → Machine
with_a x s = record s { a = x }

abbrev pub with_b : ℕ → Machine → Machine
with_b x s = record s { b = x }

abbrev pub with_n : ℕ → Machine → Machine
with_n x s = record s { n = x }

pub with_n-At :
    (x : ℕ) {base : Machine} {pc : ℕ} {xs : List ℕ} {s : Machine}
    → At base pc xs s
    → At (with_n x base) pc xs (with_n x s)
unfolding others
with_n-At x h = record {
  valid = record { full = h.valid.full; within = h.valid.within; narrow = h.valid.narrow };
  at = h.at;
  holds = h.holds;
  frame = ap {A = Machine} (λ t. record t { n = x }) h.frame;
}

pub with_a-At :
    (x : ℕ) {base : Machine} {pc : ℕ} {xs : List ℕ} {s : Machine}
    → At base pc xs s
    → At (with_a x base) pc xs (with_a x s)
unfolding others
with_a-At x h = record {
  valid = record { full = h.valid.full; within = h.valid.within; narrow = h.valid.narrow };
  at = h.at;
  holds = h.holds;
  frame = ap {A = Machine} (λ t. record t { a = x; process = record t.process { a = x } }) h.frame;
}

with_b-At :
    (x : ℕ) {base : Machine} {pc : ℕ} {xs : List ℕ} {s : Machine}
    → At base pc xs s
    → At (with_b x base) pc xs (with_b x s)
unfolding others
with_b-At x h = record {
  valid = record { full = h.valid.full; within = h.valid.within; narrow = h.valid.narrow };
  at = h.at;
  holds = h.holds;
  frame = ap {A = Machine} (λ t. record t { b = x; process = record t.process { b = x } }) h.frame;
}

pub At-a : {base : Machine} {pc : ℕ} {xs : List ℕ} {s : Machine} → At base pc xs s → s.a ≡ base.a
unfolding others
At-a h = ap (λ t. t.a) h.frame

-- Nothing done.
pub still : {base : Machine} {pc : ℕ} {xs : List ℕ} {s : Machine} → At base pc xs s → IsAfter s s xs
still h = record { valid = h.valid; holds = h.holds; frame = refl }

module _ (native : Native) (code : List ℕ) {base : Machine} (v : IsVerified base) (pc : ℕ) where
  pub nop-Leads :
      {xs : List ℕ} → Stands (plain Op.nop) pc code → Leads native code base pc xs base (pc + 1) xs
  unfolding exec
  nop-Leads reads =
      Leads-exec native code v Op.nop reads (λ s h. (advance 1 s, refl, advance-At 1 h (still h)))

  pub trace_on-Leads :
      {xs : List ℕ}
      → Stands (plain Op.trace_on) pc code
      → Leads native code base pc xs base (pc + 1) xs
  unfolding exec
  trace_on-Leads reads =
      Leads-exec native code v Op.trace_on reads
        (λ s h. (advance 1 s, refl, advance-At 1 h (still h)))

  pub trace_off-Leads :
      {xs : List ℕ}
      → Stands (plain Op.trace_off) pc code
      → Leads native code base pc xs base (pc + 1) xs
  unfolding exec
  trace_off-Leads reads =
      Leads-exec native code v Op.trace_off reads
        (λ s h. (advance 1 s, refl, advance-At 1 h (still h)))

  pub load_a_im-Leads :
      (x : ℕ) {xs : List ℕ}
      → Stands (with_im Op.load_a_im x) pc code
      → Leads native code base pc xs (with_a x base) (pc + 3) xs
  unfolding exec op_load_im
  load_a_im-Leads x {xs} reads =
      Leads-exec native code {base = base} {xs = xs} v Op.load_a_im (λ s f. (reads s f).0)
        (λ s h. (
          advance 3 (with_a x s),
          rw ((reads s h.at).1) refl,
          with_a-At x (advance-At 3 h (still h)),
        ))

  pub load_b_im-Leads :
      (x : ℕ) {xs : List ℕ}
      → Stands (with_im Op.load_b_im x) pc code
      → Leads native code base pc xs (with_b x base) (pc + 3) xs
  unfolding exec op_load_im
  load_b_im-Leads x {xs} reads =
      Leads-exec native code {base = base} {xs = xs} v Op.load_b_im (λ s f. (reads s f).0)
        (λ s h. (
          advance 3 (with_b x s),
          rw ((reads s h.at).1) refl,
          with_b-At x (advance-At 3 h (still h)),
        ))

  pub push_a-Leads :
      {xs : List ℕ}
      → Stands (plain Op.push_a) pc code
      → length xs < base.process.stack.len
      → Leads native code base pc xs base (pc + 1) (base.a ∷ xs)
  unfolding exec op_push
  push_a-Leads {xs} reads room =
      Leads-exec native code {base = base} {xs = xs} v Op.push_a reads (λ s h.
        let (s1, runs, a) = push_known s h.valid s.a h.holds (omega (arith, At-len h)) in
        let same = ap (λ y. y ∷ xs) (At-a h) in
        (advance 1 s1, rw runs refl, advance-At 1 h (holding a same)))

  pub swap_a-Leads :
      {x : ℕ} {xs : List ℕ}
      → Stands (plain Op.swap_a) pc code
      → Leads native code base pc (x ∷ xs) (with_a x base) (pc + 1) (base.a ∷ xs)
  unfolding exec op_swap_a
  swap_a-Leads {x} {xs} reads =
      Leads-exec native code {base = base} {xs = x ∷ xs} v Op.swap_a reads (λ s h.
        let one : leb 1 s.sp ≡ true = ground (arith, sp-length s h.valid h.holds) in
        let (set, a) = unsafe_set-overwrite s h.valid 0 s.a h.holds (first xs) in
        let same = ap (λ y. y ∷ xs) (At-a h) in
        (
          advance 1 (with_a x (overwrite 0 s.a s)),
          rw (one, unsafe_ref_known s h.valid 0 x h.holds refl (first xs), set) refl,
          with_a-At x (advance-At 1 h (holding a same)),
        ))

  pub cmpbr_a_lt-Leads :
      (m n rel size : ℕ) {xs : List ℕ}
      → Stands (with_im_b Op.cmpbr_a_lt_im_rel8 (fix (pos n)) rel) pc code
      → base.a ≡ fix (pos m)
      → m ≤ 4095
      → n ≤ 4095
      → (if ltb m n then rel else 4) ≡ size
      → Leads native code base pc xs base (pc + size) xs
  unfolding exec op_cmpbr_a_lt_im_rel8
  cmpbr_a_lt-Leads m n rel size {xs} reads ha hm hn e =
      Leads-exec native code {base = base} {xs = xs} v Op.cmpbr_a_lt_im_rel8 (λ s f. (reads s f).0)
        (λ s h.
          let cmp =
            ap (λ x. scm_number_cmp s.process x (fix (pos n))) (At-a h ∙ ha)
            ∙ scm_number_cmp_small s.process (pos m) (pos n) (ground arith) (ground arith) in
          (
            advance size s,
            rw ((reads s h.at).1, cmp, is_below m n, (reads s h.at).2)
                (taken s rel (ltb m n) ∙ ap (λ k. done (running (advance k s))) e),
            advance-At size h (still h),
          ))

module _ (native : Native) (code : List ℕ) (base : Machine) (v : IsVerified base) (pc : ℕ) where
  pub dec_a-Leads :
      (n : ℕ) {xs : List ℕ}
      → Stands (plain Op.dec_a) pc code
      → suc n ≤ 4095
      → Leads native code
          (with_a (fix (pos (suc n))) base)
          pc
          xs
          (with_a (fix (pos n)) base)
          (pc + 1)
          xs
  unfolding exec op_dec_a dec_except_a
  dec_a-Leads n {xs} reads small =
      Leads-exec native code {base = with_a (fix (pos (suc n))) base} {xs = xs} v Op.dec_a reads
        (λ s h.
          let dec =
            ap (dec_except_a s) (At-a h)
            ∙ do_scm_dec_small Machine.process with_process store_except_a restore_except_a s n
                small in
          (
            advance 1 (with_a (fix (pos n)) s),
            rw dec refl,
            with_a-At (fix (pos n)) (advance-At 1 h (still h)),
          ))

  pub add_a-Leads :
      (m n k : ℕ) {xs : List ℕ}
      → Stands (plain Op.add_a) pc code
      → m + n ≡ k
      → k ≤ 4095
      → Leads native code
          (with_a (fix (pos m)) base)
          pc
          (fix (pos n) ∷ xs)
          (with_a (fix (pos k)) base)
          (pc + 1)
          xs
  unfolding exec op_add_a add_except_a
  add_a-Leads m n k {xs} reads e small =
      Leads-exec native code {base = with_a (fix (pos m)) base} {xs = fix (pos n) ∷ xs} v Op.add_a
        reads
        (λ s h.
          let z = fix (pos k) in
          let one : leb 1 s.sp ≡ true = ground (arith, sp-length s h.valid h.holds) in
          let (_, a) = drop1_known s h.valid h.holds in
          let sum =
            ap (λ x. add_except_a s x (fix (pos n))) (At-a h)
            ∙ do_scm_add_small Machine.process with_process store_except_a restore_except_a s m n
                (omega arith)
            ∙ ap (λ l. done (fix (pos l), s)) e in
          (
            advance 1 (with_a z (sp_sub 1 s)),
            rw (one, unsafe_ref_known s h.valid 0 (fix (pos n)) h.holds refl (first xs), sum) refl,
            with_a-At z (advance-At 1 h a),
          ))
