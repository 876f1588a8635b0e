-- ===== src/Machine/Effects/Moves.antt =====
-- `SWAP`, `DUP`, `DROP1` and `PUSH_IM`.
use lilyvm.Base.{ℕ, suc, ◌+◌, ◌<◌, ◌≡◌, refl, ap, ◌∙◌, arith, List, ◌∷◌, length}
use lilyvm.Machine.Op.{Op}
use lilyvm.Machine.State.{Machine, advance}
use lilyvm.Machine.Stack.Contents.{IsAfter}
use lilyvm.Machine.Stack.Known.{swap_known, dup_known, drop1_known, push_known}
use lilyvm.Machine.Stack.{sp_sub}
use lilyvm.Machine.Assembler.Reads.{Instruction, plain, with_im, Reads}
use lilyvm.Machine.Run.{Native, exec}
use lilyvm.Machine.Ops.Moves.{op_swap, op_dup, op_drop1, op_push_im}
use lilyvm.Machine.Trace.{At, At-len, after-At, IsVerified, Leads, Leads-exec}

-- A machine at `pc` reads the instruction.
abbrev pub Stands : Instruction → ℕ → List ℕ → Type 0
Stands i pc code = (s : Machine) → s.pc ≡ pc → Reads i code s

-- Over the bytes of an operation, which has left `pc`.
pub advance-At :
    {base : Machine} {pc : ℕ} {xs ys : List ℕ} {s s' : Machine} (k : ℕ)
    → At base pc xs s
    → IsAfter s s' ys
    → At base (pc + k) ys (advance k s')
advance-At k h a = after-At h a _ (ap (λ t. t.pc + k) a.frame ∙ ap (λ i. i + k) h.at)

module _ (native : Native) (code : List ℕ) {base : Machine} (v : IsVerified base) (pc : ℕ) where
  pub swap-Leads :
      {x y : ℕ} {xs : List ℕ}
      → Stands (plain Op.swap) pc code
      → Leads native code base pc (x ∷ y ∷ xs) base (pc + 1) (y ∷ x ∷ xs)
  unfolding exec op_swap
  swap-Leads reads = Leads-exec native code v Op.swap reads (λ s h.
      let (s1, runs, a) = swap_known s h.valid h.holds in
      (advance 1 s1, rw runs refl, advance-At 1 h a))

  pub dup-Leads :
      {x : ℕ} {xs : List ℕ}
      → Stands (plain Op.dup) pc code
      → suc (length xs) < base.process.stack.len
      → Leads native code base pc (x ∷ xs) base (pc + 1) (x ∷ x ∷ xs)
  unfolding exec op_dup
  dup-Leads reads room = Leads-exec native code v Op.dup reads (λ s h.
      let (s1, runs, a) = dup_known s h.valid h.holds (omega (arith, At-len h)) in
      (advance 1 s1, rw runs refl, advance-At 1 h a))

  pub drop1-Leads :
      {x : ℕ} {xs : List ℕ}
      → Stands (plain Op.drop1) pc code
      → Leads native code base pc (x ∷ xs) base (pc + 1) xs
  unfolding exec op_drop1
  drop1-Leads reads = Leads-exec native code v Op.drop1 reads (λ s h.
      let (runs, a) = drop1_known s h.valid h.holds in
      (advance 1 (sp_sub 1 s), rw runs refl, advance-At 1 h a))

  pub push_im-Leads :
      (x : ℕ) {xs : List ℕ}
      → Stands (with_im Op.push_im x) pc code
      → length xs < base.process.stack.len
      → Leads native code base pc xs base (pc + 3) (x ∷ xs)
  unfolding exec op_push_im
  push_im-Leads x reads room =
      Leads-exec native code v Op.push_im (λ s e. (reads s e).0)
        (λ s h.
          let (s1, runs, a) = push_known s h.valid x h.holds (omega (arith, At-len h)) in
          (advance 3 s1, rw ((reads s h.at).1, runs) refl, advance-At 3 h a))
