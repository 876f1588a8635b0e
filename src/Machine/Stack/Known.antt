-- ===== src/Machine/Stack/Known.antt =====
-- The stack macros of vm.c on a stack whose contents are known.
use lilyvm.Base.{ℕ, suc, ◌-◌, ◌<◌, ◌==◌, ◌≡◌, refl, sym, ap, ◌∙◌, arith, false}
use lilyvm.Base.{
  get_or, leb, List, ◌∷◌, length, set, get_elem?, some, true, ltb, lt→ltb, if◌then◌else◌,
}
use mathlib.Core.Path.{subst}
use lilyvm.Outcome.{Outcome, done, dies, fault, hangs, defined, stack_push, stack_ref, stack_dup}
use lilyvm.Machine.State.{Machine}
use lilyvm.Machine.Stack.{
  vals_of, with_vals, push, pop, let_stack_last, let_stack_ref, drop1, swap, dup, unsafe_ref,
  unsafe_set, sp_sub, sp_add, alloc,
}
use lilyvm.Machine.Stack.Bounded.{take_top, look, look_top, discard, exchange, copy_top}
use lilyvm.Machine.Stack.Contents.{contents, IsValid, IsAfter, Refines, length-tops}
use lilyvm.Machine.Stack.Refinement.{
  IsAfterWith, push-Refines, pop-Refines, drop1-Refines, let_stack_last-Refines,
  let_stack_ref-Refines, writable, overwritten, raised, after,
}
use lilyvm.Machine.Stack.Exchange.{swap-Refines, dup-Refines}

pub Refines-done {ℓ κ} :
    {A : Type ℓ} {B : Type κ} (r : A → B → Type 0) (m : Outcome A) (b : B)
    → Refines r m (done b)
    → (a : A) × (m ≡ done a) × r a b
Refines-done r (done a) b h = (a, refl, h)
Refines-done r (dies e) b h = elim h [ ]
Refines-done r fault b h = elim h [ ]
Refines-done r hangs b h = elim h [ ]

-- One operation after the other.
pub IsAfter-IsAfter :
    {s s1 s2 : Machine} {xs ys : List ℕ} → IsAfter s s1 xs → IsAfter s1 s2 ys → IsAfter s s2 ys
IsAfter-IsAfter h h' = record { valid = h'.valid; holds = h'.holds; frame = h'.frame ∙ h.frame }

pub holding : {s s' : Machine} {xs ys : List ℕ} → IsAfter s s' xs → xs ≡ ys → IsAfter s s' ys
holding h e = record { valid = h.valid; holds = h.holds ∙ e; frame = h.frame }

module _ (s : Machine) (valid : IsValid s) where
  pub sp-length : {xs : List ℕ} → contents s ≡ xs → s.sp ≡ length xs
  sp-length e = sym (length-tops s.sp (vals_of s)) ∙ ap length e

  pub pop_known :
      {x : ℕ} {xs : List ℕ}
      → contents s ≡ x ∷ xs
      → (s1 : Machine) × (pop s ≡ done (x, s1)) × IsAfter s s1 xs
  pop_known {x} {xs} e =
      let ((y, s1), popped, (same, after)) =
        Refines-done (IsAfterWith s) (pop s) (x, xs)
          (subst (λ ys. Refines (IsAfterWith s) (pop s) (take_top ys)) e (pop-Refines s valid)) in
      (s1, popped ∙ ap (λ z. done (z, s1)) same, after)

  pub push_known :
      (x : ℕ) {xs : List ℕ}
      → contents s ≡ xs
      → length xs < s.process.stack.len
      → (s1 : Machine) × (push x s ≡ done s1) × IsAfter s s1 (x ∷ xs)
  push_known x {xs} e room = Refines-done (IsAfter s) (push x s) (x ∷ xs) (
      subst (λ b. Refines (IsAfter s) (push x s) (if b then done (x ∷ xs) else dies stack_push))
        (lt→ltb (length xs) s.process.stack.len room)
        (subst
          (λ ys.
            Refines (IsAfter s) (push x s)
              (if ltb (length ys) s.process.stack.len then done (x ∷ ys) else dies stack_push))
          e (push-Refines s valid x)))

  pub dup_known :
      {x : ℕ} {xs : List ℕ}
      → contents s ≡ x ∷ xs
      → suc (length xs) < s.process.stack.len
      → (s1 : Machine) × (dup s ≡ done s1) × IsAfter s s1 (x ∷ x ∷ xs)
  dup_known {x} {xs} e room = Refines-done (IsAfter s) (dup s) (x ∷ x ∷ xs) (
      subst (λ b. Refines (IsAfter s) (dup s) (if b then done (x ∷ x ∷ xs) else dies stack_dup))
        (lt→ltb (suc (length xs)) s.process.stack.len room)
        (subst (λ ys. Refines (IsAfter s) (dup s) (copy_top s.process.stack.len ys)) e
          (dup-Refines s valid)))

  pub swap_known :
      {x y : ℕ} {xs : List ℕ}
      → contents s ≡ x ∷ y ∷ xs
      → (s1 : Machine) × (swap s ≡ done s1) × IsAfter s s1 (y ∷ x ∷ xs)
  swap_known {x} {y} {xs} e =
      Refines-done (IsAfter s) (swap s) (y ∷ x ∷ xs)
        (subst (λ ys. Refines (IsAfter s) (swap s) (exchange ys)) e (swap-Refines s valid))

  pub drop1_known :
      {x : ℕ} {xs : List ℕ}
      → contents s ≡ x ∷ xs
      → (drop1 s ≡ done (sp_sub 1 s)) × IsAfter s (sp_sub 1 s) xs
  unfolding drop1
  drop1_known {x} {xs} e =
      let full : (s.sp == 0) ≡ false = ground (arith, sp-length e) in
      let runs : drop1 s ≡ done (sp_sub 1 s) = rw full refl in
      (
        runs,
        subst (λ m. Refines (IsAfter s) m (done xs)) runs
            (subst (λ ys. Refines (IsAfter s) (drop1 s) (discard ys)) e (drop1-Refines s valid)),
      )

  pub let_stack_last_known : {x : ℕ} {xs : List ℕ} → contents s ≡ x ∷ xs → let_stack_last s ≡ done x
  let_stack_last_known {x} e =
      let (y, read, same) = Refines-done ◌≡◌ (let_stack_last s) x (
        subst (λ ys. Refines ◌≡◌ (let_stack_last s) (look_top ys)) e
          (let_stack_last-Refines s valid)) in
      read ∙ ap done same

  pub unsafe_ref_known :
      {xs : List ℕ} (i x : ℕ)
      → contents s ≡ xs
      → get_elem? xs i ≡ some x
      → i < length xs
      → unsafe_ref s i ≡ done x
  unfolding unsafe_ref let_stack_ref
  unsafe_ref_known {xs} i x e at low =
      let fits : ltb i s.sp ≡ true = lt→ltb i s.sp (omega (arith, sp-length e)) in
      let (y, read, same) = Refines-done ◌≡◌ (let_stack_ref s i) x (
        subst (λ m. Refines ◌≡◌ (let_stack_ref s i) (defined m)) at
          (subst
            (λ b.
              Refines ◌≡◌ (let_stack_ref s i)
                (if b then defined (get_elem? xs i) else dies stack_ref))
            (lt→ltb i (length xs) low)
            (subst (λ ys. Refines ◌≡◌ (let_stack_ref s i) (look ys i)) e
              (let_stack_ref-Refines s valid i)))) in
      let same_read : unsafe_ref s i ≡ let_stack_ref s i = rw fits refl in
      same_read ∙ read ∙ ap done same

  pub unsafe_set_known :
      (i v : ℕ)
      → i < s.sp
      → unsafe_set i v s ≡ done (with_vals (set (vals_of s) (s.sp - 1 - i) v) s)
  unfolding unsafe_set
  unsafe_set_known i v h =
      rw (lt→ltb i s.sp h) (writable s valid (s.sp - 1 - i) v (omega (arith, valid.within)))

-- The state after a write into the stack, at an index from its top.
abbrev pub overwrite : ℕ → ℕ → Machine → Machine
overwrite i v s = with_vals (set (vals_of s) (s.sp - 1 - i) v) s

module _ (s : Machine) (valid : IsValid s) where
  pub unsafe_set-overwrite :
      {xs : List ℕ} (i v : ℕ)
      → contents s ≡ xs
      → i < length xs
      → (unsafe_set i v s ≡ done (overwrite i v s)) × IsAfter s (overwrite i v s) (set xs i v)
  unsafe_set-overwrite {xs} i v e h =
      let low : i < s.sp = omega (arith, sp-length s valid e) in
      let a = overwritten s valid i v low in
      (
        unsafe_set_known s valid i v low,
        record { valid = a.valid; holds = a.holds ∙ ap (λ ys. set ys i v) e; frame = a.frame },
      )

  -- Room for one value, which holds what lay there before.
  pub alloc_known :
      {xs : List ℕ}
      → contents s ≡ xs
      → length xs < s.process.stack.len
      → (old : ℕ) × (alloc 1 s ≡ done (sp_add 1 s)) × IsAfter s (sp_add 1 s) (old ∷ xs)
  unfolding alloc
  alloc_known {xs} e room =
      let low : s.sp < s.process.stack.len = omega (arith, sp-length s valid e) in
      let up = raised s valid low in
      let old = get_or (vals_of s) s.sp 0 in
      let fits : leb (suc s.sp) s.process.stack.len ≡ true = ground arith in
      (
        old,
        rw (up, fits) refl,
        rw up (
            after s valid (suc s.sp) (vals_of s) (old ∷ xs) valid.full (omega arith)
              (ap (λ ys. old ∷ ys) e)),
      )

module _ (s : Machine) (valid : IsValid s) where
  -- The value below the top replaced, and the top removed.
  pub collapse_known :
      (z : ℕ) {x y : ℕ} {xs : List ℕ}
      → contents s ≡ x ∷ y ∷ xs
      → (s1 : Machine) × (unsafe_set 1 z s ≡ done s1) × IsAfter s (sp_sub 1 s1) (z ∷ xs)
  collapse_known z {x} {y} {xs} e =
      let two : 1 < suc (suc (length xs)) = omega arith in
      let (runs, a) = unsafe_set-overwrite s valid 1 z e two in
      (overwrite 1 z s, runs, IsAfter-IsAfter a (drop1_known (overwrite 1 z s) a.valid a.holds).1)
