-- ===== src/Machine/Stack/Refinement.antt =====
-- The stack macros of vm.c against the operations on a bounded list.
use lilyvm.Base.{ℕ, suc, ◌+◌, ◌-◌, ◌%◌, ◌^◌, ◌≤◌, ◌<◌, ◌≡◌, refl, sym, ap, ◌∙◌, arith}
use lilyvm.Base.{
  List, ◌∷◌, length, set, get_or, length-set, ltb, Bool-cases, false, ◌==◌, lt→ltb, inl, inr, ap₂,
  ltb→lt,
}
use lilyvm.Outcome.{done}
use lilyvm.Machine.State.{Machine}
use lilyvm.Machine.Stack.{
  sp_add, sp_sub, read_val, write_val, vals_of, push, pop, let_stack_ref, let_stack_last,
  stack_set_at, drop1,
}
use lilyvm.Machine.Stack.{with_vals}
use lilyvm.Machine.Stack.Bounded.{put, take_top, look, look_top, replace, discard}
use lilyvm.Machine.Stack.Contents.{
  tops, contents, IsValid, IsAfter, Refines, length-tops, get_elem?-get_or, tops-set_above,
}
use lilyvm.Machine.Stack.Contents.{zero_or_suc, tops-set, get_or-tops, get_or-set_self}

-- An operation that gives a value and a state.
abbrev pub IsAfterWith : Machine → ℕ × Machine → ℕ × List ℕ → Type 0
IsAfterWith s got want = (got.0 ≡ want.0) × IsAfter s got.1 want.1

module _ (s : Machine) (valid : IsValid s) where
  -- The stack with other elements and another pointer.
  pub after :
      (n : ℕ) (vals xs : List ℕ)
      → length vals ≡ s.process.stack.len
      → n ≤ s.process.stack.len
      → tops n vals ≡ xs
      → IsAfter s (record (with_vals vals s) { sp = n }) xs
  after n vals xs f b h = record {
    valid = record { full = f; within = b; narrow = valid.narrow };
    holds = h;
    frame = refl;
  }

  pub readable : (j : ℕ) → j < s.sp → read_val s j ≡ done (get_or (vals_of s) j 0)
  readable j h = rw (get_elem?-get_or (vals_of s) j (omega (arith, valid.full, valid.within))) refl

  pub writable :
      (j v : ℕ)
      → j < s.process.stack.len
      → write_val s j v ≡ done (with_vals (set (vals_of s) j v) s)
  writable j v h = rw (lt→ltb j (length (vals_of s)) (omega (arith, valid.full))) refl

  module _ (m : ℕ) (e : s.sp ≡ suc m) where
    not_empty : (s.sp == 0) ≡ false
    not_empty = ground arith

    top_first : contents s ≡ get_or (vals_of s) m 0 ∷ tops m (vals_of s)
    top_first = ap (λ n. tops n (vals_of s)) e

    lowered : (s.sp + 2 ^ 16 - 1) % 2 ^ 16 ≡ m
    lowered = omega (arith, valid.within, valid.narrow)

    dropped : IsAfter s (sp_sub 1 s) (tops m (vals_of s))
    dropped =
        rw lowered
          (after m (vals_of s) (tops m (vals_of s)) valid.full (omega (arith, valid.within)) refl)

  pub raised : s.sp < s.process.stack.len → (s.sp + 1) % 2 ^ 16 ≡ suc s.sp
  raised h = omega (arith, valid.narrow)

  pushed :
      (x : ℕ)
      → s.sp < s.process.stack.len
      → IsAfter s (sp_add 1 (with_vals (set (vals_of s) s.sp x) s)) (x ∷ contents s)
  pushed x h = rw (raised h) (
      after (suc s.sp) (set (vals_of s) s.sp x) (x ∷ contents s)
        (length-set (vals_of s) s.sp x ∙ valid.full) (omega arith)
        (ap₂ ◌∷◌ (get_or-set_self (vals_of s) s.sp x (omega (arith, valid.full)))
          (tops-set_above s.sp (vals_of s) s.sp x (omega arith))))

  -- On a valid stack, `PUSH` puts a value on the top if there is room, and leaves all else; without room it
  -- ends the program.
  pub push-Refines :
      (x : ℕ) → Refines (IsAfter s) (push x s) (put s.process.stack.len x (contents s))
  unfolding push
  push-Refines x =
      rw (length-tops s.sp (vals_of s)) (elim (Bool-cases (ltb s.sp s.process.stack.len)) [
        | inl h ↦
            rw (h, writable s.sp x (ltb→lt s.sp s.process.stack.len h))
              (pushed x (ltb→lt s.sp s.process.stack.len h))
        | inr h ↦ rw h refl
      ])

  -- On a valid stack, `LET_POP` takes the value on the top off and leaves all else; on an empty stack it ends
  -- the program.
  pub pop-Refines : Refines (IsAfterWith s) (pop s) (take_top (contents s))
  unfolding pop
  pop-Refines = elim (zero_or_suc s.sp) [
    | inl e ↦ rw e refl
    | inr (m, e) ↦
        rw (not_empty m e, top_first m e, lowered m e, readable m (omega arith))
          (
            refl,
            after m (vals_of s) (tops m (vals_of s)) valid.full (omega (arith, valid.within)) refl,
          )
  ]

  -- On a valid stack, `STACK_DROP1` drops the value on the top and leaves all else; on an empty stack it ends
  -- the program.
  pub drop1-Refines : Refines (IsAfter s) (drop1 s) (discard (contents s))
  unfolding drop1
  drop1-Refines = elim (zero_or_suc s.sp) [
    | inl e ↦ rw e refl
    | inr (m, e) ↦ rw (not_empty m e, top_first m e) (dropped m e)
  ]

  -- On a valid stack, `LET_STACK_LAST` reads the value on the top; on an empty stack it ends the program.
  pub let_stack_last-Refines : Refines ◌≡◌ (let_stack_last s) (look_top (contents s))
  unfolding let_stack_last
  let_stack_last-Refines = elim (zero_or_suc s.sp) [
    | inl e ↦ rw e refl
    | inr (m, e) ↦
        let below : s.sp - 1 ≡ m = omega arith in
        rw (not_empty m e, top_first m e, below, readable m (omega arith)) refl
  ]

  -- On a valid stack, `LET_STACK_REF` reads the value with index `i` from the top, and ends the program if there
  -- is none.
  pub let_stack_ref-Refines : (i : ℕ) → Refines ◌≡◌ (let_stack_ref s i) (look (contents s) i)
  unfolding let_stack_ref
  let_stack_ref-Refines i = rw (length-tops s.sp (vals_of s)) (elim (Bool-cases (ltb i s.sp)) [
    | inl h ↦
        let i_lt = ltb→lt i s.sp h in
        rw
          (
            h,
            readable (s.sp - 1 - i) (omega arith),
            get_elem?-get_or (contents s) i (omega (arith, length-tops s.sp (vals_of s))),
          )
          (sym (get_or-tops s.sp (vals_of s) i (s.sp - 1 - i) (omega arith)))
    | inr h ↦ rw h refl
  ])

  -- A write at an index from the top.
  pub overwritten :
      (i v : ℕ)
      → i < s.sp
      → IsAfter s (with_vals (set (vals_of s) (s.sp - 1 - i) v) s) (set (contents s) i v)
  overwritten i v h =
      let j = s.sp - 1 - i in
      after s.sp (set (vals_of s) j v) (set (contents s) i v)
        (length-set (vals_of s) j v ∙ valid.full) valid.within
        (tops-set s.sp (vals_of s) i j v (omega arith) (omega (arith, valid.within, valid.full)))

  -- On a valid stack, `STACK_SET` replaces the value with index `i` from the top and leaves all else; it ends
  -- the program if there is none.
  pub stack_set_at-Refines :
      (i v : ℕ) → Refines (IsAfter s) (stack_set_at i v s) (replace i v (contents s))
  unfolding stack_set_at
  stack_set_at-Refines i v = rw (length-tops s.sp (vals_of s)) (elim (Bool-cases (ltb i s.sp)) [
    | inl h ↦
        let i_lt = ltb→lt i s.sp h in
        rw (h, writable (s.sp - 1 - i) v (omega (arith, valid.within))) (overwritten i v i_lt)
    | inr h ↦ rw h refl
  ])
