-- ===== src/Machine/Stack/Exchange.antt =====
-- `stack_swap` and `stack_dup` of vm.c against the operations on a bounded list.
use lilyvm.Base.{ℕ, zero, suc, ◌+◌, ◌-◌, ◌%◌, ◌^◌, ◌<◌, ◌≡◌, refl, sym, ap, ap₂, ◌∙◌, arith}
use lilyvm.Base.{List, ◌∷◌, length, set, get_or, get_elem?, some, true, false, length-set}
use lilyvm.Base.{ltb, leb, ◌==◌, Bool-cases, ◌⊎◌, inl, inr, ltb→lt, lt→ltb}
use lilyvm.Machine.State.{Machine}
use lilyvm.Machine.Stack.{vals_of, swap, dup}
use lilyvm.Machine.Stack.Bounded.{exchange, copy_top}
use lilyvm.Machine.Stack.Contents.{
  tops, contents, IsValid, IsAfter, Refines, length-tops, get_elem?-get_or, tops-set_above,
}
use lilyvm.Machine.Stack.Contents.{zero_or_suc, get_or-set_self, get_or-set_ne}

no_one_or_more : (n : ℕ) → (n ≡ 0) ⊎ ((n ≡ 1) ⊎ ((m : ℕ) × (n ≡ suc (suc m))))
no_one_or_more zero = inl refl
no_one_or_more (suc zero) = inr (inl refl)
no_one_or_more (suc (suc m)) = inr (inr (m, refl))

-- The two writes of `stack_swap`.
abbrev swapped : List ℕ → ℕ → List ℕ
swapped vals m = set (set vals m (get_or vals (m + 1) 0)) (m + 1) (get_or vals m 0)

length-swapped : (vals : List ℕ) (m : ℕ) → length (swapped vals m) ≡ length vals
length-swapped vals m =
    length-set (set vals m (get_or vals (m + 1) 0)) (m + 1) (get_or vals m 0)
    ∙ length-set vals m (get_or vals (m + 1) 0)

tops-swapped :
    (vals : List ℕ) (m : ℕ)
    → suc m < length vals
    → tops (suc (suc m)) (swapped vals m) ≡ get_or vals m 0 ∷ get_or vals (suc m) 0 ∷ tops m vals
tops-swapped vals m h =
    let above : m + 1 ≡ suc m = omega arith in
    let lower = set vals m (get_or vals (suc m) 0) in
    let bound : suc m < length lower = omega (arith, length-set vals m (get_or vals (suc m) 0)) in
    rw above (
      ap₂ ◌∷◌ (get_or-set_self lower (suc m) (get_or vals m 0) bound) (
        ap₂ ◌∷◌
          (get_or-set_ne lower (suc m) m (get_or vals m 0) (λ e. omega arith)
            ∙ get_or-set_self vals m (get_or vals (suc m) 0) (omega arith))
          (tops-set_above m lower (suc m) (get_or vals m 0) (omega arith)
            ∙ tops-set_above m vals m (get_or vals (suc m) 0) (omega arith))))

module _ (s : Machine) (valid : IsValid s) where
  readable : (j : ℕ) → j < s.sp → get_elem? (vals_of s) j ≡ some (get_or (vals_of s) j 0)
  readable j h = get_elem?-get_or (vals_of s) j (omega (arith, valid.full, valid.within))

  writable : (j : ℕ) → j < s.process.stack.len → ltb j (length (vals_of s)) ≡ true
  writable j h = lt→ltb j (length (vals_of s)) (omega (arith, valid.full))

  -- On a valid stack, `stack_swap` exchanges the two values on the top and leaves all else; with
  -- fewer than two it ends the program.
  pub swap-Refines : Refines (IsAfter s) (swap s) (exchange (contents s))
  unfolding swap
  swap-Refines = elim (no_one_or_more s.sp) [
    | inl e ↦ rw e refl
    | inr (inl e) ↦ rw e refl
    | inr (inr (m, e)) ↦
        let enough : leb 2 s.sp ≡ true = ground arith in
        let at : s.sp - 2 ≡ m = omega arith in
        let split = ap (λ n. tops n (vals_of s)) e in
        let x = get_or (vals_of s) (m + 1) 0 in
        rw
          (
            enough,
            at,
            split,
            readable m (omega arith),
            readable (m + 1) (omega arith),
            writable m (omega (arith, valid.within)),
            length-set (vals_of s) m x,
            writable (m + 1) (omega (arith, valid.within)),
          )
          (record {
            valid = record {
              full = length-swapped (vals_of s) m ∙ valid.full;
              within = valid.within;
              narrow = valid.narrow;
            };
            holds =
                ap (λ n. tops n (swapped (vals_of s) m)) e
                ∙ tops-swapped (vals_of s) m (omega (arith, valid.full, valid.within));
            frame = refl;
          })
  ]

  duplicated :
      (m : ℕ)
      → s.sp ≡ suc m
      → s.sp < s.process.stack.len
      → tops (suc s.sp) (set (vals_of s) s.sp (get_or (vals_of s) m 0))
        ≡ get_or (vals_of s) m 0 ∷ get_or (vals_of s) m 0 ∷ tops m (vals_of s)
  duplicated m e h =
      let x = get_or (vals_of s) m 0 in
      ap₂ ◌∷◌ (get_or-set_self (vals_of s) s.sp x (omega (arith, valid.full)))
        (tops-set_above s.sp (vals_of s) s.sp x (omega arith) ∙ ap (λ n. tops n (vals_of s)) e)

  -- On a valid stack, `stack_dup` puts the value on the top once more and leaves all else; with no
  -- value or no room it ends the program.
  pub dup-Refines : Refines (IsAfter s) (dup s) (copy_top s.process.stack.len (contents s))
  unfolding dup
  dup-Refines = elim (zero_or_suc s.sp) [
    | inl e ↦ rw e refl
    | inr (m, e) ↦
        let some_left : (s.sp == 0) ≡ false = ground arith in
        let below : s.sp - 1 ≡ m = omega arith in
        let split = ap (λ n. tops n (vals_of s)) e in
        let x = get_or (vals_of s) m 0 in
        elim (Bool-cases (ltb s.sp s.process.stack.len)) [
          | inl h ↦
              let room = ltb→lt s.sp s.process.stack.len h in
              let raised : (s.sp + 1) % 2 ^ 16 ≡ suc s.sp = omega (arith, valid.narrow) in
              let room' : ltb (suc m) s.process.stack.len ≡ true =
                ap (λ n. ltb n s.process.stack.len) (sym e) ∙ h in
              rw
                (
                  some_left,
                  h,
                  below,
                  readable m (omega arith),
                  writable s.sp room,
                  raised,
                  split,
                  length-tops m (vals_of s),
                  room',
                )
                (record {
                  valid = record {
                    full = length-set (vals_of s) s.sp x ∙ valid.full;
                    within = omega arith;
                    narrow = valid.narrow;
                  };
                  holds = duplicated m e room;
                  frame = refl;
                })
          | inr h ↦
              let no_room : ltb (suc m) s.process.stack.len ≡ false =
                ap (λ n. ltb n s.process.stack.len) (sym e) ∙ h in
              rw (some_left, h, split, length-tops m (vals_of s), no_room) refl
        ]
  ]
