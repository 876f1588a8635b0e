-- ===== src/Number/Sum.antt =====
-- `scm_add` on any two numbers of the guest program.
use lilyvm.Base.{
  ℕ, zero, suc, ◌+◌, ◌^◌, ◌/◌, ◌≤◌, ◌<◌, ◌≡◌, ◌≢◌, refl, sym, ap, ◌∙◌, ◌⊎◌, inl, inr, arith,
}
use lilyvm.Base.{
  List, [], ◌∷◌, ◌++◌, length, set, length-set, none, leb, true, false, ℤ, pos, negsuc, ◌+ℤ◌,
  Bool-cases, to_word,
}
use lilyvm.Outcome.{Outcome, done, dies, out_of_memory}
use lilyvm.Value.{fix, is_in_fix_range}
use mathlib.Core.Path.{subst}
use lilyvm.Heap.Gc.Pairwise.{Pairwise}
use lilyvm.Number.Value.{IsNumber}
use lilyvm.Heap.Gc.Lower.{lowered-SameRoots}
use lilyvm.Value.Fixnum.{
  fix-lt, InFixRange, is_in_fix_range_iff, is_fixnum-fix, int-fix, int-InFixRange,
}
use lilyvm.Bignum.Meaning.{value, value_single}
use lilyvm.Process.{VmProcess}
use lilyvm.Heap.{head_of_len_type}
use lilyvm.Heap.Memory.{store_lem}
use lilyvm.Heap.Alloc.{vm_process_alloc, vm_process_alloc_slow}
use lilyvm.Heap.Gc.{vm_mem_gc}
use lilyvm.Heap.Gc.Tiles.{Obj, Spaced-le}
use lilyvm.Heap.Gc.Promise.{IsNumberHeap, HasRoots, SameBody, SameRoots}
use lilyvm.Heap.Gc.Ptrs.{with_ptrs}
use lilyvm.Heap.Gc.Allocate.{behind, vm_process_alloc-IsAllocated}
use lilyvm.Number.Bignums.{bignum_add, bignum_result}
use lilyvm.Number.Bignums.Operands.{ptrs, no_roots}
use lilyvm.Number.Bignums.Result.{IsResult, bignum_result-IsResult}
use lilyvm.Number.Bignums.Sum.{bignum_add-IsResult}
use lilyvm.Number.Dispatch.{lilyvm_alloc, do_fixaddint_to_scm, do_fixnum_add, do_scm_add, fixaddint}
use lilyvm.Number.Add.{fixaddint-sum, small_lem}
use lilyvm.Number.Arguments.{bind-done, number_dispatch-IsDispatched}
use lilyvm.Number.Scm.{here, replaced, scm_add}

-- Without registers to save, the macro is the function.
lilyvm_alloc-here :
    (p : VmProcess) (n : ℕ) → lilyvm_alloc here replaced here here p n ≡ vm_process_alloc p n
unfolding lilyvm_alloc vm_process_alloc
lilyvm_alloc-here p n =
    let slow = vm_process_alloc_slow p n in
    elim (Bool-cases (leb p.alloc_ptr (p.alloc_area + n))) [
      | inl h ↦ rw h (bind-done slow)
      | inr h ↦ rw h (bind-done _)
    ]

to_word-lt : (x : ℤ) → to_word x < 2 ^ 16
unfolding to_word
to_word-lt (pos k) = omega arith
to_word-lt (negsuc k) = omega arith

set_comm : (xs : List ℕ) (i j a b : ℕ) → i ≢ j → set (set xs i a) j b ≡ set (set xs j b) i a
set_comm [] i j a b h = refl
set_comm (x ∷ xs) zero zero a b h = absurd (h refl)
set_comm (x ∷ xs) zero (suc j) a b h = refl
set_comm (x ∷ xs) (suc i) zero a b h = refl
set_comm (x ∷ xs) (suc i) (suc j) a b h = ap (λ l. x ∷ l) (set_comm xs i j a b (λ e. h (ap suc e)))

-- A new bignum of one word: the head is stored first.
one_word_lem :
    (p r : VmProcess) (x : ℤ)
    → r.alloc_ptr + 1 < length r.heap
    → is_in_fix_range x ≡ false
    → fixaddint x ≡ x
    → vm_process_alloc p 2 ≡ done (r.alloc_ptr, r)
    → do_fixaddint_to_scm here replaced here here p x
      ≡ bignum_result r r.alloc_ptr (to_word x ∷ []) none 1
unfolding do_fixaddint_to_scm bignum_result head_of_len_type
one_word_lem p r x h big same run =
    let z = r.alloc_ptr in
    let w = to_word x in
    let apart : z ≢ z + 1 = λ e. omega arith in
    rw
      (
        same,
        big,
        lilyvm_alloc-here p 2,
        run,
        store_lem r.heap z 384 (omega arith),
        store_lem (set r.heap z 384) (z + 1) w (omega (arith, length-set r.heap z 384)),
        store_lem r.heap (z + 1) w h,
        store_lem (set r.heap (z + 1) w) z 384 (omega (arith, length-set r.heap (z + 1) w)),
        set_comm r.heap z (z + 1) 384 w apart,
      )
      refl

no_word_lem :
    (p : VmProcess) (x : ℤ)
    → is_in_fix_range x ≡ false
    → fixaddint x ≡ x
    → vm_process_alloc p 2 ≡ dies out_of_memory
    → do_fixaddint_to_scm here replaced here here p x ≡ dies out_of_memory
unfolding do_fixaddint_to_scm
no_word_lem p x big same died = rw (same, big, lilyvm_alloc-here p 2, died) refl

-- There is no memory: a collection with the pointer roots `ps` leaves at most `k` words.
abbrev pub IsFull : VmProcess → ℕ → Type 0
IsFull p k =
    (ps : List ℕ) × (p1 : VmProcess) × (vm_mem_gc (with_ptrs ps p) ≡ done p1)
    × (p1.alloc_ptr ≤ p1.alloc_area + k)

abbrev pub IsSum : VmProcess → ℕ → Outcome (ℕ × VmProcess) → ℤ → Type 0
IsSum p limit outcome n =
    ((v : ℕ) × (p' : VmProcess) × (os' : List Obj) × (outcome ≡ done (v, p'))
      × (p'.ptr_roots ≡ [])
      × IsResult p p' os' limit v n)
    ⊎ (IsFull p 30 × (outcome ≡ dies out_of_memory))

module _ (p : VmProcess) (os : List Obj) (sound : IsNumberHeap p os) (roots : HasRoots p os)
    (no_ptrs : p.ptr_roots ≡ []) (limit : ℕ) (some_words : 1 < limit) (small : limit < 30) where
  unchanged : SameRoots p p
  unchanged =
      lowered-SameRoots p os sound p.alloc_ptr p.heap sound.guard (omega arith) refl (λ j h. refl)
        roots

  small-IsResult : (x : ℤ) → is_in_fix_range x ≡ true → IsResult p p os (suc limit) (fix x) x
  small-IsResult x h = record {
    sound = sound;
    roots = roots;
    same = unchanged;
    number = inl (is_fixnum-fix x, fix-lt x, int-fix x ((is_in_fix_range_iff x).0 h));
  }

  -- `DO_FIXADDINT_TO_SCM`, with a new bignum of one word where the number is no fixnum.
  pub do_fixaddint_to_scm-IsSum :
      (x : ℤ)
      → fixaddint x ≡ x
      → IsSum p (suc limit) (do_fixaddint_to_scm here replaced here here p x) x
  do_fixaddint_to_scm-IsSum x same = elim (Bool-cases (is_in_fix_range x)) [
    | inl h ↦ inl (fix x, p, os, small_lem p x h same, no_ptrs, small-IsResult x h)
    | inr h ↦ elim (vm_process_alloc-IsAllocated p os 2 sound roots) [
      | inl (r, os1, run, al) ↦
          let w = to_word x in
          let top =
            Spaced-le (r.alloc_ptr + 2) os1 (r.alloc_area + r.alloc_size / 2) al.sound.spaced in
          let (v, p', os', res, ptrs, is) =
            bignum_result-IsResult r os1 2 al.sound al.guard (w ∷ []) (omega arith) p al.roots
              al.same x (suc limit) 1 (omega arith) (omega arith) (omega arith) (omega arith) none
              (rw same h, value_single w ∙ same) (to_word-lt x, tt) tt in
          let made = one_word_lem p r x (omega (arith, top, al.sound.from_in)) h same run in
          inl (
            v,
            p',
            os',
            made ∙ res,
            ptrs
                ∙ no_roots (SameBody p (behind r 2)) r.ptr_roots (
                    subst (λ l. Pairwise (SameBody p (behind r 2)) l r.ptr_roots) no_ptrs
                      al.same.ptrs_same),
            is,
          )
      | inr (p1, os1, runs, c, full, died) ↦
          inr ((p.ptr_roots, p1, runs, omega arith), no_word_lem p x h same died)
    ]
  ]

  -- On a process whose objects are bignums of fewer than 30 words and that has no pointer roots,
  -- `scm_add` of any two numbers of fewer than `limit` words, for a limit from 2 to 29, returns the
  -- fixnum or the bignum, of at most `limit` words, that stands for the sum of the two integers,
  -- whether or not it had to collect; the heap's objects are bignums again, and all that a
  -- collection starts from stands for what it stood for. Or a collection leaves no more than 30
  -- words, and the program ends.
  pub scm_add-IsSum :
      (x y : ℕ) (m n : ℤ)
      → IsNumber p os limit x m
      → IsNumber p os limit y n
      → IsSum p (suc limit) (scm_add p x y) (m +ℤ n)
  unfolding scm_add do_scm_add do_fixnum_add
  scm_add-IsSum x y m n hx hy =
      elim (number_dispatch-IsDispatched (do_fixnum_add here replaced here here) bignum_add p os
        limit x y m n some_words hx hy) [
          | inl (fx, fy, e) ↦
              let hm = subst InFixRange fx.2 (int-InFixRange x fx.1) in
              let hn = subst InFixRange fy.2 (int-InFixRange y fy.1) in
              let same : do_fixnum_add here replaced here here p x y
                  ≡ do_fixaddint_to_scm here replaced here here p (m +ℤ n) =
                rw (fx.2, fy.2) refl in
              subst (λ o. IsSum p (suc limit) o (m +ℤ n)) (sym (e ∙ same))
                (do_fixaddint_to_scm-IsSum (m +ℤ n) (fixaddint-sum m n hm hn))
          | inr (a, lena, b, lenb, ha, hb, e) ↦
              let both : value ha.words +ℤ value hb.words ≡ m +ℤ n =
                rw (ha.stands, hb.stands) refl in
              elim (bignum_add-IsResult p os a b lena lenb ha.words hb.words limit sound roots
                no_ptrs ha.operand hb.operand ha.are_words hb.are_words ha.few hb.few small) [
                  | inl (v, p', os', runs, ptrs', is) ↦
                      inl (
                        v,
                        p',
                        os',
                        e ∙ runs,
                        ptrs',
                        subst (IsResult p p' os' (suc limit) v) both is,
                      )
                  | inr (p1, runs, full, died) ↦
                      inr ((ptrs a ++ ptrs b, p1, runs, ground (arith, ha.few, hb.few)), e ∙ died)
                ]
        ]
