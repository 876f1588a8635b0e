-- ===== src/Number/Step.antt =====
-- `scm_inc` and `scm_dec` on every value.
use lilyvm.Base.{ℕ, ◌≡◌, ◌⊎◌, inl, inr, refl, arith, List, [], false, ℤ, pos, negsuc, ◌+ℤ◌}
use mathlib.Core.Path.{subst}
use lilyvm.Outcome.{Outcome, dies, unfinished, not_an_integer}
use lilyvm.Value.{is_fixnum, is_allocated}
use lilyvm.Value.Fixnum.{InFixRange, int-InFixRange}
use lilyvm.Process.{VmProcess}
use lilyvm.Heap.Gc.Tiles.{Obj}
use lilyvm.Heap.Gc.Promise.{IsNumberHeap, HasRoots}
use lilyvm.Number.Value.{IsFixnum, IsBignum}
use lilyvm.Number.Arguments.{is_bignum_lem, no_fixnum}
use lilyvm.Number.Add.{fixaddint-sum}
use lilyvm.Number.Dispatch.{do_scm_step, is_bignum}
use lilyvm.Number.Sum.{IsSum, do_fixaddint_to_scm-IsSum}
use lilyvm.Number.Scm.{here, replaced, scm_inc, scm_dec}

-- A fixnum, a bignum, or a value that is no pointer and no fixnum.
abbrev pub IsStepOperand : VmProcess → List Obj → ℕ → ℕ → ℤ → Type 0
IsStepOperand p os limit x n =
    IsFixnum x n ⊎ (IsBignum p os limit x n ⊎ ((is_fixnum x ≡ false) × (is_allocated x ≡ false)))

-- What a step by `by` comes to for each of them.
abbrev pub IsStep :
    (p : VmProcess) (os : List Obj) (limit x : ℕ) (n by : ℤ)
    → Outcome (ℕ × VmProcess)
    → IsStepOperand p os limit x n
    → Type 0
IsStep p os limit x n by outcome (inl h) = IsSum p 3 outcome (n +ℤ by)
IsStep p os limit x n by outcome (inr (inl b)) = outcome ≡ dies unfinished
IsStep p os limit x n by outcome (inr (inr h)) = outcome ≡ dies (not_an_integer x)

module _ (p : VmProcess) (os : List Obj) (sound : IsNumberHeap p os) (roots : HasRoots p os)
    (no_ptrs : p.ptr_roots ≡ []) where
  do_scm_step-IsStep :
      (limit x : ℕ) (n by : ℤ) (a : IsStepOperand p os limit x n)
      → InFixRange by
      → IsStep p os limit x n by (do_scm_step here replaced here here p x by) a
  unfolding do_scm_step is_bignum
  do_scm_step-IsStep limit x n by (inl (h, small, e)) in_range =
      let range = subst InFixRange e (int-InFixRange x small) in
      rw (h, e)
        (do_fixaddint_to_scm-IsSum p os sound roots no_ptrs 2 (omega arith) (omega arith) (n +ℤ by)
          (fixaddint-sum n by range in_range))
  do_scm_step-IsStep limit x n by (inr (inl b)) in_range =
      let run = is_bignum_lem p os limit x n b in
      let no = no_fixnum p os limit x n b in rw (no, run) refl
  do_scm_step-IsStep limit x n by (inr (inr (h, k))) in_range = rw (h, k) refl

  -- On a process whose objects are bignums of fewer than 30 words and that has no pointer roots,
  -- `scm_inc` and `scm_dec` of a fixnum return the fixnum or the bignum of one or two words that
  -- stands for the next integer and the one before, with the roots as they were, or end the program
  -- where a collection leaves no more than 30 words; a bignum ends the program as unfinished work,
  -- and a value that is neither, and no pointer, as no integer.
  pub scm_inc-scm_dec :
      (limit x : ℕ) (n : ℤ) (a : IsStepOperand p os limit x n)
      → IsStep p os limit x n (pos 1) (scm_inc p x) a
        × IsStep p os limit x n (negsuc 0) (scm_dec p x) a
  unfolding scm_inc scm_dec
  scm_inc-scm_dec limit x n a = (
    do_scm_step-IsStep limit x n (pos 1) a (omega arith, omega arith),
    do_scm_step-IsStep limit x n (negsuc 0) a (omega arith, omega arith),
  )
