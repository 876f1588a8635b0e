-- ===== src/Number/Dispatch.antt =====
-- The macros of vm_mem.h that dispatch on the kinds of numbers. They are used on a process, and in
-- the interpreter, whose registers are saved before an allocation that is not immediate and
-- restored after it: hence the section's parameters.
use lilyvm.Base.{ℕ, ◌+◌, Bool, false, leb, ◌==◌, if◌then◌else◌}
use lilyvm.Base.{ℤ, ◌+ℤ◌, to_word, signed16}
use lilyvm.Outcome.{Outcome, done, dies, unfinished, not_an_integer, ◌>>=◌}
use lilyvm.Value.{fix, int, is_fixnum, are_fixnums_2, is_allocated, is_in_fix_range}
use lilyvm.Process.{VmProcess}
use lilyvm.Heap.{store, head_of_len_type, type_bignum, type_pair}
use lilyvm.Heap.{allocated_from_pointer, allocated_type, allocated_body, allocated_numwords}
use lilyvm.Heap.Alloc.{bump, vm_process_alloc_slow}
use lilyvm.Number.Bignums.{Operand, body, local, bignum_add}

abbrev pub BignumOp : Type 0
BignumOp = VmProcess → Operand → ℕ → Operand → ℕ → Outcome (ℕ × VmProcess)

unfoldable pub is_bignum : VmProcess → ℕ → Outcome Bool
unfolding allocated_type
is_bignum process v =
    if is_allocated v
    then (do t ← allocated_type process v; done (t == type_bignum))
    else done false

unfoldable pub is_pair : VmProcess → ℕ → Outcome Bool
unfolding allocated_type
is_pair process v =
    if is_allocated v then (do t ← allocated_type process v; done (t == type_pair)) else done false

-- A bignum as an operand: `ALLOCATED_BODY(v)`, `ALLOCATED_NUMWORDS(v)`.
unfoldable pub bignum_operand : VmProcess → ℕ → Outcome (Operand × ℕ)
unfolding allocated_body allocated_numwords
bignum_operand process v = do
  p ← allocated_body process v
  n ← allocated_numwords process v
  done (body p, n)

-- A fixnum as an operand: a variable that holds its number as one word.
abbrev pub fixnum_operand : ℕ → Operand × ℕ
fixnum_operand v = (local (to_word (int v)), 1)

-- A number cut to `fixaddint_t`.
abbrev pub fixaddint : ℤ → ℤ
fixaddint x = signed16 (to_word x)

module _ {S : Type 0} (process : S → VmProcess) (with_process : VmProcess → S → S)
    (save_regs restore_regs : S → S) where
  -- `LILYVM_ALLOC`
  unfoldable pub lilyvm_alloc : S → ℕ → Outcome (ℕ × S)
  unfolding bump vm_process_alloc_slow
  lilyvm_alloc s n =
      let slow : Outcome (ℕ × VmProcess) = vm_process_alloc_slow (process (save_regs s)) n in
      if leb (process s).alloc_ptr ((process s).alloc_area + n)
      then (do (ptr, p) ← slow; done (ptr, restore_regs (with_process p (save_regs s))))
      else (do (ptr, p) ← bump (process s) n slow; done (ptr, with_process p s))

  -- `DO_FIXADDINT_TO_SCM`
  unfoldable pub do_fixaddint_to_scm : S → ℤ → Outcome (ℕ × S)
  unfolding lilyvm_alloc head_of_len_type allocated_from_pointer
  do_fixaddint_to_scm s x_expr =
      let x = fixaddint x_expr in
      let big : Outcome (ℕ × S) = (do
        (p, s1) ← lilyvm_alloc s 2
        heap ← store (process s1).heap p (head_of_len_type 1 type_bignum)
        heap' ← store heap (p + 1) (to_word x)
        let process' = record (process s1) { heap = heap' }
        v ← allocated_from_pointer process' p
        done (v, with_process process' s1)) in
      if is_in_fix_range x then done (fix x, s) else big

  -- `DO_FIXNUM_ADD`
  unfoldable pub do_fixnum_add : S → ℕ → ℕ → Outcome (ℕ × S)
  unfolding do_fixaddint_to_scm
  do_fixnum_add s a b = do_fixaddint_to_scm s (int a +ℤ int b)

  -- One of the three calls of `bignum_op`, between `save_regs` and `restore_regs`.
  unfoldable pub call_bignum_op : BignumOp → S → Operand × ℕ → Operand × ℕ → Outcome (ℕ × S)
  call_bignum_op bignum_op s (a, lena) (b, lenb) = do
    let saved = save_regs s
    (res, p) ← bignum_op (process saved) a lena b lenb
    done (res, restore_regs (with_process p saved))

  -- `_NUMBER_DISPATCH`
  unfoldable pub number_dispatch :
      (S → ℕ → ℕ → Outcome (ℕ × S)) → BignumOp → S → ℕ → ℕ → Outcome (ℕ × S)
  unfolding call_bignum_op bignum_operand is_bignum
  number_dispatch do_fixnum_op bignum_op s x y =
      if are_fixnums_2 x y
      then do_fixnum_op s x y
      else (if is_fixnum x
          then (do
            y_big ← is_bignum (process s) y
            if y_big
                then (do
                  b ← bignum_operand (process s) y
                  call_bignum_op bignum_op s (fixnum_operand x) b)
                else dies (not_an_integer y))
          else (do
            x_big ← is_bignum (process s) x
            if x_big
                then (if is_fixnum y
                    then (do
                      a ← bignum_operand (process s) x
                      call_bignum_op bignum_op s a (fixnum_operand y))
                    else (do
                      y_big ← is_bignum (process s) y
                      if y_big
                          then (do
                            a ← bignum_operand (process s) x
                            b ← bignum_operand (process s) y
                            call_bignum_op bignum_op s a b)
                          else dies (not_an_integer y)))
                else dies (not_an_integer x)))

  -- `DO_SCM_ADD`
  unfoldable pub do_scm_add : S → ℕ → ℕ → Outcome (ℕ × S)
  unfolding number_dispatch do_fixnum_add bignum_add
  do_scm_add s x y = number_dispatch do_fixnum_add bignum_add s x y

  -- `DO_SCM_DEC`, and with +1 the body of `scm_inc`.
  unfoldable pub do_scm_step : S → ℕ → ℤ → Outcome (ℕ × S)
  unfolding do_fixaddint_to_scm is_bignum
  do_scm_step s x by = if is_fixnum x then do_fixaddint_to_scm s (int x +ℤ by) else (do
    big ← is_bignum (process s) x
    if big then dies unfinished else dies (not_an_integer x))
