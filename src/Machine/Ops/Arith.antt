-- ===== src/Machine/Ops/Arith.antt =====
-- Operations on numbers.
use lilyvm.Base.{ℕ, bit_and, bit_or, List, pos, negsuc, ltb, ◌+ℤ◌, to_word, signed16}
use lilyvm.Outcome.{Outcome, done, ◌>>=◌, ◌>>◌, ensure, stack_push}
use lilyvm.Value.{int}
use lilyvm.Number.Dispatch.{do_scm_add, do_scm_step}
use lilyvm.Number.Scm.{scm_inc, scm_dec, scm_add, scm_mul, scm_bitwise_and}
use lilyvm.Machine.State.{Machine, with_process, advance, arg_b, arg_im}
use lilyvm.Machine.State.{store_all, restore_all, store_except_a, restore_except_a}
use lilyvm.Machine.Stack.{push, pop, let_stack_ref, let_stack_last, stack_set_at}
use lilyvm.Machine.Stack.{ensure_has, unsafe_ref, unsafe_set, unsafe_remove}

-- `DO_SCM_ADD(STORE_ALL, RESTORE_ALL, …)` and `DO_SCM_ADD(STORE_EXCEPT_A, RESTORE_EXCEPT_A, …)`
unfoldable pub add_all : Machine → ℕ → ℕ → Outcome (ℕ × Machine)
unfolding do_scm_add store_all restore_all
add_all s x y = do_scm_add Machine.process with_process store_all restore_all s x y

unfoldable pub add_except_a : Machine → ℕ → ℕ → Outcome (ℕ × Machine)
unfolding do_scm_add store_except_a restore_except_a
add_except_a s x y = do_scm_add Machine.process with_process store_except_a restore_except_a s x y

-- `DO_SCM_DEC(STORE_EXCEPT_A, RESTORE_EXCEPT_A, …)`
unfoldable pub dec_except_a : Machine → ℕ → Outcome (ℕ × Machine)
unfolding do_scm_step store_except_a restore_except_a
dec_except_a s x =
    do_scm_step Machine.process with_process store_except_a restore_except_a s x (negsuc 0)

module _ (code : List ℕ) (s : Machine) where
  -- `STACK_UNSAFE_SET_LAST(SCM_INC(x))` between `STORE_ALL` and `RESTORE_ALL`.
  unfoldable pub op_inc : Outcome Machine
  unfolding let_stack_last store_all scm_inc unsafe_set restore_all
  op_inc = do
    x ← let_stack_last s
    let saved = store_all s
    (y, p) ← scm_inc saved.process x
    s' ← unsafe_set 0 y (with_process p saved)
    done (advance 1 (restore_all s'))

  unfoldable pub op_inc_at : Outcome Machine
  unfolding arg_b let_stack_ref store_all scm_inc push restore_all
  op_inc_at = do
    i ← arg_b code s 1
    x ← let_stack_ref s i
    let saved = store_all s
    -- `PUSH` evaluates its argument behind its test.
    ensure (ltb saved.sp saved.process.stack.len) stack_push
    (y, p) ← scm_inc saved.process x
    s' ← push y (with_process p saved)
    done (advance 2 (restore_all s'))

  unfoldable pub op_inc_a : Outcome Machine
  unfolding store_except_a scm_inc restore_except_a
  op_inc_a = do
    let saved = store_except_a s
    (y, p) ← scm_inc saved.process saved.a
    done (advance 1 (restore_except_a (record (with_process p saved) { a = y })))

  unfoldable pub op_dec : Outcome Machine
  unfolding let_stack_last store_all scm_dec unsafe_set restore_all
  op_dec = do
    x ← let_stack_last s
    let saved = store_all s
    (y, p) ← scm_dec saved.process x
    s' ← unsafe_set 0 y (with_process p saved)
    done (advance 1 (restore_all s'))

  unfoldable pub op_dec_a : Outcome Machine
  unfolding dec_except_a
  op_dec_a = do (y, s') ← dec_except_a s s.a; done (advance 1 (record s' { a = y }))

  unfoldable pub op_dec_n : Outcome Machine
  op_dec_n = done (advance 1 (record s { n = to_word (signed16 s.n +ℤ negsuc 0) }))

  unfoldable pub op_add : Outcome Machine
  unfolding unsafe_ref add_all unsafe_set
  op_add = do
    ensure_has 2 s
    x ← unsafe_ref s 1
    y ← unsafe_ref s 0
    (res, s1) ← add_all s x y
    s2 ← unsafe_set 1 res s1
    done (advance 1 (unsafe_remove 1 s2))

  unfoldable pub op_add_im : Outcome Machine
  unfolding unsafe_ref arg_im add_all unsafe_set
  op_add_im = do
    ensure_has 1 s
    x ← unsafe_ref s 0
    y ← arg_im code s 1
    (res, s1) ← add_all s x y
    s2 ← unsafe_set 0 res s1
    done (advance 3 s2)

  unfoldable pub op_add_at_at : Outcome Machine
  unfolding arg_b let_stack_ref store_all scm_add stack_set_at restore_all
  op_add_at_at = do
    i ← arg_b code s 1
    a ← let_stack_ref s i
    j ← arg_b code s 2
    b ← let_stack_ref s j
    let saved = store_all s
    (y, p) ← scm_add saved.process a b
    s' ← stack_set_at i y (with_process p saved)
    done (advance 3 (restore_all s'))

  unfoldable pub op_add_a : Outcome Machine
  unfolding unsafe_ref add_except_a
  op_add_a = do
    ensure_has 1 s
    y ← unsafe_ref s 0
    (res, s') ← add_except_a s s.a y
    done (advance 1 (unsafe_remove 1 (record s' { a = res })))

  unfoldable pub op_unsafe_add_a_at : Outcome Machine
  unfolding arg_b unsafe_ref add_except_a
  op_unsafe_add_a_at = do
    i ← arg_b code s 1
    y ← unsafe_ref s i
    (res, s') ← add_except_a s s.a y
    done (advance 2 (record s' { a = res }))

  -- `(signed_dword_t) M` of an unsigned `M`, cut to a word again.
  unfoldable pub op_add_m : Outcome Machine
  unfolding unsafe_ref
  op_add_m = do
    ensure_has 1 s
    y ← unsafe_ref s 0
    done (advance 1 (unsafe_remove 1 (record s { m = to_word (pos s.m +ℤ int y) })))

  unfoldable pub op_mul_at_at : Outcome Machine
  unfolding arg_b let_stack_ref store_all scm_mul stack_set_at restore_all
  op_mul_at_at = do
    i ← arg_b code s 1
    a ← let_stack_ref s i
    j ← arg_b code s 2
    b ← let_stack_ref s j
    let saved = store_all s
    (y, p) ← scm_mul saved.process a b
    s' ← stack_set_at i y (with_process p saved)
    done (advance 3 (restore_all s'))

  unfoldable pub op_bitwise_and : Outcome Machine
  unfolding pop store_all scm_bitwise_and push restore_all
  op_bitwise_and = do
    (b, s1) ← pop s
    (a, s2) ← pop s1
    let saved = store_all s2
    (y, p) ← scm_bitwise_and saved.process a b
    s' ← push y (with_process p saved)
    done (advance 1 (restore_all s'))

  unfoldable pub op_unsafe_bitwise_and : Outcome Machine
  unfolding pop push
  op_unsafe_bitwise_and = do
    (b, s1) ← pop s
    (a, s2) ← pop s1
    s' ← push (bit_and a b) s2
    done (advance 1 s')

  unfoldable pub op_unsafe_bitwise_or : Outcome Machine
  unfolding pop push
  op_unsafe_bitwise_or = do
    (b, s1) ← pop s
    (a, s2) ← pop s1
    s' ← push (bit_or a b) s2
    done (advance 1 s')
