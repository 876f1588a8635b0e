-- ===== src/Machine/Ops/Moves.antt =====
-- Operations that move values between the registers, the stack and the code.
use lilyvm.Base.{ℕ, List, to_word, signed16}
use lilyvm.Outcome.{Outcome, done, ◌>>=◌, ◌>>◌}
use lilyvm.Value.{fix, int}
use lilyvm.Machine.State.{Machine, Reg, get_reg, set_reg, advance, arg_b, arg_im}
use lilyvm.Machine.Stack.{
  push, pop, drop1, swap, dup, let_stack_ref, ensure_has, unsafe_ref, unsafe_set,
}

-- `FIX(M)`: the binary register holds a word.
abbrev pub fix_word : ℕ → ℕ
fix_word m = fix (signed16 m)

module _ (code : List ℕ) (s : Machine) where
  unfoldable pub op_unsafe_ld : Reg → Outcome Machine
  unfolding arg_b unsafe_ref
  op_unsafe_ld r = do i ← arg_b code s 1; x ← unsafe_ref s i; done (advance 2 (set_reg r x s))

  unfoldable pub op_unsafe_ld_m_int : Outcome Machine
  unfolding arg_b unsafe_ref
  op_unsafe_ld_m_int = do
    i ← arg_b code s 1
    x ← unsafe_ref s i
    done (advance 2 (record s { m = to_word (int x) }))

  unfoldable pub op_unsafe_ld_n_int : Outcome Machine
  unfolding arg_b unsafe_ref
  op_unsafe_ld_n_int = do
    i ← arg_b code s 1
    x ← unsafe_ref s i
    done (advance 2 (record s { n = to_word (int x) }))

  unfoldable pub op_ld_nv_im : Outcome Machine
  unfolding arg_im
  op_ld_nv_im = do x ← arg_im code s 1; done (advance 2 (record s { nv = x }))

  unfoldable pub op_unsafe_st : Reg → Outcome Machine
  unfolding arg_b unsafe_set
  op_unsafe_st r = do i ← arg_b code s 1; s' ← unsafe_set i (get_reg r s) s; done (advance 2 s')

  unfoldable pub op_unsafe_st_m_fix : Outcome Machine
  unfolding arg_b unsafe_set
  op_unsafe_st_m_fix = do
    i ← arg_b code s 1
    s' ← unsafe_set i (fix_word s.m) s
    done (advance 2 s')

  unfoldable pub op_unsafe_st_n_fix : Outcome Machine
  unfolding arg_b unsafe_set
  op_unsafe_st_n_fix = do
    i ← arg_b code s 1
    s' ← unsafe_set i (fix_word s.n) s
    done (advance 2 s')

  unfoldable pub op_load_m_im : Outcome Machine
  unfolding arg_im
  op_load_m_im = do x ← arg_im code s 1; done (advance 3 (record s { m = x }))

  unfoldable pub op_load_n_im : Outcome Machine
  unfolding arg_im
  op_load_n_im = do x ← arg_im code s 1; done (advance 3 (record s { n = x }))

  unfoldable pub op_load_im : Reg → Outcome Machine
  unfolding arg_im
  op_load_im r = do x ← arg_im code s 1; done (advance 3 (set_reg r x s))

  unfoldable pub op_push : Reg → Outcome Machine
  unfolding push
  op_push r = do s' ← push (get_reg r s) s; done (advance 1 s')

  unfoldable pub op_pop : Reg → Outcome Machine
  unfolding pop
  op_pop r = do (x, s') ← pop s; done (advance 1 (set_reg r x s'))

  unfoldable pub op_tab : Outcome Machine
  op_tab = done (advance 1 (record s { b = s.a }))

  unfoldable pub op_tba : Outcome Machine
  op_tba = done (advance 1 (record s { a = s.b }))

  unfoldable pub op_swap_a : Outcome Machine
  unfolding unsafe_ref unsafe_set
  op_swap_a = do
    ensure_has 1 s
    x ← unsafe_ref s 0
    s' ← unsafe_set 0 s.a s
    done (advance 1 (record s' { a = x }))

  unfoldable pub op_push_m : Outcome Machine
  unfolding push
  op_push_m = do s' ← push (fix_word s.m) s; done (advance 1 s')

  unfoldable pub op_push_n : Outcome Machine
  unfolding push
  op_push_n = do s' ← push (fix_word s.n) s; done (advance 1 s')

  unfoldable pub op_swap_n : Outcome Machine
  unfolding unsafe_ref unsafe_set
  op_swap_n = do
    ensure_has 1 s
    x ← unsafe_ref s 0
    s' ← unsafe_set 0 (fix_word s.n) s
    done (advance 1 (record s' { n = to_word (int x) }))

  unfoldable pub op_pop_n_then_push_a : Outcome Machine
  unfolding unsafe_ref unsafe_set
  op_pop_n_then_push_a = do
    ensure_has 1 s
    x ← unsafe_ref s 0
    s' ← unsafe_set 0 s.a (record s { n = to_word (int x) })
    done (advance 1 s')

  unfoldable pub op_push_im : Outcome Machine
  unfolding arg_im push
  op_push_im = do x ← arg_im code s 1; s' ← push x s; done (advance 3 s')

  unfoldable pub op_drop1 : Outcome Machine
  unfolding drop1
  op_drop1 = do s' ← drop1 s; done (advance 1 s')

  unfoldable pub op_pick_b : Outcome Machine
  unfolding arg_b let_stack_ref push
  op_pick_b = do i ← arg_b code s 1; x ← let_stack_ref s i; s' ← push x s; done (advance 2 s')

  unfoldable pub op_swap : Outcome Machine
  unfolding swap
  op_swap = do s' ← swap s; done (advance 1 s')

  unfoldable pub op_dup : Outcome Machine
  unfolding dup
  op_dup = do s' ← dup s; done (advance 1 s')
