-- ===== src/Machine/Run.antt =====
-- The loop of `vm_process_run`: fetch, dispatch, and the operation.
use lilyvm.Base.{ℕ, zero, suc, List, ℤ, ◌==◌, ◌||◌}
use lilyvm.Outcome.{Outcome, done, dies, hangs, invalid_opcode, ◌>>=◌, ◌>>◌, assert}
use lilyvm.Process.{VmProcess}
use lilyvm.Heap.{load}
use lilyvm.Machine.Op.{Op, decode}
use lilyvm.Machine.State.{Machine, reg_a, reg_b, reg_c, reg_d, start, store_all, advance, byte_at}
use lilyvm.Machine.Ops.Moves
use lilyvm.Machine.Ops.Arith
use lilyvm.Machine.Ops.Jumps
use lilyvm.Machine.Ops.Branches
use lilyvm.Machine.Ops.Combined
use lilyvm.Machine.Ops.Fib.{Offsets, Departure, dispatch, away, op_fib, op_fib_with_registers}

-- Where an operation leaves the interpreter.
pub data Next : Type 0 where
  running : Machine → Next
  halted : VmProcess → Next

abbrev pub goes_on : Outcome Machine → Outcome Next
goes_on m = do s ← m; done (running s)

-- What is not of this program's source: the addresses of the compiler's labels, the code at other
-- addresses that `fib` and `fib_with_registers` may jump to, and `BREAK()`, which another library
-- defines. `rounds` bounds the jumps that the model gives one of these two operations.
pub record Native : Type 0 where
  pub offsets : Offsets
  pub rounds : ℕ
  pub fib_away : ℤ → Machine → Outcome Next
  pub registers_away : ℤ → Machine → Outcome Next
  pub on_break : Machine → Outcome Machine

abbrev pub leaves : (ℤ → Machine → Outcome Next) → Outcome Departure → Outcome Next
leaves elsewhere m = do
  departure ← m
  elim departure [ dispatch s ↦ done (running s) | away offset s ↦ elsewhere offset s ]

module _ (native : Native) (code : List ℕ) where
  -- The operation that a label names. (Tracing is compiled out.)
  unfoldable pub exec : Op → Machine → Outcome Next
  unfolding store_all op_fib op_fib_with_registers
  exec Op.invalid s = do opcode ← byte_at code s 0; dies (invalid_opcode opcode)
  exec Op.halt s = done (halted (store_all s).process)
  exec Op.nop s = done (running (advance 1 s))
  exec Op.trace_on s = done (running (advance 1 s))
  exec Op.trace_off s = done (running (advance 1 s))
  exec Op.break s = do s' ← native.on_break s; done (running (advance 1 s'))
  exec Op.fib s = leaves native.fib_away (op_fib native.offsets native.rounds s)
  exec Op.fib_with_registers s =
      leaves native.registers_away (op_fib_with_registers native.offsets code native.rounds s)
  exec Op.load_m_im s = goes_on (Moves.op_load_m_im code s)
  exec Op.load_n_im s = goes_on (Moves.op_load_n_im code s)
  exec Op.load_a_im s = goes_on (Moves.op_load_im code s reg_a)
  exec Op.load_b_im s = goes_on (Moves.op_load_im code s reg_b)
  exec Op.push_a s = goes_on (Moves.op_push code s reg_a)
  exec Op.push_b s = goes_on (Moves.op_push code s reg_b)
  exec Op.pop_a s = goes_on (Moves.op_pop code s reg_a)
  exec Op.pop_b s = goes_on (Moves.op_pop code s reg_b)
  exec Op.tab s = goes_on (Moves.op_tab code s)
  exec Op.tba s = goes_on (Moves.op_tba code s)
  exec Op.swap_a s = goes_on (Moves.op_swap_a code s)
  exec Op.push_im s = goes_on (Moves.op_push_im code s)
  exec Op.drop1 s = goes_on (Moves.op_drop1 code s)
  exec Op.pick_b s = goes_on (Moves.op_pick_b code s)
  exec Op.swap s = goes_on (Moves.op_swap code s)
  exec Op.dup s = goes_on (Moves.op_dup code s)
  exec Op.push_m s = goes_on (Moves.op_push_m code s)
  exec Op.inc s = goes_on (Arith.op_inc code s)
  exec Op.inc_at s = goes_on (Arith.op_inc_at code s)
  exec Op.inc_a s = goes_on (Arith.op_inc_a code s)
  exec Op.push_n s = goes_on (Moves.op_push_n code s)
  exec Op.swap_n s = goes_on (Moves.op_swap_n code s)
  exec Op.dec s = goes_on (Arith.op_dec code s)
  exec Op.dec_a s = goes_on (Arith.op_dec_a code s)
  exec Op.dec_n s = goes_on (Arith.op_dec_n code s)
  exec Op.add s = goes_on (Arith.op_add code s)
  exec Op.add_im s = goes_on (Arith.op_add_im code s)
  exec Op.add_at_at s = goes_on (Arith.op_add_at_at code s)
  exec Op.add_a s = goes_on (Arith.op_add_a code s)
  exec Op.add_m s = goes_on (Arith.op_add_m code s)
  exec Op.mul_at_at s = goes_on (Arith.op_mul_at_at code s)
  exec Op.bitwise_and s = goes_on (Arith.op_bitwise_and code s)
  exec Op.unsafe_bitwise_and s = goes_on (Arith.op_unsafe_bitwise_and code s)
  exec Op.unsafe_bitwise_or s = goes_on (Arith.op_unsafe_bitwise_or code s)
  exec Op.jmp_rel8 s = goes_on (Jumps.op_jmp_rel8 code s)
  exec Op.jmp_rel16 s = goes_on (Jumps.op_jmp_rel16 code s)
  exec Op.jsr_rel8 s = goes_on (Jumps.op_jsr_rel8 code s)
  exec Op.ret s = goes_on (Jumps.op_ret code s)
  exec Op.ret_im s = goes_on (Jumps.op_ret_im code s)
  exec Op.ret_pop s = goes_on (Jumps.op_ret_pop code s)
  exec Op.beq_im_rel16 s = goes_on (Branches.op_beq_im_rel16 code s)
  exec Op.bpos_keep_rel16 s = goes_on (Branches.op_bpos_keep_rel16 code s)
  exec Op.bneg0_keep_rel16 s = goes_on (Branches.op_bneg0_keep_rel16 code s)
  exec Op.bneg_keep_rel16 s = goes_on (Branches.op_bneg_keep_rel16 code s)
  exec Op.bz_keep_rel16 s = goes_on (Branches.op_bz_keep_rel16 code s)
  exec Op.bz_rel16 s = goes_on (Branches.op_bz_rel16 code s)
  exec Op.cmpbr_keep_lt_im_rel8 s = goes_on (Branches.op_cmpbr_keep_lt_im_rel8 code s)
  exec Op.cmpbr_a_lt_im_rel8 s = goes_on (Branches.op_cmpbr_a_lt_im_rel8 code s)
  exec Op.cmpbr_n_lt_im_rel8 s = goes_on (Branches.op_cmpbr_n_lt_im_rel8 code s)
  exec Op.pop_c s = goes_on (Moves.op_pop code s reg_c)
  exec Op.pop_d s = goes_on (Moves.op_pop code s reg_d)
  exec Op.load_c_im s = goes_on (Moves.op_load_im code s reg_c)
  exec Op.load_d_im s = goes_on (Moves.op_load_im code s reg_d)
  exec Op.push_c s = goes_on (Moves.op_push code s reg_c)
  exec Op.push_d s = goes_on (Moves.op_push code s reg_d)
  exec Op.pop_n_then_push_a s = goes_on (Moves.op_pop_n_then_push_a code s)
  exec Op.unsafe_add_a_at s = goes_on (Arith.op_unsafe_add_a_at code s)
  exec Op.unsafe_ld_a_at s = goes_on (Moves.op_unsafe_ld code s reg_a)
  exec Op.unsafe_ld_b_at s = goes_on (Moves.op_unsafe_ld code s reg_b)
  exec Op.unsafe_ld_c_at s = goes_on (Moves.op_unsafe_ld code s reg_c)
  exec Op.unsafe_ld_d_at s = goes_on (Moves.op_unsafe_ld code s reg_d)
  exec Op.unsafe_ld_m_int_at s = goes_on (Moves.op_unsafe_ld_m_int code s)
  exec Op.unsafe_ld_n_int_at s = goes_on (Moves.op_unsafe_ld_n_int code s)
  exec Op.unsafe_st_a_at s = goes_on (Moves.op_unsafe_st code s reg_a)
  exec Op.unsafe_st_b_at s = goes_on (Moves.op_unsafe_st code s reg_b)
  exec Op.unsafe_st_c_at s = goes_on (Moves.op_unsafe_st code s reg_c)
  exec Op.unsafe_st_d_at s = goes_on (Moves.op_unsafe_st code s reg_d)
  exec Op.unsafe_st_m_fix_at s = goes_on (Moves.op_unsafe_st_m_fix code s)
  exec Op.unsafe_st_n_fix_at s = goes_on (Moves.op_unsafe_st_n_fix code s)
  exec Op.frame_jsr_rel8_1 s = goes_on (Jumps.op_frame_jsr_rel8_1 code s)
  exec Op.unsafe_frame_ret s = goes_on (Jumps.op_unsafe_frame_ret code s)
  exec Op.frame_jsr_rel8_2 s = goes_on (Jumps.op_frame_jsr_rel8_2 code s)
  exec Op.ld_nv_im s = goes_on (Moves.op_ld_nv_im code s)
  exec Op.dec_then_dup s = goes_on (Combined.op_dec_then_dup code s)
  exec Op.swap_then_dec s = goes_on (Combined.op_swap_then_dec code s)
  exec Op.jsr_rel8_then_swap s = goes_on (Combined.op_jsr_rel8_then_swap code s)

  -- `DISPATCH`: the word at the start of the area must be as DEBUG_MEM_SET has left it.
  unfoldable pub mem_verify : Machine → Outcome (Unit {0})
  mem_verify s = do
    w ← load s.process.heap s.process.alloc_area
    assert ((w == 0xAAAA) || (w == 0xBBBB))

  unfoldable pub step : Machine → Outcome Next
  unfolding mem_verify decode exec
  step s = do mem_verify s; opcode ← byte_at code s 0; exec (decode opcode) s

  -- A run of at most `fuel` operations.
  unfoldable pub run : ℕ → Machine → Outcome VmProcess
  unfolding step
  run zero s = hangs
  run (suc fuel) s = do next ← step s; elim next [ running s' ↦ run fuel s' | halted p ↦ done p ]

  unfoldable pub vm_process_run : ℕ → VmProcess → Outcome VmProcess
  unfolding run
  vm_process_run fuel process = run fuel (start process)
