-- ===== src/Machine/Op.antt =====
-- The opcodes: the dispatch table of _opcode_dispatch.h and the constants of opcode_constants.h,
-- which opcodes.scm generates side by side.
pub mod Table
mod Tests
use lilyvm.Base.{ℕ, List, [], ◌∷◌, get_or}

-- An operation is spelled as in the source, with `at` for an operand on the stack and `then` between
-- the parts of a combined one.
pub data Op : Type 0 where
  invalid load_m_im load_n_im load_a_im load_b_im push_a push_b pop_a pop_b tab tba : Op
  swap_a push_im drop1 pick_b swap dup push_m inc inc_at inc_a push_n swap_n dec dec_a : Op
  dec_n add add_im add_at_at add_a add_m mul_at_at bitwise_and unsafe_bitwise_and : Op
  unsafe_bitwise_or jmp_rel8 jmp_rel16 jsr_rel8 ret ret_im ret_pop beq_im_rel16 : Op
  bpos_keep_rel16 bneg0_keep_rel16 bneg_keep_rel16 bz_keep_rel16 bz_rel16 : Op
  cmpbr_keep_lt_im_rel8 cmpbr_a_lt_im_rel8 cmpbr_n_lt_im_rel8 pop_c pop_d load_c_im : Op
  load_d_im push_c push_d pop_n_then_push_a unsafe_add_a_at unsafe_ld_a_at : Op
  unsafe_ld_b_at unsafe_ld_c_at unsafe_ld_d_at unsafe_ld_m_int_at unsafe_ld_n_int_at : Op
  unsafe_st_a_at unsafe_st_b_at unsafe_st_c_at unsafe_st_d_at unsafe_st_m_fix_at : Op
  unsafe_st_n_fix_at frame_jsr_rel8_1 unsafe_frame_ret frame_jsr_rel8_2 ld_nv_im : Op
  dec_then_dup swap_then_dec jsr_rel8_then_swap fib fib_with_registers break trace_on : Op
  trace_off nop halt : Op

-- `op2label`
abbrev pub op2label : List Op
op2label =
    Op.invalid ∷ Op.load_m_im ∷ Op.load_n_im ∷ Op.invalid ∷ Op.invalid ∷ Op.load_a_im ∷ Op.load_b_im
    ∷ Op.push_a ∷ Op.push_b ∷ Op.pop_a ∷ Op.pop_b ∷ Op.tab ∷ Op.tba ∷ Op.swap_a ∷ Op.push_im
    ∷ Op.drop1 ∷ Op.pick_b ∷ Op.swap ∷ Op.dup ∷ Op.push_m ∷ Op.inc ∷ Op.inc_at ∷ Op.inc_a
    ∷ Op.push_n ∷ Op.swap_n ∷ Op.dec ∷ Op.dec_a ∷ Op.dec_n ∷ Op.invalid ∷ Op.invalid ∷ Op.add
    ∷ Op.add_im ∷ Op.add_at_at ∷ Op.add_a ∷ Op.add_m ∷ Op.mul_at_at ∷ Op.invalid ∷ Op.invalid
    ∷ Op.invalid ∷ Op.invalid ∷ Op.bitwise_and ∷ Op.unsafe_bitwise_and ∷ Op.unsafe_bitwise_or
    ∷ Op.invalid ∷ Op.invalid ∷ Op.invalid ∷ Op.invalid ∷ Op.invalid ∷ Op.invalid ∷ Op.invalid
    ∷ Op.invalid ∷ Op.invalid ∷ Op.invalid ∷ Op.invalid ∷ Op.invalid ∷ Op.invalid ∷ Op.invalid
    ∷ Op.invalid ∷ Op.invalid ∷ Op.invalid ∷ Op.invalid ∷ Op.invalid ∷ Op.invalid ∷ Op.invalid
    ∷ Op.invalid ∷ Op.invalid ∷ Op.invalid ∷ Op.invalid ∷ Op.invalid ∷ Op.invalid ∷ Op.invalid
    ∷ Op.invalid ∷ Op.invalid ∷ Op.invalid ∷ Op.invalid ∷ Op.invalid ∷ Op.invalid ∷ Op.invalid
    ∷ Op.invalid ∷ Op.invalid ∷ Op.jmp_rel8 ∷ Op.jmp_rel16 ∷ Op.invalid ∷ Op.invalid ∷ Op.invalid
    ∷ Op.jsr_rel8 ∷ Op.ret ∷ Op.ret_im ∷ Op.ret_pop ∷ Op.invalid ∷ Op.invalid ∷ Op.beq_im_rel16
    ∷ Op.bpos_keep_rel16 ∷ Op.bneg0_keep_rel16 ∷ Op.bneg_keep_rel16 ∷ Op.bz_keep_rel16 ∷ Op.bz_rel16
    ∷ Op.invalid ∷ Op.invalid ∷ Op.invalid ∷ Op.cmpbr_keep_lt_im_rel8 ∷ Op.cmpbr_a_lt_im_rel8
    ∷ Op.cmpbr_n_lt_im_rel8 ∷ Op.invalid ∷ Op.invalid ∷ Op.invalid ∷ Op.invalid ∷ Op.invalid
    ∷ Op.invalid ∷ Op.invalid ∷ Op.pop_c ∷ Op.pop_d ∷ Op.invalid ∷ Op.invalid ∷ Op.invalid
    ∷ Op.invalid ∷ Op.invalid ∷ Op.invalid ∷ Op.invalid ∷ Op.invalid ∷ Op.invalid ∷ Op.invalid
    ∷ Op.invalid ∷ Op.invalid ∷ Op.invalid ∷ Op.load_c_im ∷ Op.load_d_im ∷ Op.invalid ∷ Op.push_c
    ∷ Op.push_d ∷ Op.pop_n_then_push_a ∷ Op.invalid ∷ Op.invalid ∷ Op.unsafe_add_a_at ∷ Op.invalid
    ∷ Op.invalid ∷ Op.invalid ∷ Op.invalid ∷ Op.invalid ∷ Op.invalid ∷ Op.unsafe_ld_a_at
    ∷ Op.unsafe_ld_b_at ∷ Op.unsafe_ld_c_at ∷ Op.unsafe_ld_d_at ∷ Op.unsafe_ld_m_int_at
    ∷ Op.unsafe_ld_n_int_at ∷ Op.invalid ∷ Op.invalid ∷ Op.invalid ∷ Op.invalid ∷ Op.unsafe_st_a_at
    ∷ Op.unsafe_st_b_at ∷ Op.unsafe_st_c_at ∷ Op.unsafe_st_d_at ∷ Op.unsafe_st_m_fix_at
    ∷ Op.unsafe_st_n_fix_at ∷ Op.invalid ∷ Op.invalid ∷ Op.invalid ∷ Op.invalid ∷ Op.invalid
    ∷ Op.invalid ∷ Op.invalid ∷ Op.invalid ∷ Op.invalid ∷ Op.invalid ∷ Op.invalid ∷ Op.invalid
    ∷ Op.invalid ∷ Op.invalid ∷ Op.invalid ∷ Op.invalid ∷ Op.invalid ∷ Op.invalid ∷ Op.invalid
    ∷ Op.invalid ∷ Op.invalid ∷ Op.invalid ∷ Op.invalid ∷ Op.invalid ∷ Op.invalid ∷ Op.invalid
    ∷ Op.invalid ∷ Op.invalid ∷ Op.invalid ∷ Op.frame_jsr_rel8_1 ∷ Op.unsafe_frame_ret
    ∷ Op.frame_jsr_rel8_2 ∷ Op.invalid ∷ Op.invalid ∷ Op.ld_nv_im ∷ Op.invalid ∷ Op.invalid
    ∷ Op.invalid ∷ Op.invalid ∷ Op.invalid ∷ Op.invalid ∷ Op.invalid ∷ Op.invalid ∷ Op.invalid
    ∷ Op.dec_then_dup ∷ Op.swap_then_dec ∷ Op.jsr_rel8_then_swap ∷ Op.invalid ∷ Op.invalid
    ∷ Op.invalid ∷ Op.invalid ∷ Op.invalid ∷ Op.invalid ∷ Op.invalid ∷ Op.invalid ∷ Op.invalid
    ∷ Op.invalid ∷ Op.invalid ∷ Op.invalid ∷ Op.invalid ∷ Op.invalid ∷ Op.invalid ∷ Op.invalid
    ∷ Op.invalid ∷ Op.fib ∷ Op.fib_with_registers ∷ Op.invalid ∷ Op.invalid ∷ Op.invalid
    ∷ Op.invalid ∷ Op.invalid ∷ Op.invalid ∷ Op.invalid ∷ Op.invalid ∷ Op.invalid ∷ Op.invalid
    ∷ Op.invalid ∷ Op.invalid ∷ Op.invalid ∷ Op.invalid ∷ Op.invalid ∷ Op.invalid ∷ Op.invalid
    ∷ Op.invalid ∷ Op.invalid ∷ Op.invalid ∷ Op.invalid ∷ Op.invalid ∷ Op.invalid ∷ Op.invalid
    ∷ Op.invalid ∷ Op.invalid ∷ Op.invalid ∷ Op.invalid ∷ Op.invalid ∷ Op.break ∷ Op.trace_on
    ∷ Op.trace_off ∷ Op.nop ∷ Op.halt ∷ []

-- The label that an opcode byte goes to.
unfoldable pub decode : ℕ → Op
decode opcode = get_or op2label opcode Op.invalid

-- The constants `OP_*` of opcode_constants.h. `invalid` has none, and the number is no byte.
unfoldable pub opcode : Op → ℕ
opcode Op.invalid = 256
opcode Op.load_m_im = 1
opcode Op.load_n_im = 2
opcode Op.load_a_im = 5
opcode Op.load_b_im = 6
opcode Op.push_a = 7
opcode Op.push_b = 8
opcode Op.pop_a = 9
opcode Op.pop_b = 10
opcode Op.tab = 11
opcode Op.tba = 12
opcode Op.swap_a = 13
opcode Op.push_im = 14
opcode Op.drop1 = 15
opcode Op.pick_b = 16
opcode Op.swap = 17
opcode Op.dup = 18
opcode Op.push_m = 19
opcode Op.inc = 20
opcode Op.inc_at = 21
opcode Op.inc_a = 22
opcode Op.push_n = 23
opcode Op.swap_n = 24
opcode Op.dec = 25
opcode Op.dec_a = 26
opcode Op.dec_n = 27
opcode Op.add = 30
opcode Op.add_im = 31
opcode Op.add_at_at = 32
opcode Op.add_a = 33
opcode Op.add_m = 34
opcode Op.mul_at_at = 35
opcode Op.bitwise_and = 40
opcode Op.unsafe_bitwise_and = 41
opcode Op.unsafe_bitwise_or = 42
opcode Op.jmp_rel8 = 80
opcode Op.jmp_rel16 = 81
opcode Op.jsr_rel8 = 85
opcode Op.ret = 86
opcode Op.ret_im = 87
opcode Op.ret_pop = 88
opcode Op.beq_im_rel16 = 91
opcode Op.bpos_keep_rel16 = 92
opcode Op.bneg0_keep_rel16 = 93
opcode Op.bneg_keep_rel16 = 94
opcode Op.bz_keep_rel16 = 95
opcode Op.bz_rel16 = 96
opcode Op.cmpbr_keep_lt_im_rel8 = 100
opcode Op.cmpbr_a_lt_im_rel8 = 101
opcode Op.cmpbr_n_lt_im_rel8 = 102
opcode Op.pop_c = 110
opcode Op.pop_d = 111
opcode Op.load_c_im = 125
opcode Op.load_d_im = 126
opcode Op.push_c = 128
opcode Op.push_d = 129
opcode Op.pop_n_then_push_a = 130
opcode Op.unsafe_add_a_at = 133
opcode Op.unsafe_ld_a_at = 140
opcode Op.unsafe_ld_b_at = 141
opcode Op.unsafe_ld_c_at = 142
opcode Op.unsafe_ld_d_at = 143
opcode Op.unsafe_ld_m_int_at = 144
opcode Op.unsafe_ld_n_int_at = 145
opcode Op.unsafe_st_a_at = 150
opcode Op.unsafe_st_b_at = 151
opcode Op.unsafe_st_c_at = 152
opcode Op.unsafe_st_d_at = 153
opcode Op.unsafe_st_m_fix_at = 154
opcode Op.unsafe_st_n_fix_at = 155
opcode Op.frame_jsr_rel8_1 = 185
opcode Op.unsafe_frame_ret = 186
opcode Op.frame_jsr_rel8_2 = 187
opcode Op.ld_nv_im = 190
opcode Op.dec_then_dup = 200
opcode Op.swap_then_dec = 201
opcode Op.jsr_rel8_then_swap = 202
opcode Op.fib = 220
opcode Op.fib_with_registers = 221
opcode Op.break = 251
opcode Op.trace_on = 252
opcode Op.trace_off = 253
opcode Op.nop = 254
opcode Op.halt = 255

-- The bytes of immediate arguments that opcode_constants.h gives for each operation.
unfoldable pub immediate_bytes : Op → ℕ
immediate_bytes Op.invalid = 0
immediate_bytes Op.load_m_im = 2
immediate_bytes Op.load_n_im = 2
immediate_bytes Op.load_a_im = 2
immediate_bytes Op.load_b_im = 2
immediate_bytes Op.push_a = 0
immediate_bytes Op.push_b = 0
immediate_bytes Op.pop_a = 0
immediate_bytes Op.pop_b = 0
immediate_bytes Op.tab = 0
immediate_bytes Op.tba = 0
immediate_bytes Op.swap_a = 0
immediate_bytes Op.push_im = 2
immediate_bytes Op.drop1 = 0
immediate_bytes Op.pick_b = 1
immediate_bytes Op.swap = 0
immediate_bytes Op.dup = 0
immediate_bytes Op.push_m = 0
immediate_bytes Op.inc = 0
immediate_bytes Op.inc_at = 1
immediate_bytes Op.inc_a = 0
immediate_bytes Op.push_n = 0
immediate_bytes Op.swap_n = 0
immediate_bytes Op.dec = 0
immediate_bytes Op.dec_a = 0
immediate_bytes Op.dec_n = 0
immediate_bytes Op.add = 0
immediate_bytes Op.add_im = 2
immediate_bytes Op.add_at_at = 2
immediate_bytes Op.add_a = 0
immediate_bytes Op.add_m = 0
immediate_bytes Op.mul_at_at = 2
immediate_bytes Op.bitwise_and = 0
immediate_bytes Op.unsafe_bitwise_and = 0
immediate_bytes Op.unsafe_bitwise_or = 0
immediate_bytes Op.jmp_rel8 = 1
immediate_bytes Op.jmp_rel16 = 2
immediate_bytes Op.jsr_rel8 = 1
immediate_bytes Op.ret = 0
immediate_bytes Op.ret_im = 2
immediate_bytes Op.ret_pop = 0
immediate_bytes Op.beq_im_rel16 = 4
immediate_bytes Op.bpos_keep_rel16 = 2
immediate_bytes Op.bneg0_keep_rel16 = 2
immediate_bytes Op.bneg_keep_rel16 = 2
immediate_bytes Op.bz_keep_rel16 = 2
immediate_bytes Op.bz_rel16 = 2
immediate_bytes Op.cmpbr_keep_lt_im_rel8 = 3
immediate_bytes Op.cmpbr_a_lt_im_rel8 = 3
immediate_bytes Op.cmpbr_n_lt_im_rel8 = 3
immediate_bytes Op.pop_c = 0
immediate_bytes Op.pop_d = 0
immediate_bytes Op.load_c_im = 2
immediate_bytes Op.load_d_im = 2
immediate_bytes Op.push_c = 0
immediate_bytes Op.push_d = 0
immediate_bytes Op.pop_n_then_push_a = 0
immediate_bytes Op.unsafe_add_a_at = 1
immediate_bytes Op.unsafe_ld_a_at = 1
immediate_bytes Op.unsafe_ld_b_at = 1
immediate_bytes Op.unsafe_ld_c_at = 1
immediate_bytes Op.unsafe_ld_d_at = 1
immediate_bytes Op.unsafe_ld_m_int_at = 1
immediate_bytes Op.unsafe_ld_n_int_at = 1
immediate_bytes Op.unsafe_st_a_at = 1
immediate_bytes Op.unsafe_st_b_at = 1
immediate_bytes Op.unsafe_st_c_at = 1
immediate_bytes Op.unsafe_st_d_at = 1
immediate_bytes Op.unsafe_st_m_fix_at = 1
immediate_bytes Op.unsafe_st_n_fix_at = 1
immediate_bytes Op.frame_jsr_rel8_1 = 1
immediate_bytes Op.unsafe_frame_ret = 1
immediate_bytes Op.frame_jsr_rel8_2 = 1
immediate_bytes Op.ld_nv_im = 1
immediate_bytes Op.dec_then_dup = 0
immediate_bytes Op.swap_then_dec = 0
immediate_bytes Op.jsr_rel8_then_swap = 1
immediate_bytes Op.fib = 0
immediate_bytes Op.fib_with_registers = 0
immediate_bytes Op.break = 0
immediate_bytes Op.trace_on = 0
immediate_bytes Op.trace_off = 0
immediate_bytes Op.nop = 0
immediate_bytes Op.halt = 0
