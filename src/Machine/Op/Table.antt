-- ===== src/Machine/Op/Table.antt =====
-- The dispatch table of _opcode_dispatch.h against the constants of opcode_constants.h.
use lilyvm.Base.{ℕ, zero, suc, ◌+◌, Bool, true, false, ◌||◌, ◌&&◌, ◌==◌, ◌≡◌, refl, sym, ap, ◌∙◌}
use lilyvm.Base.{◌≢◌, ◌↔◌, arith, List, [], ◌∷◌, get_or}
use lilyvm.Machine.Op.{Op, op2label, opcode, decode}

abbrev is_invalid : Op → Bool
is_invalid o = elim o [ Op.invalid ↦ true | _ ↦ false ]

-- Every entry from `n` on is `invalid` or the operation with that number.
agree : ℕ → List Op → Bool
agree n [] = true
agree n (o ∷ os) = (is_invalid o || (opcode o == n)) && agree (suc n) os

op2label-agree : agree 0 op2label ≡ true
unfolding agree opcode
op2label-agree = refl

entry :
    (n : ℕ) (os : List Op) (i : ℕ)
    → agree n os ≡ true
    → is_invalid (get_or os i Op.invalid) ≡ false
    → opcode (get_or os i Op.invalid) ≡ n + i
unfolding agree
entry n [] i h e = cc
entry n (o ∷ os) zero h e = ground arith
entry n (o ∷ os) (suc i) h e = ground (arith, entry (suc n) os i)

is_invalid-false : (o : Op) → o ≢ Op.invalid → is_invalid o ≡ false
is_invalid-false Op.invalid h = absurd (h refl)
is_invalid-false Op.load_m_im h = refl
is_invalid-false Op.load_n_im h = refl
is_invalid-false Op.load_a_im h = refl
is_invalid-false Op.load_b_im h = refl
is_invalid-false Op.push_a h = refl
is_invalid-false Op.push_b h = refl
is_invalid-false Op.pop_a h = refl
is_invalid-false Op.pop_b h = refl
is_invalid-false Op.tab h = refl
is_invalid-false Op.tba h = refl
is_invalid-false Op.swap_a h = refl
is_invalid-false Op.push_im h = refl
is_invalid-false Op.drop1 h = refl
is_invalid-false Op.pick_b h = refl
is_invalid-false Op.swap h = refl
is_invalid-false Op.dup h = refl
is_invalid-false Op.push_m h = refl
is_invalid-false Op.inc h = refl
is_invalid-false Op.inc_at h = refl
is_invalid-false Op.inc_a h = refl
is_invalid-false Op.push_n h = refl
is_invalid-false Op.swap_n h = refl
is_invalid-false Op.dec h = refl
is_invalid-false Op.dec_a h = refl
is_invalid-false Op.dec_n h = refl
is_invalid-false Op.add h = refl
is_invalid-false Op.add_im h = refl
is_invalid-false Op.add_at_at h = refl
is_invalid-false Op.add_a h = refl
is_invalid-false Op.add_m h = refl
is_invalid-false Op.mul_at_at h = refl
is_invalid-false Op.bitwise_and h = refl
is_invalid-false Op.unsafe_bitwise_and h = refl
is_invalid-false Op.unsafe_bitwise_or h = refl
is_invalid-false Op.jmp_rel8 h = refl
is_invalid-false Op.jmp_rel16 h = refl
is_invalid-false Op.jsr_rel8 h = refl
is_invalid-false Op.ret h = refl
is_invalid-false Op.ret_im h = refl
is_invalid-false Op.ret_pop h = refl
is_invalid-false Op.beq_im_rel16 h = refl
is_invalid-false Op.bpos_keep_rel16 h = refl
is_invalid-false Op.bneg0_keep_rel16 h = refl
is_invalid-false Op.bneg_keep_rel16 h = refl
is_invalid-false Op.bz_keep_rel16 h = refl
is_invalid-false Op.bz_rel16 h = refl
is_invalid-false Op.cmpbr_keep_lt_im_rel8 h = refl
is_invalid-false Op.cmpbr_a_lt_im_rel8 h = refl
is_invalid-false Op.cmpbr_n_lt_im_rel8 h = refl
is_invalid-false Op.pop_c h = refl
is_invalid-false Op.pop_d h = refl
is_invalid-false Op.load_c_im h = refl
is_invalid-false Op.load_d_im h = refl
is_invalid-false Op.push_c h = refl
is_invalid-false Op.push_d h = refl
is_invalid-false Op.pop_n_then_push_a h = refl
is_invalid-false Op.unsafe_add_a_at h = refl
is_invalid-false Op.unsafe_ld_a_at h = refl
is_invalid-false Op.unsafe_ld_b_at h = refl
is_invalid-false Op.unsafe_ld_c_at h = refl
is_invalid-false Op.unsafe_ld_d_at h = refl
is_invalid-false Op.unsafe_ld_m_int_at h = refl
is_invalid-false Op.unsafe_ld_n_int_at h = refl
is_invalid-false Op.unsafe_st_a_at h = refl
is_invalid-false Op.unsafe_st_b_at h = refl
is_invalid-false Op.unsafe_st_c_at h = refl
is_invalid-false Op.unsafe_st_d_at h = refl
is_invalid-false Op.unsafe_st_m_fix_at h = refl
is_invalid-false Op.unsafe_st_n_fix_at h = refl
is_invalid-false Op.frame_jsr_rel8_1 h = refl
is_invalid-false Op.unsafe_frame_ret h = refl
is_invalid-false Op.frame_jsr_rel8_2 h = refl
is_invalid-false Op.ld_nv_im h = refl
is_invalid-false Op.dec_then_dup h = refl
is_invalid-false Op.swap_then_dec h = refl
is_invalid-false Op.jsr_rel8_then_swap h = refl
is_invalid-false Op.fib h = refl
is_invalid-false Op.fib_with_registers h = refl
is_invalid-false Op.break h = refl
is_invalid-false Op.trace_on h = refl
is_invalid-false Op.trace_off h = refl
is_invalid-false Op.nop h = refl
is_invalid-false Op.halt h = refl

opcode-decode : (b : ℕ) → decode b ≢ Op.invalid → opcode (decode b) ≡ b
unfolding decode
opcode-decode b h =
    entry 0 op2label b op2label-agree (is_invalid-false (get_or op2label b Op.invalid) h)
    ∙ omega arith

pub decode-opcode : (o : Op) → o ≢ Op.invalid → decode (opcode o) ≡ o
unfolding decode opcode
decode-opcode Op.invalid h = absurd (h refl)
decode-opcode Op.load_m_im h = refl
decode-opcode Op.load_n_im h = refl
decode-opcode Op.load_a_im h = refl
decode-opcode Op.load_b_im h = refl
decode-opcode Op.push_a h = refl
decode-opcode Op.push_b h = refl
decode-opcode Op.pop_a h = refl
decode-opcode Op.pop_b h = refl
decode-opcode Op.tab h = refl
decode-opcode Op.tba h = refl
decode-opcode Op.swap_a h = refl
decode-opcode Op.push_im h = refl
decode-opcode Op.drop1 h = refl
decode-opcode Op.pick_b h = refl
decode-opcode Op.swap h = refl
decode-opcode Op.dup h = refl
decode-opcode Op.push_m h = refl
decode-opcode Op.inc h = refl
decode-opcode Op.inc_at h = refl
decode-opcode Op.inc_a h = refl
decode-opcode Op.push_n h = refl
decode-opcode Op.swap_n h = refl
decode-opcode Op.dec h = refl
decode-opcode Op.dec_a h = refl
decode-opcode Op.dec_n h = refl
decode-opcode Op.add h = refl
decode-opcode Op.add_im h = refl
decode-opcode Op.add_at_at h = refl
decode-opcode Op.add_a h = refl
decode-opcode Op.add_m h = refl
decode-opcode Op.mul_at_at h = refl
decode-opcode Op.bitwise_and h = refl
decode-opcode Op.unsafe_bitwise_and h = refl
decode-opcode Op.unsafe_bitwise_or h = refl
decode-opcode Op.jmp_rel8 h = refl
decode-opcode Op.jmp_rel16 h = refl
decode-opcode Op.jsr_rel8 h = refl
decode-opcode Op.ret h = refl
decode-opcode Op.ret_im h = refl
decode-opcode Op.ret_pop h = refl
decode-opcode Op.beq_im_rel16 h = refl
decode-opcode Op.bpos_keep_rel16 h = refl
decode-opcode Op.bneg0_keep_rel16 h = refl
decode-opcode Op.bneg_keep_rel16 h = refl
decode-opcode Op.bz_keep_rel16 h = refl
decode-opcode Op.bz_rel16 h = refl
decode-opcode Op.cmpbr_keep_lt_im_rel8 h = refl
decode-opcode Op.cmpbr_a_lt_im_rel8 h = refl
decode-opcode Op.cmpbr_n_lt_im_rel8 h = refl
decode-opcode Op.pop_c h = refl
decode-opcode Op.pop_d h = refl
decode-opcode Op.load_c_im h = refl
decode-opcode Op.load_d_im h = refl
decode-opcode Op.push_c h = refl
decode-opcode Op.push_d h = refl
decode-opcode Op.pop_n_then_push_a h = refl
decode-opcode Op.unsafe_add_a_at h = refl
decode-opcode Op.unsafe_ld_a_at h = refl
decode-opcode Op.unsafe_ld_b_at h = refl
decode-opcode Op.unsafe_ld_c_at h = refl
decode-opcode Op.unsafe_ld_d_at h = refl
decode-opcode Op.unsafe_ld_m_int_at h = refl
decode-opcode Op.unsafe_ld_n_int_at h = refl
decode-opcode Op.unsafe_st_a_at h = refl
decode-opcode Op.unsafe_st_b_at h = refl
decode-opcode Op.unsafe_st_c_at h = refl
decode-opcode Op.unsafe_st_d_at h = refl
decode-opcode Op.unsafe_st_m_fix_at h = refl
decode-opcode Op.unsafe_st_n_fix_at h = refl
decode-opcode Op.frame_jsr_rel8_1 h = refl
decode-opcode Op.unsafe_frame_ret h = refl
decode-opcode Op.frame_jsr_rel8_2 h = refl
decode-opcode Op.ld_nv_im h = refl
decode-opcode Op.dec_then_dup h = refl
decode-opcode Op.swap_then_dec h = refl
decode-opcode Op.jsr_rel8_then_swap h = refl
decode-opcode Op.fib h = refl
decode-opcode Op.fib_with_registers h = refl
decode-opcode Op.break h = refl
decode-opcode Op.trace_on h = refl
decode-opcode Op.trace_off h = refl
decode-opcode Op.nop h = refl
decode-opcode Op.halt h = refl

-- For an operation other than `invalid`, the bytes that the table sends to it are exactly its
-- opcode.
pub decode_iff : (o : Op) (b : ℕ) → o ≢ Op.invalid → (decode b ≡ o) ↔ (b ≡ opcode o)
decode_iff o b h = (
  λ e. sym (opcode-decode b (λ e'. h (sym e ∙ e'))) ∙ ap opcode e,
  λ e. ap decode e ∙ decode-opcode o h,
)
