-- ===== src/Machine/State.antt =====
-- The interpreter's local registers beside the process, the code, and the macros that move between
-- them (vm.c and the head of _opcode_dispatch.h).
use lilyvm.Base.{ℕ, ◌+◌, ◌-◌, ◌*◌, ◌^◌, List, get_elem?, ltb, if◌then◌else◌}
use lilyvm.Base.{ℤ, pos, negsuc, ◌+ℤ◌}
use lilyvm.Outcome.{Outcome, done, fault, ◌>>=◌, defined}
use lilyvm.Process.{VmProcess}

-- The variables of `vm_process_run`: `pc` is the offset from `code`.
pub record Machine : Type 0 where
  pub process : VmProcess
  pub a : ℕ
  pub b : ℕ
  pub c : ℕ
  pub d : ℕ
  pub m : ℕ
  pub n : ℕ
  pub nv : ℕ
  pub sp : ℕ
  pub pc : ℕ

pub data Reg : Type 0 where
  reg_a reg_b reg_c reg_d : Reg

abbrev pub get_reg : Reg → Machine → ℕ
get_reg reg_a s = s.a
get_reg reg_b s = s.b
get_reg reg_c s = s.c
get_reg reg_d s = s.d

abbrev pub set_reg : Reg → ℕ → Machine → Machine
set_reg reg_a v s = record s { a = v }
set_reg reg_b v s = record s { b = v }
set_reg reg_c v s = record s { c = v }
set_reg reg_d v s = record s { d = v }

abbrev pub with_process : VmProcess → Machine → Machine
with_process p s = record s { process = p }

-- `_STORESP`, `_RESTORESP`
abbrev pub store_sp : Machine → Machine
store_sp s = record s {
  process = record s.process { stack = record s.process.stack { sp = s.sp } };
}

abbrev pub restore_sp : Machine → Machine
restore_sp s = record s { sp = s.process.stack.sp }

unfoldable pub store_all : Machine → Machine
store_all s =
    let p = record s.process { a = s.a; b = s.b; c = s.c; d = s.d } in
    store_sp (record s { process = p })

unfoldable pub restore_all : Machine → Machine
restore_all s = let p = s.process in restore_sp (record s { a = p.a; b = p.b; c = p.c; d = p.d })

unfoldable pub store_except_a : Machine → Machine
store_except_a s =
    let p = record s.process { b = s.b; c = s.c; d = s.d } in store_sp (record s { process = p })

unfoldable pub restore_except_a : Machine → Machine
restore_except_a s = let p = s.process in restore_sp (record s { b = p.b; c = p.c; d = p.d })

-- The registers at the start of `vm_process_run`.
abbrev pub start : VmProcess → Machine
start p = record {
  process = p;
  a = p.a;
  b = p.b;
  c = p.c;
  d = p.d;
  m = 0;
  n = 0;
  nv = 0;
  sp = p.stack.sp;
  pc = 0;
}

-- `pc[i]`: a byte of the code.
abbrev pub byte_at : List ℕ → Machine → ℕ → Outcome ℕ
byte_at code s i = defined (get_elem? code (s.pc + i))

-- `ARGB1`, `ARGB2`, `ARGB3`
unfoldable pub arg_b : List ℕ → Machine → ℕ → Outcome ℕ
arg_b code s i = byte_at code s i

-- `ARGIM1` is at 1, `ARGIM2` at 3: two bytes, the low one first.
unfoldable pub arg_im : List ℕ → Machine → ℕ → Outcome ℕ
arg_im code s i = do lo ← byte_at code s i; hi ← byte_at code s (i + 1); done (lo + hi * 2 ^ 8)

-- `(int8_t) b`, `(int16_t) w`
abbrev pub signed8 : ℕ → ℤ
signed8 b = if ltb b 128 then pos b else negsuc (255 - b)

abbrev pub jump_to : Machine → ℤ → Outcome Machine
jump_to s (pos n) = done (record s { pc = n })
jump_to s (negsuc n) = fault

-- `pc += rel`; a jump to before the code is outside it.
unfoldable pub jump : Machine → ℤ → Outcome Machine
unfolding ◌+ℤ◌
jump s rel = jump_to s (pos s.pc +ℤ rel)

-- `pc += k` at the end of an operation.
abbrev pub advance : ℕ → Machine → Machine
advance k s = record s { pc = s.pc + k }

-- `SET_PC`
abbrev pub set_pc : ℕ → Machine → Machine
set_pc i s = record s { pc = i }
