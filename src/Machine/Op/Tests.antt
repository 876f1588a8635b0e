-- ===== src/Machine/Op/Tests.antt =====
-- The dispatch table at one opcode.
use lilyvm.Base.{◌≡◌, ◌≢◌, ◌↔◌}
use lilyvm.Machine.Op.{Op, opcode, decode}
use lilyvm.Machine.Op.Table.{decode_iff}

inc-valid : Op.inc ≢ Op.invalid
inc-valid e = cc

decode_iff_example : (decode 20 ≡ Op.inc) ↔ (20 ≡ opcode Op.inc)
decode_iff_example = decode_iff Op.inc 20 inc-valid
