-- ===== src/Machine.antt =====
-- The interpreter: `vm_process_run` (vm.c) and the operations of _opcode_dispatch.h.
pub mod Op
pub mod State
pub mod Start
pub mod Stack
pub mod Assembler
pub mod Ops
pub mod Run
pub mod Trace
pub mod Effects
pub mod Halts
pub mod Fresh
pub mod Fib
pub mod Tests
