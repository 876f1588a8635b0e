-- ===== src/Machine/Ops.antt =====
-- The operations of _opcode_dispatch.h. Each takes the code and the machine, whose `pc` is at the
-- opcode, and leaves `pc` at the next one.
pub mod Moves
pub mod Arith
pub mod Jumps
pub mod Calls
pub mod Frames
pub mod Lost
pub mod Branches
pub mod Combined
pub mod Fib
mod Tests
