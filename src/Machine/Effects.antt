-- ===== src/Machine/Effects.antt =====
-- What single instructions do to the stack and the registers, as stretches of code.
pub mod Moves
pub mod Calls
pub mod Numbers
pub mod Combined
pub mod Registers
pub mod Binary
pub mod Frames
