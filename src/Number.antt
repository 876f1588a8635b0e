-- ===== src/Number.antt =====
-- The arithmetic of the guest language: the macros `_NUMBER_DISPATCH`, `DO_FIXADDINT_TO_SCM`,
-- `DO_FIXNUM_ADD`, `DO_SCM_ADD`, `DO_SCM_DEC` (vm_mem.h) and the functions `scm_*` (vm_mem.c).
pub mod Bignums
pub mod Dispatch
pub mod Scm
pub mod Objects
pub mod Value
pub mod Add
pub mod Cons
pub mod Arguments
pub mod Sum
pub mod Compare
pub mod Step
mod Tests
