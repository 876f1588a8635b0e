-- ===== src/Heap/Tests.antt =====
-- A process with areas of eight words and nothing allocated.
use lilyvm.Base.{arith, [], replicate, ◌++◌}
use lilyvm.Process.{VmProcess}
use lilyvm.Heap.Fresh.{IsLaidOut}

abbrev pub eight_words : VmProcess
eight_words = record {
  a = 41;
  b = 41;
  c = 41;
  d = 41;
  alloc_size = 16;
  alloc_area = 0;
  alloc_area_fresh = 8;
  alloc_ptr = 8;
  gc_count = 0;
  gc_moves = 0;
  val_roots = [];
  ptr_roots = [];
  stack = record { sp = 0; len = 0; vals = [] };
  heap = replicate 8 0xAAAA ++ replicate 8 0xBBBB;
}

pub eight_words-IsLaidOut : IsLaidOut eight_words
eight_words-IsLaidOut = record {
  small = omega arith;
  inside = omega arith;
  above = omega arith;
  below = omega arith;
}
