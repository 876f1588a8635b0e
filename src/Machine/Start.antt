-- ===== src/Machine/Start.antt =====
-- The process that `malloc_process` makes.
use lilyvm.Base.{ℕ, ◌*◌, ◌^◌, ◌≤◌, ◌<◌, ◌≡◌, refl, inl, arith, List, [], ◌++◌}
use lilyvm.Base.{length, length-append, length-replicate, replicate, some, true}
use lilyvm.Process.{VmProcess, malloc_process}
use lilyvm.Machine.State.{start}
use lilyvm.Machine.Stack.Contents.{IsValid, contents}
use lilyvm.Value.{uninitialized, is_allocated}
use lilyvm.Outcome.{done}
use lilyvm.Heap.Fresh.{IsLaidOut, HasRoom}
use lilyvm.Heap.Gc.{vm_mem_gc}
use lilyvm.Heap.Gc.Tiles.{Obj}
use lilyvm.Heap.Gc.Promise.{IsNumberHeap, HasRoots, IsCollected}
use lilyvm.Heap.Gc.Collect.{vm_mem_gc-IsCollected}

-- The bound of the stack.
pub malloc_process-len :
    (stacklen numheapwords : ℕ) (p : VmProcess)
    → malloc_process true true stacklen numheapwords ≡ some p
    → p.stack.len ≡ stacklen
unfolding malloc_process
malloc_process-len stacklen numheapwords p e = cc

-- The process in full.
abbrev made_process : ℕ → ℕ → VmProcess
made_process stacklen numheapwords = record {
  a = uninitialized;
  b = uninitialized;
  c = uninitialized;
  d = uninitialized;
  alloc_size = numheapwords * 2;
  alloc_area = 0;
  alloc_area_fresh = numheapwords;
  alloc_ptr = numheapwords;
  gc_count = 0;
  gc_moves = 0;
  val_roots = [];
  ptr_roots = [];
  stack = record { sp = 0; len = stacklen; vals = replicate stacklen 0xCCCC };
  heap = replicate numheapwords 0xAAAA ++ replicate numheapwords 0xBBBB;
}

module _ (stacklen numheapwords : ℕ) where
  -- With memory given, for areas of 1 to 32768 words and a stack of fewer than 65536 values,
  -- `malloc_process` makes a process as the collector takes it, with no objects: two areas in the
  -- block, apart from each other, the pointer at the end of the one in use, and no root that is a
  -- pointer. It has room for every allocation of fewer words than an area has, and its stack is
  -- valid and empty. A collection of it ends, with the areas exchanged.
  pub malloc_process-IsLaidOut :
      (0 < numheapwords)
      → numheapwords ≤ 2 ^ 15
      → stacklen < 2 ^ 16
      → (p : VmProcess) × (malloc_process true true stacklen numheapwords ≡ some p)
        × IsLaidOut p
        × IsNumberHeap p []
        × HasRoots p []
        × ((p' : VmProcess) × (os' : List Obj) × (vm_mem_gc p ≡ done p') × IsCollected p p' os')
        × ((n : ℕ) → n < numheapwords → HasRoom p n)
        × IsValid (start p)
        × (contents (start p) ≡ [])
  unfolding malloc_process is_allocated
  malloc_process-IsLaidOut some_words small narrow =
      let low : List ℕ = replicate numheapwords 0xAAAA in
      let high : List ℕ = replicate numheapwords 0xBBBB in
      let all = length-append low high in
      let lows : length low ≡ numheapwords = length-replicate {A = ℕ} numheapwords 0xAAAA in
      let highs : length high ≡ numheapwords = length-replicate {A = ℕ} numheapwords 0xBBBB in
      let fresh : IsNumberHeap (made_process stacklen numheapwords) [] = record {
        narrow = omega arith;
        from_in = omega (arith, all, lows, highs);
        to_in = omega (arith, all, lows, highs);
        apart = inl (omega arith);
        guard = omega arith;
        spaced = omega arith;
        heads = λ o h. absurd h;
      } in
      let roots : HasRoots (made_process stacklen numheapwords) [] = record {
        a_root = inl refl;
        b_root = inl refl;
        c_root = inl refl;
        d_root = inl refl;
        vals = tt;
        ptrs = tt;
        stack = tt;
      } in
      (
        made_process stacklen numheapwords,
        refl,
        record {
          small = omega arith;
          inside = omega (arith, all, lows, highs);
          above = omega arith;
          below = omega arith;
        },
        fresh,
        roots,
        vm_mem_gc-IsCollected (made_process stacklen numheapwords) [] fresh roots,
        λ n h. omega arith,
        record {
          full = length-replicate {A = ℕ} stacklen 0xCCCC;
          within = omega arith;
          narrow = narrow;
        },
        refl,
      )
