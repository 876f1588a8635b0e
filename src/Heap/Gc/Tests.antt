-- ===== src/Heap/Gc/Tests.antt =====
-- A process whose area is nearly full, with one bignum and words that belong to no object.
use lilyvm.Base.{◌+◌, ◌≤◌, ◌≡◌, ◌≢◌, refl, sym, arith, inl, inr, ◌⊎◌}
use lilyvm.Base.{List, [], ◌∷◌, replicate}
use lilyvm.Outcome.{done, dies, hangs, out_of_memory}
use lilyvm.Value.{is_allocated}
use lilyvm.Process.{VmProcess}
use lilyvm.Heap.{allocated_ptr, load_words, ptr_numwords}
use lilyvm.Heap.Alloc.{vm_process_alloc}
use lilyvm.Heap.Object.{HasObject}
use lilyvm.Heap.Gc.{vm_mem_gc}
use lilyvm.Heap.Gc.Tiles.{Obj, head_of}
use lilyvm.Heap.Gc.Promise.{IsNumberHeap, HasRoots, IsCollected}
use lilyvm.Heap.Gc.Collect.{vm_mem_gc-IsCollected}
use lilyvm.Heap.Gc.Allocate.{IsAllocated, vm_process_alloc-IsAllocated}
use lilyvm.Heap.Gc.Rounds.{vm_mem_gc-ends}

-- The bignum 5000 at the index 6; `a`, the top of the stack and a val root stand for it.
abbrev pub one_bignum : VmProcess
one_bignum = record {
  a = 12;
  b = 15;
  c = 41;
  d = 41;
  alloc_size = 16;
  alloc_area = 0;
  alloc_area_fresh = 8;
  alloc_ptr = 3;
  gc_count = 0;
  gc_moves = 0;
  val_roots = 12 ∷ 15 ∷ [];
  ptr_roots = [];
  stack = record { sp = 1; len = 2; vals = 12 ∷ 0 ∷ [] };
  heap = 0 ∷ 0 ∷ 0 ∷ 0x9999 ∷ 0x9999 ∷ 0x9999 ∷ 384 ∷ 5000 ∷ replicate 8 0xBBBB;
}

abbrev pub the_bignum : Obj
the_bignum = record { at = 6; len = 1 }

pub one_bignum-IsNumberHeap : IsNumberHeap one_bignum (the_bignum ∷ [])
one_bignum-IsNumberHeap = record {
  narrow = omega arith;
  from_in = omega arith;
  to_in = omega arith;
  apart = inl (omega arith);
  guard = omega arith;
  spaced = (omega arith, omega arith, omega arith, omega arith);
  heads = λ o h. elim h [ inl e ↦ rw (sym e) refl | inr k ↦ absurd k ];
}

pub one_bignum-HasRoots : HasRoots one_bignum (the_bignum ∷ [])
unfolding is_allocated
one_bignum-HasRoots = record {
  a_root = inr (the_bignum, inl refl, refl);
  b_root = inl refl;
  c_root = inl refl;
  d_root = inl refl;
  vals = (inr (the_bignum, inl refl, refl), (inl refl, tt));
  ptrs = tt;
  stack = (inr (the_bignum, inl refl, refl), tt);
}

-- Two words from its head on, read through the value 12.
pub one_bignum-HasObject : HasObject one_bignum 12 6 (head_of the_bignum) (5000 ∷ [])
unfolding is_allocated allocated_ptr load_words ptr_numwords
one_bignum-HasObject = record {
  tagged = refl;
  stands = refl;
  head_at = refl;
  sized = refl;
  word_at = λ j k h e.
      let first : k ≡ 0 = omega arith in let here : j ≡ 7 = omega arith in rw (first, here) refl;
  body_at = refl;
}

vm_mem_gc-IsCollected_example :
    (p' : VmProcess) × (os' : List Obj) × (vm_mem_gc one_bignum ≡ done p')
    × IsCollected one_bignum p' os'
vm_mem_gc-IsCollected_example =
    vm_mem_gc-IsCollected one_bignum (the_bignum ∷ []) one_bignum-IsNumberHeap one_bignum-HasRoots

-- Four words are there only after a collection.
vm_process_alloc-IsAllocated_example :
    ((p' : VmProcess) × (os' : List Obj) × (vm_process_alloc one_bignum 4 ≡ done (p'.alloc_ptr, p'))
      × IsAllocated one_bignum 4 p' os')
    ⊎ ((p1 : VmProcess) × (os1 : List Obj) × (vm_mem_gc one_bignum ≡ done p1)
        × IsCollected one_bignum p1 os1
        × (p1.alloc_ptr ≤ p1.alloc_area + 4)
        × (vm_process_alloc one_bignum 4 ≡ dies out_of_memory))
vm_process_alloc-IsAllocated_example =
    vm_process_alloc-IsAllocated one_bignum (the_bignum ∷ []) 4 one_bignum-IsNumberHeap
      one_bignum-HasRoots

vm_mem_gc-ends_example : (vm_mem_gc one_bignum ≢ hangs) × (vm_process_alloc one_bignum 4 ≢ hangs)
vm_mem_gc-ends_example = vm_mem_gc-ends one_bignum 4
