-- ===== src/Heap/Gc.antt =====
-- The copying collector: `_gc_handle_slot_move`, `GC_HANDLE_SLOT` and `vm_mem_gc` of vm_mem.c.
pub mod Tiles
pub mod Move
pub mod Invariant
pub mod Slot
pub mod Pairwise
pub mod Roots
pub mod Walk
pub mod Steps
pub mod Rounds
pub mod Promise
pub mod Collect
pub mod Same
pub mod Lower
pub mod Ptrs
pub mod Allocate
pub mod Tests
use lilyvm.Base.{ℕ, zero, suc, ◌+◌, ◌-◌, ◌/◌, ◌%◌, ◌^◌, not}
use lilyvm.Base.{List, [], ◌∷◌, length, ltb, leb, ◌==◌, if◌then◌else◌}
use lilyvm.Outcome.{Outcome, done, fault, hangs, ◌>>=◌, ◌>>◌, assert, inside}
use lilyvm.Value.{is_allocated}
use lilyvm.Process.{VmProcess}
use lilyvm.Heap.{load, store, load_words, store_words, offset_from, checked_offset, ptr_numwords}
use lilyvm.Heap.{ptr_type, type_is_binary}

-- What a collection changes: the block, `newptr` and the count of moves.
pub record Collection : Type 0 where
  pub heap : List ℕ
  pub newptr : ℕ
  pub moves : ℕ

-- `from` and `to` are `alloc_area` and `alloc_area_fresh`, `size` is `alloc_size`.
module _ (from to size : ℕ) where
  -- The branch of `_gc_handle_slot_move` for an object at `p` that has not moved.
  unfoldable pub gc_move : ℕ → ℕ → Collection → Outcome (ℕ × Collection)
  unfolding load_words store_words offset_from
  gc_move p len g = do
    assert (ltb len 30)
    inside (leb (len + 1) g.newptr)
    let newptr = g.newptr - (len + 1)
    words ← load_words g.heap p (len + 1)
    copied ← store_words g.heap newptr words
    vnew ← offset_from to size newptr
    head ← load copied p
    marked ← store copied p (head % 2 ^ 8)
    forwarded ← store marked (p + 1) vnew
    done (vnew, record { heap = forwarded; newptr = newptr; moves = (g.moves + 1) % 2 ^ 64 })

  -- An object that has moved already.
  unfoldable pub gc_forwarded : ℕ → Collection → Outcome (ℕ × Collection)
  gc_forwarded p g = do vnew ← load g.heap (p + 1); done (vnew, g)

  -- `_gc_handle_slot_move` on the value of a slot: the slot's new value comes back.
  unfoldable pub gc_handle_slot_move : ℕ → Collection → Outcome (ℕ × Collection)
  unfolding checked_offset ptr_numwords gc_move gc_forwarded
  gc_handle_slot_move v g = do
    p ← checked_offset from size v
    len ← ptr_numwords g.heap p
    if len == 0 then gc_forwarded p g else gc_move p len g

  -- `GC_HANDLE_SLOT`
  unfoldable pub gc_handle_slot : ℕ → Collection → Outcome (ℕ × Collection)
  unfolding gc_handle_slot_move
  gc_handle_slot v g = if is_allocated v then gc_handle_slot_move v g else done (v, g)

  -- The loop over `val_roots`.
  unfoldable pub gc_val_roots : List ℕ → Collection → Outcome (List ℕ × Collection)
  unfolding gc_handle_slot
  gc_val_roots [] g = done ([], g)
  gc_val_roots (v ∷ vs) g = do
    (v', g1) ← gc_handle_slot v g
    (vs', g2) ← gc_val_roots vs g1
    done (v' ∷ vs', g2)

  -- The loop over `ptr_roots`, pointers to the bodies of objects.
  unfoldable pub gc_ptr_roots : List ℕ → Collection → Outcome (List ℕ × Collection)
  unfolding gc_handle_slot offset_from checked_offset ptr_numwords
  gc_ptr_roots [] g = done ([], g)
  gc_ptr_roots (pp ∷ pps) g = do
    v ← offset_from from size (pp - 1)
    (v', g1) ← gc_handle_slot v g
    p ← checked_offset to size v'
    n ← ptr_numwords g1.heap p
    assert (not (n == 0))
    (pps', g2) ← gc_ptr_roots pps g1
    done ((p + 1) ∷ pps', g2)

  -- The loop over the first `sp` elements of the execution stack.
  unfoldable pub gc_stack : ℕ → List ℕ → Collection → Outcome (List ℕ × Collection)
  unfolding gc_handle_slot
  gc_stack zero vals g = done (vals, g)
  gc_stack (suc n) [] g = fault
  gc_stack (suc n) (v ∷ vals) g = do
    (v', g1) ← gc_handle_slot v g
    (vals', g2) ← gc_stack n vals g1
    done (v' ∷ vals', g2)

  -- `for (i = 1; i < len; i++) GC_HANDLE_SLOT(ptr[i], newptr)`, with `n` rounds left.
  unfoldable pub gc_body : ℕ → ℕ → Collection → Outcome Collection
  unfolding gc_handle_slot
  gc_body zero at g = done g
  gc_body (suc n) at g = do
    v ← load g.heap at
    (v', g1) ← gc_handle_slot v g
    heap ← store g1.heap at v'
    gc_body n (suc at) (record g1 { heap = heap })

  -- `while (ptr < end)`: every round goes up by two words at least.
  unfoldable pub gc_walk : ℕ → ℕ → ℕ → Collection → Outcome Collection
  unfolding ptr_numwords ptr_type gc_body
  gc_walk zero ptr end g = hangs
  gc_walk (suc fuel) ptr end g =
      let round : Outcome Collection = (do
        len ← ptr_numwords g.heap ptr
        assert (not (len == 0))
        type ← ptr_type g.heap ptr
        g1 ← (if type_is_binary type then done g else gc_body (len - 1) (ptr + 1) g)
        gc_walk fuel (ptr + (len + 1)) end g1) in
      if ltb ptr end then round else done g

  -- `while (1)`: as long as the walk has copied more, walk over that.
  unfoldable pub gc_walks : ℕ → ℕ → Collection → Outcome Collection
  unfolding gc_walk
  gc_walks zero end g = hangs
  gc_walks (suc fuel) end g =
      let old_start = g.newptr in
      do
        g1 ← gc_walk (length g.heap + 1) old_start end g
        let again = gc_walks fuel old_start g1
        if ltb g1.newptr old_start then again else done g1

-- `vm_mem_gc`. The walks have as many rounds as the block has words, and one.
unfoldable pub vm_mem_gc : VmProcess → Outcome VmProcess
unfolding gc_handle_slot gc_val_roots gc_ptr_roots gc_stack gc_walks
vm_mem_gc process =
    let from = process.alloc_area in
    let newarea = process.alloc_area_fresh in
    let sz = process.alloc_size in
    let end = newarea + sz / 2 in
    do
      let g0 : Collection = record { heap = process.heap; newptr = end; moves = process.gc_moves }
      (a, g1) ← gc_handle_slot from newarea sz process.a g0
      (b, g2) ← gc_handle_slot from newarea sz process.b g1
      (c, g3) ← gc_handle_slot from newarea sz process.c g2
      (d, g4) ← gc_handle_slot from newarea sz process.d g3
      (val_roots, g5) ← gc_val_roots from newarea sz process.val_roots g4
      (ptr_roots, g6) ← gc_ptr_roots from newarea sz process.ptr_roots g5
      (vals, g7) ← gc_stack from newarea sz process.stack.sp process.stack.vals g6
      g8 ← gc_walks from newarea sz (length g7.heap + 1) end g7
      done (record process {
        a = a;
        b = b;
        c = c;
        d = d;
        alloc_area = newarea;
        alloc_area_fresh = from;
        alloc_ptr = g8.newptr;
        gc_count = (process.gc_count + 1) % 2 ^ 32;
        gc_moves = g8.moves;
        val_roots = val_roots;
        ptr_roots = ptr_roots;
        stack = record process.stack { vals = vals };
        heap = g8.heap;
      })
