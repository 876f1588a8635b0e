-- ===== src/Heap/Gc/Promise.antt =====
-- What `vm_mem_gc` promises on a process whose objects are bignums of fewer than 30 words. (The
-- operations of the interpreter make no other objects.)
use lilyvm.Base.{ℕ, suc, ◌+◌, ◌-◌, ◌*◌, ◌/◌, ◌%◌, ◌^◌, ◌≡◌, refl, sym, ◌∙◌, ◌⊎◌, inl, arith}
use lilyvm.Base.{List, [], length, false, ◌==◌}
use lilyvm.Value.{is_allocated}
use lilyvm.Value.Tags.{is_allocated_lem}
use lilyvm.Process.{VmProcess}
use lilyvm.Heap.{allocated_ptr, ptr_numwords}
use lilyvm.Heap.Fresh.{checked_offset_lem}
use lilyvm.Heap.Memory.{load_words-Loads}
use lilyvm.Heap.Object.{HasObject}
use lilyvm.Heap.Gc.{Collection}
use lilyvm.Heap.Gc.Tiles.{Obj, Has, head_of, unmoved-all}
use lilyvm.Heap.Gc.Pairwise.{Pairwise, TopPairwise}
use lilyvm.Heap.Gc.Invariant.{Areas, IsSound, Inv, IsRoot}
use lilyvm.Heap.Gc.Slot.{object-Bounds}
use lilyvm.Heap.Gc.Roots.{AllRoots, TopRoots, AllPtrRoots}

abbrev pub areas : VmProcess → List Obj → Areas
areas p os = record {
  from = p.alloc_area;
  to = p.alloc_area_fresh;
  size = p.alloc_size;
  start = p.alloc_ptr;
  heap = p.heap;
  objects = os;
}

-- The process has the objects `os`, all of them bignums of fewer than 30 words, in order up to the
-- end of the area in use.
abbrev pub IsNumberHeap : VmProcess → List Obj → Type 0
IsNumberHeap p os = IsSound (areas p os)

-- All that the collector starts from is no pointer, or a pointer to one of the objects.
pub record HasRoots (p : VmProcess) (os : List Obj) : Type 0 where
  pub a_root : IsRoot (areas p os) p.a
  pub b_root : IsRoot (areas p os) p.b
  pub c_root : IsRoot (areas p os) p.c
  pub d_root : IsRoot (areas p os) p.d
  pub vals : AllRoots (areas p os) p.val_roots
  pub ptrs : AllPtrRoots (areas p os) p.ptr_roots
  pub stack : TopRoots (areas p os) p.stack.sp p.stack.vals

-- A value before and after: the same if it is no pointer, and else one that stands for an object
-- with the same head and the same words.
abbrev pub SameValue : VmProcess → VmProcess → ℕ → ℕ → Type 0
SameValue p p' v v' =
    ((is_allocated v ≡ false) × (v' ≡ v))
    ⊎ ((ptr : ℕ) × (ptr' : ℕ) × (head : ℕ) × (ws : List ℕ) × HasObject p v ptr head ws
        × HasObject p' v' ptr' head ws)

-- A pointer to a body likewise.
abbrev pub SameBody : VmProcess → VmProcess → ℕ → ℕ → Type 0
SameBody p p' b b' =
    (v : ℕ) × (v' : ℕ) × (ptr : ℕ) × (ptr' : ℕ) × (head : ℕ) × (ws : List ℕ) × HasObject p v ptr
      head ws
    × HasObject p' v' ptr' head ws
    × (b ≡ ptr + 1)
    × (b' ≡ ptr' + 1)

-- All that a collection starts from, before and after.
pub record SameRoots (p p' : VmProcess) : Type 0 where
  pub a_same : SameValue p p' p.a p'.a
  pub b_same : SameValue p p' p.b p'.b
  pub c_same : SameValue p p' p.c p'.c
  pub d_same : SameValue p p' p.d p'.d
  pub vals_same : Pairwise (SameValue p p') p.val_roots p'.val_roots
  pub ptrs_same : Pairwise (SameBody p p') p.ptr_roots p'.ptr_roots
  pub stack_same : TopPairwise (SameValue p p') p.stack.sp p.stack.vals p'.stack.vals
  pub sp_same : p'.stack.sp ≡ p.stack.sp
  pub len_same : p'.stack.len ≡ p.stack.len

pub record IsCollected (p p' : VmProcess) (os' : List Obj) : Type 0 where
  pub sound : IsNumberHeap p' os'
  pub roots : HasRoots p' os'
  pub same : SameRoots p p'
  pub size_same : p'.alloc_size ≡ p.alloc_size
  pub flipped : (p'.alloc_area ≡ p.alloc_area_fresh) × (p'.alloc_area_fresh ≡ p.alloc_area)
  pub counted : p'.gc_count ≡ (p.gc_count + 1) % 2 ^ 32

module _ (p : VmProcess) (os : List Obj) (sound : IsNumberHeap p os) where
  abbrev pub first : Collection
  first = record {
    heap = p.heap;
    newptr = p.alloc_area_fresh + p.alloc_size / 2;
    moves = p.gc_moves;
  }

  pub first-Inv : Inv (areas p os) first []
  first-Inv =
      let all =
        unmoved-all p.heap p.alloc_ptr os (p.alloc_area + p.alloc_size / 2) sound.spaced
          sound.heads in
      record {
        size = refl;
        room = omega (arith, all, sound.guard);
        tiled = refl;
        heads = λ o h. absurd h;
        each = λ o h. inl (λ i l k. refl);
      }

  -- An object of the process, as it is read.
  pub object-HasObject :
      (o : Obj)
      → Has o os
      → (v : ℕ) → v ≡ 2 * (o.at - p.alloc_area)
      → (ws : List ℕ) × (length ws ≡ o.len) × HasObject p v o.at (head_of o) ws
  unfolding allocated_ptr ptr_numwords
  object-HasObject o has v e =
      let b = object-Bounds (areas p os) sound o has in
      let (ws, l) =
        load_words-Loads p.heap (suc o.at) o.len (omega (arith, b.high, sound.from_in)) in
      let length_byte : (o.len * 256 + 128) / 256 ≡ o.len = omega arith in
      let live : (o.len == 0) ≡ false = ground (arith, b.some_words) in
      let here =
        checked_offset_lem p.alloc_area p.alloc_size o.at (omega (arith, b.low, sound.guard))
          (omega (arith, b.high)) in
      let head = sound.heads o has in
      (
        ws,
        l.size,
        record {
          tagged = rw e (ground (arith, is_allocated_lem (2 * (o.at - p.alloc_area))));
          stands = rw (e, here, head, length_byte, live) refl;
          head_at = head;
          sized = length_byte ∙ sym l.size;
          word_at = λ j k h e'. sym (l.each j k (omega (arith, l.size)) e');
          body_at = rw l.size l.loads;
        },
      )
