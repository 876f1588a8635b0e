-- ===== src/Heap/Gc/Collect.antt =====
-- `vm_mem_gc` keeps its promise: the runs of its loops, put together.
use lilyvm.Base.{ℕ, zero, suc, ◌+◌, ◌-◌, ◌*◌, ◌/◌, ◌%◌, ◌^◌, ◌≡◌, refl, sym, ◌∙◌, inl, inr, arith}
use lilyvm.Base.{List, [], ◌∷◌, length, false, ◌==◌}
use lilyvm.Outcome.{done}
use lilyvm.Value.Tags.{is_allocated_lem}
use lilyvm.Process.{VmProcess}
use lilyvm.Heap.{allocated_ptr, ptr_numwords}
use lilyvm.Heap.Fresh.{checked_offset_lem}
use lilyvm.Heap.Memory.{load_words-same}
use lilyvm.Heap.Object.{HasObject}
use lilyvm.Heap.Gc.{Collection, vm_mem_gc}
use lilyvm.Heap.Gc.Tiles.{Obj, Has, head_of, Tiles-Bounds, Tiles-Spaced}
use lilyvm.Heap.Gc.Pairwise.{Pairwise, Pairwise-map, TopPairwise, TopPairwise-map}
use lilyvm.Heap.Gc.Invariant.{copy_at, Target, Inv, Grows-trans, IsRoot, Kept, Kept-grows}
use lilyvm.Heap.Gc.Slot.{gc_handle_slot-Collects}
use lilyvm.Heap.Gc.Roots.{
  AllRoots, TopRoots, PtrKept, PtrKept-grows, AllPtrRoots, val_roots_lem, stack_lem, ptr_roots_lem,
}
use lilyvm.Heap.Gc.Walk.{gc_walks-done}
use lilyvm.Heap.Gc.Promise.{
  areas, IsNumberHeap, HasRoots, SameValue, SameBody, SameRoots, IsCollected, first, first-Inv,
  object-HasObject,
}

-- The process at the end of `vm_mem_gc`.
abbrev collected : VmProcess → Collection → ℕ → ℕ → ℕ → ℕ → List ℕ → List ℕ → List ℕ → VmProcess
collected p g a b c d vals ptrs stack = record p {
  a = a;
  b = b;
  c = c;
  d = d;
  alloc_area = p.alloc_area_fresh;
  alloc_area_fresh = p.alloc_area;
  alloc_ptr = g.newptr;
  gc_count = (p.gc_count + 1) % 2 ^ 32;
  gc_moves = g.moves;
  val_roots = vals;
  ptr_roots = ptrs;
  stack = record p.stack { vals = stack };
  heap = g.heap;
}

module _ (p : VmProcess) (os : List Obj) (sound : IsNumberHeap p os) (g : Collection)
    (copies : List Obj) (inv : Inv (areas p os) g copies) (a b c d : ℕ)
    (vals ptrs stack : List ℕ) where
  abbrev p' : VmProcess
  p' = collected p g a b c d vals ptrs stack

  after-IsNumberHeap : IsNumberHeap p' copies
  after-IsNumberHeap = record {
    narrow = sound.narrow;
    from_in = omega (arith, inv.size, sound.to_in);
    to_in = omega (arith, inv.size, sound.from_in);
    apart = elim sound.apart [ inl h ↦ inr h | inr h ↦ inl h ];
    guard = omega (arith, inv.room);
    spaced = Tiles-Spaced g.newptr copies (p.alloc_area_fresh + p.alloc_size / 2) inv.tiled;
    heads = inv.heads;
  }

  module _ (o : Obj) (has : Has o os) (q v' : ℕ) (t : Target (areas p os) g copies o q v') (v : ℕ)
      (ws : List ℕ) (size : length ws ≡ o.len) (before : HasObject p v o.at (head_of o) ws) where
    copy-HasObject : HasObject p' v' q (head_of o) ws
    unfolding allocated_ptr ptr_numwords
    copy-HasObject =
        let b =
          Tiles-Bounds g.newptr copies (p.alloc_area_fresh + p.alloc_size / 2) (copy_at o q)
            inv.tiled t.listed in
        let length_byte : (o.len * 256 + 128) / 256 ≡ o.len = omega arith in
        let live : (o.len == 0) ≡ false = ground (arith, b.some_words) in
        let here =
          checked_offset_lem p.alloc_area_fresh p.alloc_size q (omega (arith, b.low, inv.room))
            (omega (arith, b.high)) in
        let head = inv.heads (copy_at o q) t.listed in
        record {
          tagged = rw t.stands (ground (arith, is_allocated_lem (2 * (q - p.alloc_area_fresh))));
          stands = rw (t.stands, here, head, length_byte, live) refl;
          head_at = head;
          sized = length_byte ∙ sym size;
          word_at = λ j k h e.
              t.copied (suc o.at + k) j (suc k) (omega (arith, size)) (omega arith) (omega arith)
              ∙ before.word_at (suc o.at + k) k h refl;
          body_at =
              load_words-same p.heap g.heap (suc o.at) (suc q) (length ws) (λ j j' k h e e'.
                t.copied j j' (suc k) (omega (arith, size)) (omega arith) (omega arith))
              ∙ before.body_at;
        }

  Kept-same : (v v' : ℕ) → Kept (areas p os) g copies v v' → SameValue p p' v v'
  Kept-same v v' (inl h) = inl h
  Kept-same v v' (inr (o, has, e, q, t)) =
      let (ws, size, before) = object-HasObject p os sound o has v e in
      inr (o.at, q, head_of o, ws, before, copy-HasObject o has q v' t v ws size before)

  PtrKept-same : (b b' : ℕ) → PtrKept (areas p os) g copies b b' → SameBody p p' b b'
  PtrKept-same b b' (o, has, e, q, v', t, e') =
      let (ws, size, before) = object-HasObject p os sound o has (2 * (o.at - p.alloc_area)) refl in
      (
        2 * (o.at - p.alloc_area),
        v',
        o.at,
        q,
        head_of o,
        ws,
        before,
        copy-HasObject o has q v' t (2 * (o.at - p.alloc_area)) ws size before,
        e,
        e',
      )

  Kept-IsRoot : (v v' : ℕ) → Kept (areas p os) g copies v v' → IsRoot (areas p' copies) v'
  Kept-IsRoot v v' (inl (h, e)) = inl (rw e h)
  Kept-IsRoot v v' (inr (o, has, e, q, t)) = inr (copy_at o q, t.listed, t.stands)

  Pairwise-AllRoots :
      (vs vs' : List ℕ)
      → Pairwise (Kept (areas p os) g copies) vs vs'
      → AllRoots (areas p' copies) vs'
  Pairwise-AllRoots [] [] k = tt
  Pairwise-AllRoots [] (v' ∷ vs') k = absurd k
  Pairwise-AllRoots (v ∷ vs) [] k = absurd k
  Pairwise-AllRoots (v ∷ vs) (v' ∷ vs') k = (Kept-IsRoot v v' k.0, Pairwise-AllRoots vs vs' k.1)

  Pairwise-AllPtrRoots :
      (ps ps' : List ℕ)
      → Pairwise (PtrKept (areas p os) g copies) ps ps'
      → AllPtrRoots (areas p' copies) ps'
  Pairwise-AllPtrRoots [] [] k = tt
  Pairwise-AllPtrRoots [] (b' ∷ ps') k = absurd k
  Pairwise-AllPtrRoots (b ∷ ps) [] k = absurd k
  Pairwise-AllPtrRoots (b ∷ ps) (b' ∷ ps') ((o, has, e, q, v, t, e'), k) =
      ((copy_at o q, t.listed, e'), Pairwise-AllPtrRoots ps ps' k)

  TopPairwise-TopRoots :
      (n : ℕ) (vs vs' : List ℕ)
      → TopPairwise (Kept (areas p os) g copies) n vs vs'
      → TopRoots (areas p' copies) n vs'
  TopPairwise-TopRoots zero vs vs' k = tt
  TopPairwise-TopRoots (suc n) [] vs' k = absurd k
  TopPairwise-TopRoots (suc n) (v ∷ vs) [] k = absurd k
  TopPairwise-TopRoots (suc n) (v ∷ vs) (v' ∷ vs') k =
      (Kept-IsRoot v v' k.0, TopPairwise-TopRoots n vs vs' k.1)

  module _ (kept_a : Kept (areas p os) g copies p.a a) (kept_b : Kept (areas p os) g copies p.b b)
      (kept_c : Kept (areas p os) g copies p.c c) (kept_d : Kept (areas p os) g copies p.d d)
      (kept_vals : Pairwise (Kept (areas p os) g copies) p.val_roots vals)
      (kept_ptrs : Pairwise (PtrKept (areas p os) g copies) p.ptr_roots ptrs)
      (kept_stack : TopPairwise (Kept (areas p os) g copies) p.stack.sp p.stack.vals stack) where
    after-HasRoots : HasRoots p' copies
    after-HasRoots = record {
      a_root = Kept-IsRoot p.a a kept_a;
      b_root = Kept-IsRoot p.b b kept_b;
      c_root = Kept-IsRoot p.c c kept_c;
      d_root = Kept-IsRoot p.d d kept_d;
      vals = Pairwise-AllRoots p.val_roots vals kept_vals;
      ptrs = Pairwise-AllPtrRoots p.ptr_roots ptrs kept_ptrs;
      stack = TopPairwise-TopRoots p.stack.sp p.stack.vals stack kept_stack;
    }

    after-SameRoots : SameRoots p p'
    after-SameRoots = record {
      a_same = Kept-same p.a a kept_a;
      b_same = Kept-same p.b b kept_b;
      c_same = Kept-same p.c c kept_c;
      d_same = Kept-same p.d d kept_d;
      vals_same = Pairwise-map Kept-same p.val_roots vals kept_vals;
      ptrs_same = Pairwise-map PtrKept-same p.ptr_roots ptrs kept_ptrs;
      stack_same = TopPairwise-map Kept-same p.stack.sp p.stack.vals stack kept_stack;
      sp_same = refl;
      len_same = refl;
    }

    after-IsCollected : IsCollected p p' copies
    after-IsCollected = record {
      sound = after-IsNumberHeap;
      roots = after-HasRoots;
      same = after-SameRoots;
      size_same = refl;
      flipped = (refl, refl);
      counted = refl;
    }

-- On a process whose objects are bignums of fewer than 30 words, and whose registers, stack and
-- root stacks hold no other pointers than those to the objects, `vm_mem_gc` ends without a fault:
-- the new area has bignums only, in order; the registers, the stack and the root stacks hold
-- what they held, pointers replaced by those to objects with the same words; the areas have changed
-- places.
pub vm_mem_gc-IsCollected :
    (p : VmProcess) (os : List Obj)
    → IsNumberHeap p os
    → HasRoots p os
    → (p' : VmProcess) × (os' : List Obj) × (vm_mem_gc p ≡ done p') × IsCollected p p' os'
unfolding vm_mem_gc
vm_mem_gc-IsCollected p os sound roots =
    let r = areas p os in
    let g0 = first p os sound in
    let inv0 = first-Inv p os sound in
    let (a, g1, c1, run1, inv1, grows1, kept_a) =
      gc_handle_slot-Collects r sound g0 [] p.a inv0 roots.a_root in
    let (b, g2, c2, run2, inv2, grows2, kept_b) =
      gc_handle_slot-Collects r sound g1 c1 p.b inv1 roots.b_root in
    let (c, g3, c3, run3, inv3, grows3, kept_c) =
      gc_handle_slot-Collects r sound g2 c2 p.c inv2 roots.c_root in
    let (d, g4, c4, run4, inv4, grows4, kept_d) =
      gc_handle_slot-Collects r sound g3 c3 p.d inv3 roots.d_root in
    let (vals, g5, c5, run5, inv5, grows5, kept_vals) =
      val_roots_lem r sound p.val_roots g4 c4 inv4 roots.vals in
    let (ptrs, g6, c6, run6, inv6, grows6, kept_ptrs) =
      ptr_roots_lem r sound p.ptr_roots g5 c5 inv5 roots.ptrs in
    let (stack, g7, c7, run7, inv7, grows7, kept_stack) =
      stack_lem r sound p.stack.sp p.stack.vals g6 c6 inv6 roots.stack in
    let walked =
      gc_walks-done p.alloc_area p.alloc_area_fresh p.alloc_size g7 (length g7.heap + 1)
        (p.alloc_area_fresh + p.alloc_size / 2) c7 inv7.tiled inv7.heads
        (omega (arith, inv7.size, sound.to_in)) (omega arith) in
    let from6 = grows7 in
    let from5 = Grows-trans grows6 from6 in
    let from4 = Grows-trans grows5 from5 in
    let from3 = Grows-trans grows4 from4 in
    let from2 = Grows-trans grows3 from3 in
    let from1 = Grows-trans grows2 from2 in
    (
      collected p g7 a b c d vals ptrs stack,
      c7,
      rw (run1, run2, run3, run4, run5, run6, run7, walked) refl,
      after-IsCollected p os sound g7 c7 inv7 a b c d vals ptrs stack
          (Kept-grows inv1 from1 p.a a kept_a) (Kept-grows inv2 from2 p.b b kept_b)
          (Kept-grows inv3 from3 p.c c kept_c) (Kept-grows inv4 from4 p.d d kept_d)
          (Pairwise-map (Kept-grows inv5 from5) p.val_roots vals kept_vals)
          (Pairwise-map (PtrKept-grows inv6 from6) p.ptr_roots ptrs kept_ptrs) kept_stack,
    )
