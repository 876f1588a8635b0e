-- ===== src/Heap/Gc/Lower.antt =====
-- A process whose `alloc_ptr` goes down, and whose block changes below the old one only: all that it
-- had is still there.
use lilyvm.Base.{ℕ, zero, suc, ◌+◌, ◌-◌, ◌*◌, ◌/◌, ◌≤◌, ◌<◌, ◌≡◌, refl, ◌∙◌, inl, inr, arith}
use lilyvm.Base.{List, [], ◌∷◌, length, get_elem?}
use lilyvm.Process.{VmProcess}
use lilyvm.Heap.Memory.{load_words-same}
use lilyvm.Heap.Object.{HasObject}
use lilyvm.Heap.Gc.Tiles.{Obj, Has, Spaced, head_of}
use lilyvm.Heap.Gc.Pairwise.{Pairwise, TopPairwise}
use lilyvm.Heap.Gc.Invariant.{IsRoot}
use lilyvm.Heap.Gc.Slot.{object-Bounds}
use lilyvm.Heap.Gc.Roots.{AllRoots, TopRoots, AllPtrRoots}
use lilyvm.Heap.Gc.Promise.{
  areas, IsNumberHeap, HasRoots, SameValue, SameBody, SameRoots, object-HasObject,
}

pub Spaced-lower :
    (p p1 : ℕ) (os : List Obj) (end : ℕ) → p1 ≤ p → Spaced p os end → Spaced p1 os end
Spaced-lower p p1 [] end h t = omega arith
Spaced-lower p p1 (o ∷ os) end h t = (omega arith, t.1, t.2, t.3)

module _ (p : VmProcess) (os : List Obj) (sound : IsNumberHeap p os) (ptr : ℕ) (heap : List ℕ)
    (guard : p.alloc_area < ptr) (down : ptr ≤ p.alloc_ptr) (size : length heap ≡ length p.heap)
    (agree : (j : ℕ) → p.alloc_ptr ≤ j → get_elem? heap j ≡ get_elem? p.heap j) where
  abbrev pub lowered : VmProcess
  lowered = record p { alloc_ptr = ptr; heap = heap }

  pub lowered-IsNumberHeap : IsNumberHeap lowered os
  lowered-IsNumberHeap = record {
    narrow = sound.narrow;
    from_in = omega (arith, sound.from_in, size);
    to_in = omega (arith, sound.to_in, size);
    apart = sound.apart;
    guard = guard;
    spaced = Spaced-lower p.alloc_ptr ptr os (p.alloc_area + p.alloc_size / 2) down sound.spaced;
    heads = λ o h. agree o.at (object-Bounds (areas p os) sound o h).low ∙ sound.heads o h;
  }

  -- An object is read as before.
  pub lowered-HasObject :
      (o : Obj)
      → Has o os
      → (v : ℕ) → v ≡ 2 * (o.at - p.alloc_area)
      → (ws : List ℕ) × (length ws ≡ o.len)
        × HasObject p v o.at (head_of o) ws
        × HasObject lowered v o.at (head_of o) ws
  lowered-HasObject o has v e =
      let b = object-Bounds (areas p os) sound o has in
      let (ws, len, before) = object-HasObject p os sound o has v e in
      let (ws', len', after) = object-HasObject lowered os lowered-IsNumberHeap o has v e in
      (
        ws,
        len,
        before,
        record {
          tagged = before.tagged;
          stands = after.stands;
          head_at = after.head_at;
          sized = before.sized;
          word_at = λ j k lt e'. agree j (omega (arith, b.low)) ∙ before.word_at j k lt e';
          body_at =
              load_words-same p.heap heap (suc o.at) (suc o.at) (length ws) (λ j j' k lt e1 e2.
                let one : j' ≡ j = omega arith in rw one (agree j (omega (arith, b.low))))
              ∙ before.body_at;
        },
      )

  pub lowered-SameValue : (v : ℕ) → IsRoot (areas p os) v → SameValue p lowered v v
  lowered-SameValue v (inl h) = inl (h, refl)
  lowered-SameValue v (inr (o, has, e)) =
      let (ws, len, before, after) = lowered-HasObject o has v e in
      inr (o.at, o.at, head_of o, ws, before, after)

  lowered-vals : (vs : List ℕ) → AllRoots (areas p os) vs → Pairwise (SameValue p lowered) vs vs
  lowered-vals [] h = tt
  lowered-vals (v ∷ vs) h = (lowered-SameValue v h.0, lowered-vals vs h.1)

  lowered-ptrs : (ps : List ℕ) → AllPtrRoots (areas p os) ps → Pairwise (SameBody p lowered) ps ps
  lowered-ptrs [] h = tt
  lowered-ptrs (b ∷ ps) ((o, has, e), h) =
      let v = 2 * (o.at - p.alloc_area) in
      let (ws, len, before, after) = lowered-HasObject o has v refl in
      ((v, v, o.at, o.at, head_of o, ws, before, after, e, e), lowered-ptrs ps h)

  lowered-stack :
      (n : ℕ) (vs : List ℕ) → TopRoots (areas p os) n vs → TopPairwise (SameValue p lowered) n vs vs
  lowered-stack zero vs h = refl
  lowered-stack (suc n) [] h = absurd h
  lowered-stack (suc n) (v ∷ vs) h = (lowered-SameValue v h.0, lowered-stack n vs h.1)

  module _ (roots : HasRoots p os) where
    pub lowered-HasRoots : HasRoots lowered os
    lowered-HasRoots = record {
      a_root = roots.a_root;
      b_root = roots.b_root;
      c_root = roots.c_root;
      d_root = roots.d_root;
      vals = roots.vals;
      ptrs = roots.ptrs;
      stack = roots.stack;
    }

    pub lowered-SameRoots : SameRoots p lowered
    lowered-SameRoots = record {
      a_same = lowered-SameValue p.a roots.a_root;
      b_same = lowered-SameValue p.b roots.b_root;
      c_same = lowered-SameValue p.c roots.c_root;
      d_same = lowered-SameValue p.d roots.d_root;
      vals_same = lowered-vals p.val_roots roots.vals;
      ptrs_same = lowered-ptrs p.ptr_roots roots.ptrs;
      stack_same = lowered-stack p.stack.sp p.stack.vals roots.stack;
      sp_same = refl;
      len_same = refl;
    }
