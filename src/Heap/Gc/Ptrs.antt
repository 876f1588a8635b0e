-- ===== src/Heap/Gc/Ptrs.antt =====
-- A process with other pointer roots: its objects are the same.
use lilyvm.Base.{ℕ, ◌≡◌, inl, inr, List, []}
use lilyvm.Process.{VmProcess}
use lilyvm.Heap.{allocated_ptr}
use lilyvm.Heap.Object.{HasObject}
use lilyvm.Heap.Gc.Tiles.{Obj}
use lilyvm.Heap.Gc.Pairwise.{Pairwise-map, TopPairwise-map}
use lilyvm.Heap.Gc.Roots.{AllPtrRoots}
use lilyvm.Heap.Gc.Promise.{areas, HasRoots, SameValue, SameRoots}

abbrev pub with_ptrs : List ℕ → VmProcess → VmProcess
with_ptrs ps p = record p { ptr_roots = ps }

pub HasRoots-ptrs :
    {p : VmProcess} {os : List Obj} (ps : List ℕ)
    → HasRoots p os
    → AllPtrRoots (areas p os) ps
    → HasRoots (with_ptrs ps p) os
HasRoots-ptrs ps roots h = record {
  a_root = roots.a_root;
  b_root = roots.b_root;
  c_root = roots.c_root;
  d_root = roots.d_root;
  vals = roots.vals;
  ptrs = h;
  stack = roots.stack;
}

module _ {p : VmProcess} (ps : List ℕ) where
  pub HasObject-without :
      {v ptr head : ℕ} {ws : List ℕ}
      → HasObject (with_ptrs ps p) v ptr head ws
      → HasObject p v ptr head ws
  unfolding allocated_ptr
  HasObject-without h = record {
    tagged = h.tagged;
    stands = h.stands;
    head_at = h.head_at;
    sized = h.sized;
    word_at = h.word_at;
    body_at = h.body_at;
  }

  pub HasObject-with :
      {v ptr head : ℕ} {ws : List ℕ}
      → HasObject p v ptr head ws
      → HasObject (with_ptrs ps p) v ptr head ws
  unfolding allocated_ptr
  HasObject-with h = record {
    tagged = h.tagged;
    stands = h.stands;
    head_at = h.head_at;
    sized = h.sized;
    word_at = h.word_at;
    body_at = h.body_at;
  }

module _ {p r : VmProcess} (ps : List ℕ) where
  SameValue-ptrs :
      (v v' : ℕ) → SameValue (with_ptrs ps p) r v v' → SameValue p (with_ptrs [] r) v v'
  SameValue-ptrs v v' (inl h) = inl h
  SameValue-ptrs v v' (inr (ptr, ptr', head, ws, before, after)) =
      inr (ptr, ptr', head, ws, HasObject-without ps before, HasObject-with [] after)

  -- Between two processes without pointer roots.
  pub SameRoots-ptrs :
      p.ptr_roots ≡ [] → SameRoots (with_ptrs ps p) r → SameRoots p (with_ptrs [] r)
  SameRoots-ptrs none same = record {
    a_same = SameValue-ptrs p.a r.a same.a_same;
    b_same = SameValue-ptrs p.b r.b same.b_same;
    c_same = SameValue-ptrs p.c r.c same.c_same;
    d_same = SameValue-ptrs p.d r.d same.d_same;
    vals_same = Pairwise-map SameValue-ptrs p.val_roots r.val_roots same.vals_same;
    ptrs_same = rw none tt;
    stack_same =
        TopPairwise-map SameValue-ptrs p.stack.sp p.stack.vals r.stack.vals same.stack_same;
    sp_same = same.sp_same;
    len_same = same.len_same;
  }
