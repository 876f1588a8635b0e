-- ===== src/Heap/Gc/Same.antt =====
-- Two steps that keep the roots keep them together.
use lilyvm.Base.{ℕ, ◌≡◌, refl, sym, ◌∙◌, inl, inr, List, arith}
use mathlib.Core.Path.{subst}
use lilyvm.Process.{VmProcess}
use lilyvm.Heap.Object.{HasObject, HasObject-IsOne, HasObject-ptr}
use lilyvm.Heap.Gc.Pairwise.{TopPairwise, Pairwise-trans, TopPairwise-trans}
use lilyvm.Heap.Gc.Promise.{SameValue, SameBody, SameRoots}

HasObject-eq :
    {p : VmProcess} {v ptr ptr' head head' : ℕ} {ws ws' : List ℕ}
    → ptr' ≡ ptr
    → head' ≡ head
    → ws' ≡ ws
    → HasObject p v ptr' head' ws'
    → HasObject p v ptr head ws
HasObject-eq a b c h = rw (sym a, sym b, sym c) h

module _ {p p1 p2 : VmProcess} where
  pub SameValue-trans :
      (v v1 v2 : ℕ) → SameValue p p1 v v1 → SameValue p1 p2 v1 v2 → SameValue p p2 v v2
  SameValue-trans v v1 v2 (inl (h, e)) (inl (h1, e1)) = inl (h, e1 ∙ e)
  SameValue-trans v v1 v2 (inl (h, e)) (inr (ptr, ptr', head, ws, before, after)) =
      cc (h, e, before.tagged)
  SameValue-trans v v1 v2 (inr (ptr, ptr', head, ws, before, after)) (inl (h1, e1)) =
      cc (h1, after.tagged)
  SameValue-trans v v1 v2 (inr (ptr, ptr1, head, ws, before, mid))
        (inr (ptr1', ptr2, head', ws', mid', after)) =
      let one = HasObject-IsOne (HasObject-ptr mid mid') mid mid' in
      inr (ptr, ptr2, head, ws, before, HasObject-eq refl one.one_head one.one_body after)

  pub SameBody-trans :
      (b b1 b2 : ℕ) → SameBody p p1 b b1 → SameBody p1 p2 b1 b2 → SameBody p p2 b b2
  SameBody-trans b b1 b2 (v, v1, ptr, ptr1, head, ws, before, mid, e, e1)
        (v1', v2, ptr1', ptr2, head', ws', mid', after, e1', e2) =
      let at : ptr1' ≡ ptr1 = omega (arith, e1, e1') in
      let one = HasObject-IsOne at mid mid' in
      (v, v2, ptr, ptr2, head, ws, before, HasObject-eq refl one.one_head one.one_body after, e, e2)

  pub SameRoots-trans : SameRoots p p1 → SameRoots p1 p2 → SameRoots p p2
  SameRoots-trans x y = record {
    a_same = SameValue-trans p.a p1.a p2.a x.a_same y.a_same;
    b_same = SameValue-trans p.b p1.b p2.b x.b_same y.b_same;
    c_same = SameValue-trans p.c p1.c p2.c x.c_same y.c_same;
    d_same = SameValue-trans p.d p1.d p2.d x.d_same y.d_same;
    vals_same =
        Pairwise-trans SameValue-trans p.val_roots p1.val_roots p2.val_roots x.vals_same
          y.vals_same;
    ptrs_same =
        Pairwise-trans SameBody-trans p.ptr_roots p1.ptr_roots p2.ptr_roots x.ptrs_same y.ptrs_same;
    stack_same =
        TopPairwise-trans SameValue-trans p.stack.sp p.stack.vals p1.stack.vals p2.stack.vals
          x.stack_same
          (subst (λ n. TopPairwise (SameValue p1 p2) n p1.stack.vals p2.stack.vals) x.sp_same
            y.stack_same);
    sp_same = y.sp_same ∙ x.sp_same;
    len_same = y.len_same ∙ x.len_same;
  }
