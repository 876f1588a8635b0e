-- ===== src/Heap/Gc/Roots.antt =====
-- The loops of `vm_mem_gc` over the roots, and its walk over the copies.
use lilyvm.Base.{ℕ, zero, suc, ◌+◌, ◌-◌, ◌*◌, ◌/◌, ◌≡◌, refl, arith}
use lilyvm.Base.{List, [], ◌∷◌, true, false, ◌==◌}
use lilyvm.Outcome.{Outcome, done}
use lilyvm.Value.Tags.{is_allocated_lem}
use lilyvm.Value.{is_allocated}
use lilyvm.Heap.{ptr_numwords, checked_offset, offset_from}
use lilyvm.Heap.Fresh.{checked_offset_lem, offset_from_lem}
use lilyvm.Heap.Gc.{Collection, gc_handle_slot, gc_val_roots, gc_ptr_roots, gc_stack}
use lilyvm.Heap.Gc.Pairwise.{All, TopAll, Pairwise, TopPairwise}
use lilyvm.Heap.Gc.Tiles.{Obj, Has, Tiles-Bounds}
use lilyvm.Heap.Gc.Invariant.{
  Areas, IsSound, copy_at, Target, Inv, Grows, Grows-refl, Grows-trans, IsRoot, Kept, Kept-grows,
  Target-grows,
}
use lilyvm.Heap.Gc.Slot.{gc_handle_slot-Collects, handle_object, object-Bounds}

abbrev pub AllRoots : Areas → List ℕ → Type 0
AllRoots a vs = All (IsRoot a) vs

-- The first `n` elements of a stack.
abbrev pub TopRoots : Areas → ℕ → List ℕ → Type 0
TopRoots a n vals = TopAll (IsRoot a) n vals

-- A pointer to the body of an object.
abbrev pub IsPtrRoot : Areas → ℕ → Type 0
IsPtrRoot a p = (o : Obj) × Has o a.objects × (p ≡ o.at + 1)

abbrev pub PtrKept : Areas → Collection → List Obj → ℕ → ℕ → Type 0
PtrKept a g c p p' =
    (o : Obj) × Has o a.objects
    × (p ≡ o.at + 1)
    × (q : ℕ) × (v : ℕ) × Target a g c o q v
    × (p' ≡ q + 1)

abbrev pub AllPtrRoots : Areas → List ℕ → Type 0
AllPtrRoots a ps = All (IsPtrRoot a) ps

module _ {a : Areas} {g g' : Collection} {c c' : List Obj} (inv : Inv a g c)
    (grows : Grows a g c g' c') where
  pub PtrKept-grows : (p p' : ℕ) → PtrKept a g c p p' → PtrKept a g' c' p p'
  PtrKept-grows p p' (o, has, e, q, v, t, e') = (o, has, e, q, v, Target-grows inv grows t, e')

-- A loop runs, keeps the invariant and what was moved before, and changes what it goes over by `P`.
abbrev pub Loop {ℓ} :
    {A : Type ℓ}
    → Areas
    → Collection
    → List Obj
    → Outcome (A × Collection)
    → (Collection → List Obj → A → Type 0)
    → Type ℓ
Loop {A = A} a g c run P =
    (r : A) × (g' : Collection) × (c' : List Obj) × (run ≡ done (r, g'))
    × Inv a g' c'
    × Grows a g c g' c'
    × P g' c' r

module _ (a : Areas) (sound : IsSound a) where
  pub val_roots_lem :
      (vs : List ℕ) (g : Collection) (c : List Obj)
      → Inv a g c
      → AllRoots a vs
      → Loop a g c
          (gc_val_roots a.from a.to a.size vs g)
          (λ g' c' vs'. Pairwise (Kept a g' c') vs vs')
  unfolding gc_val_roots
  val_roots_lem [] g c inv roots = ([], g, c, refl, inv, Grows-refl a g c, tt)
  val_roots_lem (v ∷ vs) g c inv roots =
      let (v', g1, c1, run1, inv1, grows1, kept1) =
        gc_handle_slot-Collects a sound g c v inv roots.0 in
      let (vs', g2, c2, run2, inv2, grows2, kept2) = val_roots_lem vs g1 c1 inv1 roots.1 in
      (
        v' ∷ vs',
        g2,
        c2,
        rw (run1, run2) refl,
        inv2,
        Grows-trans grows1 grows2,
        (Kept-grows inv1 grows2 v v' kept1, kept2),
      )

  pub stack_lem :
      (n : ℕ) (vals : List ℕ) (g : Collection) (c : List Obj)
      → Inv a g c
      → TopRoots a n vals
      → Loop a g c
          (gc_stack a.from a.to a.size n vals g)
          (λ g' c' vals'. TopPairwise (Kept a g' c') n vals vals')
  unfolding gc_stack
  stack_lem zero vals g c inv roots = (vals, g, c, refl, inv, Grows-refl a g c, refl)
  stack_lem (suc n) [] g c inv roots = absurd roots
  stack_lem (suc n) (v ∷ vals) g c inv roots =
      let (v', g1, c1, run1, inv1, grows1, kept1) =
        gc_handle_slot-Collects a sound g c v inv roots.0 in
      let (vals', g2, c2, run2, inv2, grows2, kept2) = stack_lem n vals g1 c1 inv1 roots.1 in
      (
        v' ∷ vals',
        g2,
        c2,
        rw (run1, run2) refl,
        inv2,
        Grows-trans grows1 grows2,
        (Kept-grows inv1 grows2 v v' kept1, kept2),
      )

  module _ (o : Obj) (has : Has o a.objects) where
    pub stands_for : offset_from a.from a.size (o.at + 1 - 1) ≡ done (2 * (o.at - a.from))
    stands_for =
        let b = object-Bounds a sound o has in
        let back : o.at + 1 - 1 ≡ o.at = omega arith in
        rw back (
          offset_from_lem a.from a.size o.at (omega (arith, b.low, sound.guard))
            (omega (arith, b.high)) sound.narrow)

    module _ (g : Collection) (c : List Obj) (inv : Inv a g c) (q v : ℕ)
        (t : Target a g c o q v) where
      pub copy_found : checked_offset a.to a.size v ≡ done q
      copy_found =
          let b = Tiles-Bounds g.newptr c (a.to + a.size / 2) (copy_at o q) inv.tiled t.listed in
          rw t.stands (
            checked_offset_lem a.to a.size q (omega (arith, b.low, inv.room))
              (omega (arith, b.high)))

  pub ptr_roots_lem :
      (ps : List ℕ) (g : Collection) (c : List Obj)
      → Inv a g c
      → AllPtrRoots a ps
      → Loop a g c
          (gc_ptr_roots a.from a.to a.size ps g)
          (λ g' c' ps'. Pairwise (PtrKept a g' c') ps ps')
  unfolding gc_ptr_roots gc_handle_slot ptr_numwords
  ptr_roots_lem [] g c inv roots = ([], g, c, refl, inv, Grows-refl a g c, tt)
  ptr_roots_lem (p ∷ ps) g c inv ((o, has, e), roots) =
      let (v', g1, c1, run1, inv1, grows1, q, t) = handle_object a sound g c inv o has in
      let (ps', g2, c2, run2, inv2, grows2, kept2) = ptr_roots_lem ps g1 c1 inv1 roots in
      let pointer : is_allocated (2 * (o.at - a.from)) ≡ true =
        ground (arith, is_allocated_lem (2 * (o.at - a.from))) in
      let b = object-Bounds a sound o has in
      let length_byte : (o.len * 256 + 128) / 256 ≡ o.len = omega arith in
      let live : (o.len == 0) ≡ false = ground (arith, b.some_words) in
      (
        (q + 1) ∷ ps',
        g2,
        c2,
        rw
            (
              e,
              stands_for o has,
              pointer,
              run1,
              copy_found o has g1 c1 inv1 q v' t,
              inv1.heads (copy_at o q) t.listed,
              length_byte,
              live,
              run2,
            )
            refl,
        inv2,
        Grows-trans grows1 grows2,
        ((o, has, e, q, v', Target-grows inv1 grows2 t, refl), kept2),
      )
