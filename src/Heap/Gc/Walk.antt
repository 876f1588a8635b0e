-- ===== src/Heap/Gc/Walk.antt =====
-- The walk of `vm_mem_gc` over copies that are binary: it looks at their heads only.
use lilyvm.Base.{ℕ, zero, suc, ◌+◌, ◌*◌, ◌/◌, ◌≤◌, ◌<◌, ◌≡◌, refl, sym, ap, ◌∙◌, inl, inr, arith}
use lilyvm.Base.{
  List, [], ◌∷◌, length, get_elem?, some, true, false, ◌==◌, ltb, lt→ltb, le→ltb-false,
}
use lilyvm.Outcome.{done}
use lilyvm.Word.{word_byte0, word_byte0_lem}
use lilyvm.Heap.{ptr_numwords, ptr_type, type_is_binary}
use lilyvm.Heap.Gc.{Collection, gc_walk, gc_walks}
use lilyvm.Heap.Gc.Tiles.{Obj, Has, Tiles, Tiles-le, head_of}

module _ (from to size : ℕ) (g : Collection) where
  gc_walk-done :
      (fuel ptr : ℕ) (os : List Obj) (end : ℕ)
      → Tiles ptr os end
      → ((o : Obj) → Has o os → get_elem? g.heap o.at ≡ some (head_of o))
      → end < ptr + fuel
      → gc_walk from to size fuel ptr end g ≡ done g
  unfolding gc_walk ptr_numwords ptr_type type_is_binary
  gc_walk-done zero ptr os end t heads h = absurd (omega (arith, Tiles-le ptr os end t))
  gc_walk-done (suc fuel) ptr [] end t heads h = rw (le→ltb-false ptr end (omega arith)) refl
  gc_walk-done (suc fuel) ptr (o ∷ os) end t heads h =
      let head : get_elem? g.heap ptr ≡ some (head_of o) =
        ap (get_elem? g.heap) (sym t.0) ∙ heads o (inl refl) in
      let more : ltb ptr end ≡ true =
        lt→ltb ptr end (omega (arith, Tiles-le (ptr + (o.len + 1)) os end t.3)) in
      let length_byte : (o.len * 256 + 128) / 256 ≡ o.len = omega arith in
      let live : (o.len == 0) ≡ false = ground arith in
      let kind : word_byte0 (head_of o) ≡ 128 = omega (arith, word_byte0_lem (head_of o)) in
      let rest =
        gc_walk-done fuel (ptr + (o.len + 1)) os end t.3 (λ x k. heads x (inr k)) (omega arith) in
      rw (more, head, length_byte, live, kind, rest) refl

  pub gc_walks-done :
      (fuel end : ℕ) (os : List Obj)
      → Tiles g.newptr os end
      → ((o : Obj) → Has o os → get_elem? g.heap o.at ≡ some (head_of o))
      → end ≤ length g.heap
      → 0 < fuel
      → gc_walks from to size fuel end g ≡ done g
  unfolding gc_walks
  gc_walks-done zero end os t heads b h = elim h [ ]
  gc_walks-done (suc fuel) end os t heads b h =
      rw
        (
          gc_walk-done (length g.heap + 1) g.newptr os end t heads (omega arith),
          le→ltb-false g.newptr g.newptr (omega arith),
        )
        refl
