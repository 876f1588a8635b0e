-- ===== src/Heap/Gc/Rounds.antt =====
-- How many rounds the collector's walks can take.
use lilyvm.Base.{
  ℕ, zero, suc, ◌+◌, ◌-◌, ◌/◌, ◌≤◌, ◌<◌, ◌≡◌, ◌≢◌, refl, ap, ◌∙◌, ◌⊎◌, inl, inr, arith,
}
use lilyvm.Base.{length, ltb, leb, Bool-cases, ◌==◌, not, if◌then◌else◌, replicate}
use mathlib.Core.Path.{subst}
use lilyvm.Outcome.{out_of_memory, Outcome, done, dies, hangs}
use lilyvm.Process.{VmProcess}
use lilyvm.Heap.{store_words, ptr_numwords, ptr_type, type_is_binary}
use lilyvm.Heap.Alloc.{bump, vm_process_alloc, vm_process_alloc_slow}
use lilyvm.Heap.Gc.{
  Collection, gc_handle_slot, gc_val_roots, gc_ptr_roots, gc_stack, gc_body, gc_walk, gc_walks,
  vm_mem_gc,
}
use lilyvm.Heap.Ends.{
  Ends, Stops, as-Ends, Ends-bind, Ends-if, Ends-ensure, Ends-map, KeepsLength, store_words-Ends,
  ptr_numwords-Ends, ptr_type-Stops,
}
use lilyvm.Heap.Gc.Steps.{
  gc_handle_slot-Ends, gc_val_roots-Stops, gc_ptr_roots-Stops, gc_stack-Stops, gc_body-Ends,
}

module _ (from to size : ℕ) where
  -- A round either meets the end of the block or goes up, so that the rounds up to the end of the
  -- block are enough.
  gc_walk-Ends :
      (fuel ptr end : ℕ) (g : Collection)
      → 0 < fuel
      → length g.heap < ptr + fuel
      → Ends (λ g'. KeepsLength g.heap g'.heap) (gc_walk from to size fuel ptr end g)
  unfolding gc_walk
  gc_walk-Ends zero ptr end g h k = absurd (omega arith)
  gc_walk-Ends (suc fuel) ptr end g h k =
      Ends-if (ltb ptr end) _ _
        (λ _.
          Ends-bind (ptr_numwords g.heap ptr) _ (ptr_numwords-Ends g.heap ptr) (λ len inside_block.
            Ends-ensure (not (len == 0)) _ _ (
              Ends-bind (ptr_type g.heap ptr) _ (ptr_type-Stops g.heap ptr) (λ type _.
                Ends-bind
                  (if type_is_binary type
                    then done g
                    else gc_body from to size (len - 1) (ptr + 1) g)
                  _ (body_ends type len)
                  (λ g1 e.
                    Ends-map (gc_walk from to size fuel (ptr + (len + 1)) end g1)
                      (gc_walk-Ends fuel (ptr + (len + 1)) end g1 (omega arith) (omega arith))
                      (λ g' e'. e' ∙ e))))))
        (λ _. as-Ends refl)
    where
      body_ends :
          (type len : ℕ)
          → Ends
              (λ g'. KeepsLength g.heap g'.heap)
              (if type_is_binary type then done g else gc_body from to size (len - 1) (ptr + 1) g)
      body_ends type len =
          Ends-if (type_is_binary type) _ _ (λ _. as-Ends refl)
            (λ _. gc_body-Ends from to size (len - 1) (ptr + 1) g)

  -- Behind the block's end there is nothing to walk over.
  gc_walk-behind :
      (fuel ptr end : ℕ) (g : Collection)
      → 0 < fuel
      → length g.heap ≤ ptr
      → Ends (λ g'. g' ≡ g) (gc_walk from to size fuel ptr end g)
  unfolding gc_walk
  gc_walk-behind zero ptr end g rounds h = absurd (omega arith)
  gc_walk-behind (suc fuel) ptr end g rounds h =
      Ends-if (ltb ptr end) _ _
        (λ _.
          Ends-bind (ptr_numwords g.heap ptr) _ (ptr_numwords-Ends g.heap ptr)
            (λ len k. absurd (omega arith)))
        (λ _. as-Ends refl)

  -- The next walk has less to walk over, since `newptr` has gone down.
  gc_walks-Stops :
      (fuel end : ℕ) (g : Collection)
      → 0 < fuel
      → (g.newptr < fuel) ⊎ (length g.heap ≤ g.newptr)
      → Stops (gc_walks from to size fuel end g)
  unfolding gc_walks
  gc_walks-Stops zero end g h k = absurd (omega arith)
  gc_walks-Stops (suc fuel) end g h (inl low) =
      Ends-bind (gc_walk from to size (length g.heap + 1) g.newptr end g) _
        (gc_walk-Ends (length g.heap + 1) g.newptr end g (omega arith) (omega arith))
        (λ g1 e.
          Ends-if (ltb g1.newptr g.newptr) _ _
            (λ t.
              let down : g1.newptr < g.newptr = ground arith in
              gc_walks-Stops fuel g.newptr g1 (omega arith) (inl (omega arith)))
            (λ t. as-Ends tt))
  gc_walks-Stops (suc fuel) end g h (inr high) =
      Ends-bind (gc_walk from to size (length g.heap + 1) g.newptr end g) _
        (gc_walk-behind (length g.heap + 1) g.newptr end g (omega arith) high)
        (λ g1 same.
          Ends-if (ltb g1.newptr g.newptr) _ _
            (λ t.
              let level : g1.newptr ≡ g.newptr = ap (λ x. x.newptr) same in absurd (ground arith))
            (λ t. as-Ends tt))

vm_mem_gc-Stops : (p : VmProcess) → Stops (vm_mem_gc p)
unfolding vm_mem_gc
vm_mem_gc-Stops p =
    let from = p.alloc_area in
    let to = p.alloc_area_fresh in
    let sz = p.alloc_size in
    let g0 : Collection = record { heap = p.heap; newptr = to + sz / 2; moves = p.gc_moves } in
    Ends-bind (gc_handle_slot from to sz p.a g0) _ (gc_handle_slot-Ends from to sz p.a g0) (λ a _.
      Ends-bind (gc_handle_slot from to sz p.b a.1) _ (gc_handle_slot-Ends from to sz p.b a.1)
        (λ b _.
          Ends-bind (gc_handle_slot from to sz p.c b.1) _ (gc_handle_slot-Ends from to sz p.c b.1)
            (λ c _.
              Ends-bind (gc_handle_slot from to sz p.d c.1) _
                (gc_handle_slot-Ends from to sz p.d c.1)
                (λ d _.
                  Ends-bind (gc_val_roots from to sz p.val_roots d.1) _
                    (gc_val_roots-Stops from to sz p.val_roots d.1)
                    (λ vs _.
                      Ends-bind (gc_ptr_roots from to sz p.ptr_roots vs.1) _
                        (gc_ptr_roots-Stops from to sz p.ptr_roots vs.1)
                        (λ ps _.
                          Ends-bind (gc_stack from to sz p.stack.sp p.stack.vals ps.1) _
                            (gc_stack-Stops from to sz p.stack.sp p.stack.vals ps.1)
                            (λ st _.
                              let g7 = st.1 in
                              Ends-bind (gc_walks from to sz (length g7.heap + 1) (to + sz / 2) g7)
                                _
                                (gc_walks-Stops from to sz (length g7.heap + 1) (to + sz / 2) g7
                                  (omega arith)
                                  (elim (Bool-cases (ltb g7.newptr (length g7.heap))) [
                                    | inl h ↦ inl (ground arith)
                                    | inr h ↦ inr (ground arith)
                                  ]))
                                (λ g8 _. as-Ends tt))))))))

bump-Stops :
    (p : VmProcess) (n : ℕ) (refused : Outcome (ℕ × VmProcess))
    → Stops refused
    → Stops (bump p n refused)
unfolding bump
bump-Stops p n refused h =
    let ptr = p.alloc_ptr - n in
    Ends-if (leb p.alloc_ptr (p.alloc_area + n)) _ _ (λ _. h)
      (λ _.
        Ends-bind (store_words p.heap ptr (replicate n 0x9999)) _
          (store_words-Ends p.heap ptr (replicate n 0x9999)) (λ heap _. as-Ends tt))

vm_process_alloc-Stops : (p : VmProcess) (n : ℕ) → Stops (vm_process_alloc p n)
unfolding vm_process_alloc vm_process_alloc_slow
vm_process_alloc-Stops p n = bump-Stops p n (vm_process_alloc_slow p n) (
    Ends-bind (vm_mem_gc p) _ (vm_mem_gc-Stops p)
      (λ p1 _. bump-Stops p1 n (dies out_of_memory) (as-Ends tt)))

Stops-hangs : {A : Type 0} (m : Outcome A) → Stops m → m ≢ hangs
Stops-hangs m h e = (subst Stops e h).ends

-- On every process, whatever its block holds, `vm_mem_gc` and `vm_process_alloc` end: each loop of
-- the collector has as many rounds as it can need.
pub vm_mem_gc-ends :
    (p : VmProcess) (n : ℕ) → (vm_mem_gc p ≢ hangs) × (vm_process_alloc p n ≢ hangs)
vm_mem_gc-ends p n = (
  Stops-hangs (vm_mem_gc p) (vm_mem_gc-Stops p),
  Stops-hangs (vm_process_alloc p n) (vm_process_alloc-Stops p n),
)
