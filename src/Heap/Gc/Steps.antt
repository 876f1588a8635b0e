-- ===== src/Heap/Gc/Steps.antt =====
-- The collector's steps and its loops over the roots, and the length of the block.
use lilyvm.Base.{ℕ, zero, suc, ◌+◌, ◌-◌, ◌%◌, ◌^◌, refl, ◌∙◌}
use lilyvm.Base.{List, [], ◌∷◌, ltb, leb, ◌==◌, not}
use lilyvm.Value.{is_allocated}
use lilyvm.Heap.{load, store, load_words, store_words, offset_from, checked_offset, ptr_numwords}
use lilyvm.Heap.Gc.{
  Collection, gc_move, gc_forwarded, gc_handle_slot_move, gc_handle_slot, gc_val_roots,
  gc_ptr_roots, gc_stack, gc_body,
}
use lilyvm.Heap.Ends.{
  Ends, Stops, as-Ends, Ends-bind, Ends-if, Ends-ensure, Ends-inside, Ends-map, KeepsLength,
  load-Ends, store-Ends, load_words-Stops, store_words-Ends, checked_offset-Stops,
  offset_from-Stops, ptr_numwords-Ends,
}

-- A step of the collector keeps the block's length.
abbrev SameLength : {A : Type 0} → Collection → A × Collection → Type 0
SameLength g r = KeepsLength g.heap r.1.heap

module _ (from to size : ℕ) where
  pub gc_move-Ends :
      (p len : ℕ) (g : Collection) → Ends (SameLength g) (gc_move from to size p len g)
  unfolding gc_move
  gc_move-Ends p len g =
      let newptr = g.newptr - (len + 1) in
      Ends-ensure (ltb len 30) _ _ (
        Ends-inside (leb (len + 1) g.newptr) _ (
          Ends-bind (load_words g.heap p (len + 1)) _ (load_words-Stops g.heap p (len + 1)) (λ ws _.
            Ends-bind (store_words g.heap newptr ws) _ (store_words-Ends g.heap newptr ws) (λ h e.
              Ends-bind (offset_from to size newptr) _ (offset_from-Stops to size newptr) (λ v _.
                Ends-bind (load h p) _ (load-Ends h p) (λ head _.
                  Ends-bind (store h p (head % 2 ^ 8)) _ (store-Ends h p (head % 2 ^ 8)) (λ h1 e1.
                    Ends-bind (store h1 (p + 1) v) _ (store-Ends h1 (p + 1) v)
                      (λ h2 e2. as-Ends (e2 ∙ e1 ∙ e)))))))))

  pub gc_handle_slot-Ends :
      (v : ℕ) (g : Collection) → Ends (SameLength g) (gc_handle_slot from to size v g)
  unfolding gc_handle_slot gc_handle_slot_move gc_forwarded
  gc_handle_slot-Ends v g =
      Ends-if (is_allocated v) _ _
        (λ _. Ends-bind (checked_offset from size v) _ (checked_offset-Stops from size v) (λ p _.
          Ends-bind (ptr_numwords g.heap p) _ (ptr_numwords-Ends g.heap p) (λ len _.
            Ends-if (len == 0) _ _
              (λ _.
                Ends-bind (load g.heap (p + 1)) _ (load-Ends g.heap (p + 1)) (λ w _. as-Ends refl))
              (λ _. gc_move-Ends p len g))))
        (λ _. as-Ends refl)

  pub gc_val_roots-Stops : (vs : List ℕ) (g : Collection) → Stops (gc_val_roots from to size vs g)
  unfolding gc_val_roots
  gc_val_roots-Stops [] g = as-Ends tt
  gc_val_roots-Stops (v ∷ vs) g =
      Ends-bind (gc_handle_slot from to size v g) _ (gc_handle_slot-Ends v g) (λ r _.
        Ends-bind (gc_val_roots from to size vs r.1) _ (gc_val_roots-Stops vs r.1)
          (λ x _. as-Ends tt))

  pub gc_stack-Stops :
      (n : ℕ) (vals : List ℕ) (g : Collection) → Stops (gc_stack from to size n vals g)
  unfolding gc_stack
  gc_stack-Stops zero vals g = as-Ends tt
  gc_stack-Stops (suc n) [] g = as-Ends tt
  gc_stack-Stops (suc n) (v ∷ vals) g =
      Ends-bind (gc_handle_slot from to size v g) _ (gc_handle_slot-Ends v g) (λ r _.
        Ends-bind (gc_stack from to size n vals r.1) _ (gc_stack-Stops n vals r.1)
          (λ x _. as-Ends tt))

  pub gc_ptr_roots-Stops : (ps : List ℕ) (g : Collection) → Stops (gc_ptr_roots from to size ps g)
  unfolding gc_ptr_roots
  gc_ptr_roots-Stops [] g = as-Ends tt
  gc_ptr_roots-Stops (b ∷ ps) g =
      Ends-bind (offset_from from size (b - 1)) _ (offset_from-Stops from size (b - 1)) (λ v _.
        Ends-bind (gc_handle_slot from to size v g) _ (gc_handle_slot-Ends v g) (λ r _.
          Ends-bind (checked_offset to size r.0) _ (checked_offset-Stops to size r.0) (λ p _.
            Ends-bind (ptr_numwords r.1.heap p) _ (ptr_numwords-Ends r.1.heap p) (λ n _.
              Ends-ensure (not (n == 0)) _ _ (
                Ends-bind (gc_ptr_roots from to size ps r.1) _ (gc_ptr_roots-Stops ps r.1)
                  (λ x _. as-Ends tt))))))

  pub gc_body-Ends :
      (n at : ℕ) (g : Collection)
      → Ends (λ g'. KeepsLength g.heap g'.heap) (gc_body from to size n at g)
  unfolding gc_body
  gc_body-Ends zero at g = as-Ends refl
  gc_body-Ends (suc n) at g = Ends-bind (load g.heap at) _ (load-Ends g.heap at) (λ v _.
      Ends-bind (gc_handle_slot from to size v g) _ (gc_handle_slot-Ends v g) (λ r e.
        Ends-bind (store r.1.heap at r.0) _ (store-Ends r.1.heap at r.0) (λ h e1.
          Ends-map (gc_body from to size n (suc at) (record r.1 { heap = h }))
            (gc_body-Ends n (suc at) (record r.1 { heap = h })) (λ g' k. k ∙ e1 ∙ e))))
