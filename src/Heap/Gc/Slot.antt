-- ===== src/Heap/Gc/Slot.antt =====
-- `GC_HANDLE_SLOT` keeps the invariant of the collection.
use lilyvm.Base.{
  ℕ, ◌+◌, ◌-◌, ◌*◌, ◌/◌, ◌≤◌, ◌<◌, ◌≡◌, ◌≢◌, refl, sym, ap, ◌∙◌, ◌⊎◌, inl, inr, arith,
}
use lilyvm.Base.{List, ◌∷◌, get_elem?, some, true, false, ◌==◌}
use lilyvm.Outcome.{Outcome, done}
use lilyvm.Value.{is_allocated}
use lilyvm.Value.Tags.{is_allocated_lem}
use lilyvm.Heap.{ptr_numwords, checked_offset}
use lilyvm.Heap.Fresh.{checked_offset_lem}
use lilyvm.Heap.Gc.{Collection, gc_forwarded, gc_handle_slot_move, gc_handle_slot}
use lilyvm.Heap.Gc.Tiles.{
  Obj, Has, Tiles-le, head_of, Bounds, Tiles-Bounds, Spaced-Bounds, Spaced-apart, unmoved,
  unmoved-move, unmoved-Has,
}
use lilyvm.Heap.Gc.Move.{Moved, gc_move-Moved}
use lilyvm.Heap.Gc.Invariant.{
  Areas, IsSound, copy_at, Copied, Target, Intact, Forwarded, Inv, Grows, Grows-refl, IsRoot, Kept,
  Target-grows,
}

module _ (a : Areas) (sound : IsSound a) where
  pub object-Bounds : (o : Obj) → Has o a.objects → Bounds a.start (a.from + a.size / 2) o
  object-Bounds o h = Spaced-Bounds a.start a.objects (a.from + a.size / 2) o sound.spaced h

  module _ (g g' : Collection) (copies : List Obj) (inv : Inv a g copies) (o : Obj)
      (has : Has o a.objects) (intact : Intact a g o) (q : ℕ) (room : q + (o.len + 1) ≡ g.newptr)
      (above : a.to < q) (moved : Moved a.to g g' o.at o.len q (head_of o)) where
    top : g.newptr ≤ a.to + a.size / 2
    top = Tiles-le g.newptr copies (a.to + a.size / 2) inv.tiled

    -- An index of the new area from `q` on.
    new_words : (j : ℕ) → q ≤ j → j < a.to + a.size / 2 → (j ≢ o.at) × (j ≢ o.at + 1)
    new_words j l h =
        let b = object-Bounds o has in
        (
          λ e. ground (arith, sound.apart, sound.guard, b.low, b.high),
          λ e. ground (arith, sound.apart, sound.guard, b.low, b.high, b.some_words),
        )

    moved-Grows : Grows a g copies g' (copy_at o q ∷ copies)
    moved-Grows = record {
      lower = omega (arith, moved.place);
      keeps = λ x h. inr h;
      same = λ j l h. let n = new_words j (omega arith) h in moved.others j n.0 n.1 (inr l);
    }

    -- An index of the old area is none of the new words.
    old_words : (j : ℕ) → a.from ≤ j → j < a.from + a.size / 2 → (j < q) ⊎ (g.newptr ≤ j)
    old_words j l h = ground (arith, sound.apart, top, above)

    live : get_elem? g.heap o.at ≡ some (head_of o)
    live = intact o.at (omega arith) (omega arith) ∙ sound.heads o has

    now_marked : get_elem? g'.heap o.at ≡ some 128
    now_marked = moved.marked ∙ ap some (omega arith)

    moved-Copied : Copied a g'.heap o q
    moved-Copied i j k h e e' = moved.copied i j k h e e' ∙ intact i (omega arith) (omega arith)

    -- The words of the other objects.
    other_words :
        (x : Obj)
        → Has x a.objects
        → (x.at + (x.len + 1) ≤ o.at) ⊎ (o.at + (o.len + 1) ≤ x.at)
        → (i : ℕ) → x.at ≤ i
        → i < x.at + (x.len + 1)
        → get_elem? g'.heap i ≡ get_elem? g.heap i
    other_words x hx away i l h =
        let b = object-Bounds x hx in
        let bo = object-Bounds o has in
        moved.others i (λ e. ground (arith, away)) (λ e. ground (arith, away, bo.some_words))
          (old_words i (omega (arith, b.low, sound.guard)) (omega (arith, b.high)))

    moved-room : a.to + unmoved g'.heap a.objects < g'.newptr
    moved-room =
        let b = object-Bounds o has in
        let less =
          unmoved-move g.heap g'.heap a.start a.objects (a.from + a.size / 2) o sound.spaced has
            live now_marked
            (λ j l h.
              moved.others j (λ e. omega arith) (λ e. omega arith)
                (old_words j (omega (arith, sound.guard)) (omega (arith, b.high))))
            (λ j l h.
              moved.others j (λ e. omega arith) (λ e. omega (arith, b.some_words))
                (old_words j (omega (arith, sound.guard, b.low)) h)) in
        omega (arith, less, moved.place, room, inv.room)

    moved-heads :
        (x : Obj) → Has x (copy_at o q ∷ copies) → get_elem? g'.heap x.at ≡ some (head_of x)
    moved-heads x (inl e) =
        rw (sym e) (moved.copied o.at q 0 (omega arith) (omega arith) (omega arith) ∙ live)
    moved-heads x (inr h) =
        let b = Tiles-Bounds g.newptr copies (a.to + a.size / 2) x inv.tiled h in
        moved-Grows.same x.at b.low (omega (arith, b.high)) ∙ inv.heads x h

    moved-Target : Target a g' (copy_at o q ∷ copies) o q (2 * (q - a.to))
    moved-Target = record { stands = refl; listed = inl refl; copied = moved-Copied }

    moved-Forwarded : Forwarded a g' (copy_at o q ∷ copies) o
    moved-Forwarded = record {
      q = q;
      v = 2 * (q - a.to);
      target = moved-Target;
      marked = now_marked;
      forward = moved.forward;
    }

    moved-other :
        (x : Obj)
        → Has x a.objects
        → (x.at + (x.len + 1) ≤ o.at) ⊎ (o.at + (o.len + 1) ≤ x.at)
        → Intact a g x ⊎ Forwarded a g copies x
        → Intact a g' x ⊎ Forwarded a g' (copy_at o q ∷ copies) x
    moved-other x hx away (inl n) = inl (λ i l h. other_words x hx away i l h ∙ n i l h)
    moved-other x hx away (inr f) =
        let b = object-Bounds x hx in
        inr (record {
          q = f.q;
          v = f.v;
          target = Target-grows inv moved-Grows f.target;
          marked = other_words x hx away x.at (omega arith) (omega arith) ∙ f.marked;
          forward =
              other_words x hx away (x.at + 1) (omega arith) (omega (arith, b.some_words))
              ∙ f.forward;
        })

    pub moved-Inv : Inv a g' (copy_at o q ∷ copies)
    moved-Inv =
        let b = object-Bounds o has in
        let next : g'.newptr + (o.len + 1) ≡ g.newptr = omega (arith, moved.place, room) in
        record {
          size = moved.size ∙ inv.size;
          room = moved-room;
          tiled = (sym moved.place, b.some_words, b.few_words, rw next inv.tiled);
          heads = moved-heads;
          each = λ x hx.
              elim (Spaced-apart a.start a.objects (a.from + a.size / 2) o x sound.spaced has hx) [
                | inl e ↦ rw e (inr moved-Forwarded)
                | inr away ↦ moved-other x hx away (inv.each x hx)
              ];
        }

  -- What the handling of a slot of an object gives.
  abbrev pub Handled : Collection → List Obj → Obj → Outcome (ℕ × Collection) → Type 0
  Handled g copies o run =
      (v' : ℕ) × (g' : Collection) × (copies' : List Obj) × (run ≡ done (v', g'))
      × Inv a g' copies'
      × Grows a g copies g' copies'
      × (q : ℕ) × Target a g' copies' o q v'

  module _ (g : Collection) (copies : List Obj) (inv : Inv a g copies) (o : Obj)
      (has : Has o a.objects) where
    at_object : checked_offset a.from a.size (2 * (o.at - a.from)) ≡ done o.at
    at_object =
        let b = object-Bounds o has in
        checked_offset_lem a.from a.size o.at (omega (arith, b.low, sound.guard))
          (omega (arith, b.high))

    handle-Forwarded :
        Forwarded a g copies o
        → Handled g copies o (gc_handle_slot_move a.from a.to a.size (2 * (o.at - a.from)) g)
    unfolding gc_handle_slot_move gc_forwarded ptr_numwords
    handle-Forwarded f = (
      f.v,
      g,
      copies,
      rw (at_object, f.marked, f.forward) refl,
      inv,
      Grows-refl a g copies,
      f.q,
      f.target,
    )

    handle-Intact :
        Intact a g o
        → Handled g copies o (gc_handle_slot_move a.from a.to a.size (2 * (o.at - a.from)) g)
    unfolding gc_handle_slot_move ptr_numwords
    handle-Intact n =
        let b = object-Bounds o has in
        let head = n o.at (omega arith) (omega arith) ∙ sound.heads o has in
        let counted = unmoved-Has g.heap a.objects o has b.some_words head in
        let q = g.newptr - (o.len + 1) in
        let room : q + (o.len + 1) ≡ g.newptr = omega (arith, inv.room) in
        let above : a.to < q = omega (arith, inv.room) in
        let top = Tiles-le g.newptr copies (a.to + a.size / 2) inv.tiled in
        let (g', runs, moved) =
          gc_move-Moved a.from a.to a.size g o.at o.len q (head_of o) (record {
            some_words = b.some_words;
            few_words = b.few_words;
            room = room;
            above = above;
            in_area = omega arith;
            narrow = sound.narrow;
            top = omega (arith, inv.size, sound.to_in);
            inside = omega (arith, inv.size, sound.from_in, b.high);
            apart = ground (arith, sound.apart, sound.guard, b.low, b.high);
            head = head;
          }) in
        let length_byte : (o.len * 256 + 128) / 256 ≡ o.len = omega arith in
        let live : (o.len == 0) ≡ false = ground (arith, b.some_words) in
        let inv' = moved-Inv g g' copies inv o has n q room above moved in
        (
          2 * (q - a.to),
          g',
          copy_at o q ∷ copies,
          rw (at_object, head, length_byte, live) runs,
          inv',
          moved-Grows g g' copies inv o has n q room above moved,
          q,
          moved-Target g g' copies inv o has n q room above moved,
        )

    pub handle_object :
        Handled g copies o (gc_handle_slot_move a.from a.to a.size (2 * (o.at - a.from)) g)
    handle_object = elim (inv.each o has) [ inl n ↦ handle-Intact n | inr f ↦ handle-Forwarded f ]

  -- `GC_HANDLE_SLOT` on a root.
  abbrev pub Collects : Collection → List Obj → ℕ → Outcome (ℕ × Collection) → Type 0
  Collects g copies v run =
      (v' : ℕ) × (g' : Collection) × (copies' : List Obj) × (run ≡ done (v', g'))
      × Inv a g' copies'
      × Grows a g copies g' copies'
      × Kept a g' copies' v v'

  pub gc_handle_slot-Collects :
      (g : Collection) (copies : List Obj) (v : ℕ)
      → Inv a g copies
      → IsRoot a v
      → Collects g copies v (gc_handle_slot a.from a.to a.size v g)
  unfolding gc_handle_slot
  gc_handle_slot-Collects g copies v inv (inl e) =
      (v, g, copies, rw e refl, inv, Grows-refl a g copies, inl (e, refl))
  gc_handle_slot-Collects g copies v inv (inr (o, has, e)) =
      let (v', g', copies', runs, inv', grows, q, target) = handle_object g copies inv o has in
      let pointer : is_allocated (2 * (o.at - a.from)) ≡ true =
        ground (arith, is_allocated_lem (2 * (o.at - a.from))) in
      (v', g', copies', rw (e, pointer) runs, inv', grows, inr (o, has, e, q, target))
