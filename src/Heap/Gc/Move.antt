-- ===== src/Heap/Gc/Move.antt =====
-- One move of the collector: `gc_move` copies an object below `newptr` and leaves its new value
-- in its place.
use lilyvm.Base.{ℕ, ◌+◌, ◌-◌, ◌*◌, ◌%◌, ◌^◌, ◌≤◌, ◌<◌, ◌≡◌, ◌≢◌, refl, sym, ◌∙◌, ◌⊎◌, arith}
use lilyvm.Base.{
  List, length, get_elem?, set, some, length-set, get_elem?-set_self, get_elem?-set_ne,
}
use lilyvm.Base.{leb, lt→ltb, true}
use lilyvm.Outcome.{done}
use lilyvm.Heap.Memory.{
  written, store_lem, length-written, store_words_lem, get_elem?-written_ne, get_elem?-written,
  Loads, load_words-Loads,
}
use lilyvm.Heap.Fresh.{offset_from_lem}
use lilyvm.Heap.Gc.{Collection, gc_move}

-- What is so after a move of the object at `p` with `len` words to `q`.
pub record Moved (to : ℕ) (g g' : Collection) (p len q w : ℕ) : Type 0 where
  pub place : g'.newptr ≡ q
  pub size : length g'.heap ≡ length g.heap
  pub count : g'.moves ≡ (g.moves + 1) % 2 ^ 64
  pub marked : get_elem? g'.heap p ≡ some (w % 2 ^ 8)
  pub forward : get_elem? g'.heap (p + 1) ≡ some (2 * (q - to))
  pub copied :
      (i j k : ℕ) → k ≤ len → i ≡ p + k → j ≡ q + k → get_elem? g'.heap j ≡ get_elem? g.heap i
  pub others :
      (j : ℕ)
      → j ≢ p
      → j ≢ p + 1
      → (j < q) ⊎ (g.newptr ≤ j)
      → get_elem? g'.heap j ≡ get_elem? g.heap j

-- What a move needs: a small object, room below `newptr` and above the start of the area, and the
-- object not where it is copied to.
pub record CanMove (to size : ℕ) (g : Collection) (p len q w : ℕ) : Type 0 where
  pub some_words : 0 < len
  pub few_words : len < 30
  pub room : q + (len + 1) ≡ g.newptr
  pub above : to < q
  pub in_area : 2 * (q - to) < size
  pub narrow : size ≤ 2 ^ 16
  pub top : g.newptr ≤ length g.heap
  pub inside : p + (len + 1) ≤ length g.heap
  pub apart : (p + (len + 1) ≤ q) ⊎ (g.newptr ≤ p)
  pub head : get_elem? g.heap p ≡ some w

module _ (from to size : ℕ) (g : Collection) (p len q w : ℕ)
    (can : CanMove to size g p len q w) where
  module _ (ws : List ℕ) (l : Loads g.heap p (len + 1) ws) where
    abbrev copy : List ℕ
    copy = written g.heap q ws

    abbrev after : List ℕ
    after = set (set copy p (w % 2 ^ 8)) (p + 1) (2 * (q - to))

    size_after : length after ≡ length g.heap
    size_after =
        length-set (set copy p (w % 2 ^ 8)) (p + 1) (2 * (q - to))
        ∙ length-set copy p (w % 2 ^ 8)
        ∙ length-written g.heap q ws

    head_there : get_elem? copy p ≡ some w
    head_there =
        get_elem?-written_ne g.heap q ws p (ground (arith, can.apart, can.room, l.size)) ∙ can.head

    outside : (j : ℕ) → j ≢ p → j ≢ p + 1 → get_elem? after j ≡ get_elem? copy j
    outside j a b =
        get_elem?-set_ne (set copy p (w % 2 ^ 8)) (2 * (q - to)) (λ e. b (sym e))
        ∙ get_elem?-set_ne copy (w % 2 ^ 8) (λ e. a (sym e))

    result : Collection
    result = record { heap = after; newptr = q; moves = (g.moves + 1) % 2 ^ 64 }

    result-Moved : Moved to g result p len q w
    unfolding result
    result-Moved = record {
      place = refl;
      size = size_after;
      count = refl;
      marked =
          get_elem?-set_ne (set copy p (w % 2 ^ 8)) (2 * (q - to)) (λ e. omega arith)
          ∙ get_elem?-set_self copy p (w % 2 ^ 8)
              (omega (arith, can.inside, length-written g.heap q ws));
      forward = get_elem?-set_self (set copy p (w % 2 ^ 8)) (p + 1) (2 * (q - to)) (
          omega (
            arith,
            can.inside,
            can.some_words,
            length-set copy p (w % 2 ^ 8),
            length-written g.heap q ws,
          ));
      copied = λ i j k h e e'.
          outside j (λ x. ground (arith, can.apart, can.room, can.some_words))
            (λ x. ground (arith, can.apart, can.room, can.some_words))
          ∙ get_elem?-written g.heap q ws j k (omega (arith, can.room, can.top, l.size))
              (omega (arith, l.size)) e'
          ∙ l.each i k (omega arith) e;
      others = λ j a b h.
          outside j a b ∙ get_elem?-written_ne g.heap q ws j (ground (arith, h, can.room, l.size));
    }

    runs : gc_move from to size p len g ≡ done (2 * (q - to), result)
    unfolding gc_move result
    runs =
        let down : g.newptr - (len + 1) ≡ q = omega (arith, can.room) in
        let fits : leb (len + 1) g.newptr ≡ true = ground (arith, can.room) in
        rw
          (
            lt→ltb len 30 can.few_words,
            fits,
            down,
            l.loads,
            store_words_lem g.heap q ws (omega (arith, can.room, can.top, l.size)),
            offset_from_lem to size q can.above can.in_area can.narrow,
            head_there,
            store_lem copy p (w % 2 ^ 8) (omega (arith, can.inside, length-written g.heap q ws)),
            store_lem (set copy p (w % 2 ^ 8)) (p + 1) (2 * (q - to)) (
                omega (
                  arith,
                  can.inside,
                  can.some_words,
                  length-set copy p (w % 2 ^ 8),
                  length-written g.heap q ws,
                )),
          )
          refl

  -- A move that can be made is made.
  pub gc_move-Moved :
      (g' : Collection) × (gc_move from to size p len g ≡ done (2 * (q - to), g'))
      × Moved to g g' p len q w
  gc_move-Moved =
      let (ws, l) = load_words-Loads g.heap p (len + 1) can.inside in
      (result ws l, runs ws l, result-Moved ws l)
