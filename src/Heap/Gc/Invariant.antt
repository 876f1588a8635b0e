-- ===== src/Heap/Gc/Invariant.antt =====
-- What holds between the moves of the collector, on an area of bignums.
use lilyvm.Base.{ℕ, ◌+◌, ◌-◌, ◌*◌, ◌/◌, ◌^◌, ◌≤◌, ◌<◌, ◌≡◌, refl, ◌∙◌, ◌⊎◌, inl, inr, arith}
use lilyvm.Base.{List, length, get_elem?, some, false}
use lilyvm.Value.{is_allocated}
use lilyvm.Heap.Gc.{Collection}
use lilyvm.Heap.Gc.Tiles.{Obj, Has, Tiles, Spaced, head_of, Tiles-Bounds, unmoved}

-- The two areas before the collection: the block, where the areas begin, how many bytes each has,
-- and the objects of the old one from the index `start` on.
pub record Areas : Type 0 where
  pub from : ℕ
  pub to : ℕ
  pub size : ℕ
  pub start : ℕ
  pub heap : List ℕ
  pub objects : List Obj

pub record IsSound (a : Areas) : Type 0 where
  pub narrow : a.size ≤ 2 ^ 16
  pub from_in : a.from + a.size / 2 ≤ length a.heap
  pub to_in : a.to + a.size / 2 ≤ length a.heap
  pub apart : (a.from + a.size / 2 ≤ a.to) ⊎ (a.to + a.size / 2 ≤ a.from)
  pub guard : a.from < a.start
  pub spaced : Spaced a.start a.objects (a.from + a.size / 2)
  pub heads : (o : Obj) → Has o a.objects → get_elem? a.heap o.at ≡ some (head_of o)

-- The copy of an object at `q`.
abbrev pub copy_at : Obj → ℕ → Obj
copy_at o q = record { at = q; len = o.len }

abbrev pub Copied : Areas → List ℕ → Obj → ℕ → Type 0
Copied a heap o q =
    (i j k : ℕ) → k ≤ o.len → i ≡ o.at + k → j ≡ q + k → get_elem? heap j ≡ get_elem? a.heap i

-- The new value of an object that has moved.
pub record Target (a : Areas) (g : Collection) (copies : List Obj) (o : Obj) (q v : ℕ)
    : Type 0 where
  pub stands : v ≡ 2 * (q - a.to)
  pub listed : Has (copy_at o q) copies
  pub copied : Copied a g.heap o q

abbrev pub Intact : Areas → Collection → Obj → Type 0
Intact a g o = (i : ℕ) → o.at ≤ i → i < o.at + (o.len + 1) → get_elem? g.heap i ≡ get_elem? a.heap i

pub record Forwarded (a : Areas) (g : Collection) (copies : List Obj) (o : Obj) : Type 0 where
  pub q : ℕ
  pub v : ℕ
  pub target : Target a g copies o q v
  pub marked : get_elem? g.heap o.at ≡ some 128
  pub forward : get_elem? g.heap (o.at + 1) ≡ some v

-- The copies lie one behind the other from `newptr` on, each object is as it was or has a copy, and
-- those that have none fit between the new area's first word and `newptr`.
pub record Inv (a : Areas) (g : Collection) (copies : List Obj) : Type 0 where
  pub size : length g.heap ≡ length a.heap
  pub room : a.to + unmoved g.heap a.objects < g.newptr
  pub tiled : Tiles g.newptr copies (a.to + a.size / 2)
  pub heads : (o : Obj) → Has o copies → get_elem? g.heap o.at ≡ some (head_of o)
  pub each : (o : Obj) → Has o a.objects → Intact a g o ⊎ Forwarded a g copies o

-- What an object moved before keeps.
pub record Grows (a : Areas) (g : Collection) (copies : List Obj) (g' : Collection)
    (copies' : List Obj) : Type 0 where
  pub lower : g'.newptr ≤ g.newptr
  pub keeps : (o : Obj) → Has o copies → Has o copies'
  pub same :
      (j : ℕ) → g.newptr ≤ j → j < a.to + a.size / 2 → get_elem? g'.heap j ≡ get_elem? g.heap j

pub Grows-refl : (a : Areas) (g : Collection) (copies : List Obj) → Grows a g copies g copies
Grows-refl a g copies = record { lower = omega arith; keeps = λ o h. h; same = λ j l h. refl }

pub Grows-trans :
    {a : Areas} {g g1 g2 : Collection} {c c1 c2 : List Obj}
    → Grows a g c g1 c1
    → Grows a g1 c1 g2 c2
    → Grows a g c g2 c2
Grows-trans x y = record {
  lower = omega (arith, x.lower, y.lower);
  keeps = λ o h. y.keeps o (x.keeps o h);
  same = λ j l h. y.same j (omega (arith, x.lower)) h ∙ x.same j l h;
}

-- A value that is no pointer, or stands for one of the objects.
abbrev pub IsRoot : Areas → ℕ → Type 0
IsRoot a v = (is_allocated v ≡ false) ⊎ ((o : Obj) × Has o a.objects × (v ≡ 2 * (o.at - a.from)))

-- The new value of a slot: no pointer as it was, or the copy of the object.
abbrev pub Kept : Areas → Collection → List Obj → ℕ → ℕ → Type 0
Kept a g copies v v' =
    ((is_allocated v ≡ false) × (v' ≡ v))
    ⊎ ((o : Obj) × Has o a.objects × (v ≡ 2 * (o.at - a.from)) × (q : ℕ) × Target a g copies o q v')

module _ {a : Areas} {g g' : Collection} {copies copies' : List Obj} (inv : Inv a g copies)
    (grows : Grows a g copies g' copies') where
  pub Target-grows : {o : Obj} {q v : ℕ} → Target a g copies o q v → Target a g' copies' o q v
  Target-grows {o} {q} {v} t =
      let b = Tiles-Bounds g.newptr copies (a.to + a.size / 2) (copy_at o q) inv.tiled t.listed in
      record {
        stands = t.stands;
        listed = grows.keeps (copy_at o q) t.listed;
        copied = λ i j k h e e'.
            grows.same j (omega (arith, b.low)) (omega (arith, b.high)) ∙ t.copied i j k h e e';
      }

  pub Kept-grows : (v v' : ℕ) → Kept a g copies v v' → Kept a g' copies' v v'
  Kept-grows v v' (inl h) = inl h
  Kept-grows v v' (inr (o, has, e, q, t)) = inr (o, has, e, q, Target-grows t)
