-- ===== src/Heap/Gc/Tiles.antt =====
-- The objects of an area, from `alloc_ptr` to the area's end: in order, with words between them that
-- belong to none, and after a collection one directly behind the other.
use lilyvm.Base.{ℕ, ◌+◌, ◌*◌, ◌≤◌, ◌<◌, ◌≡◌, refl, sym, ap, ◌∙◌, ◌⊎◌, inl, inr, arith}
use lilyvm.Base.{Option, none}
use lilyvm.Base.{List, [], ◌∷◌, get_elem?, some, ◌==◌, false, if◌then◌else◌}

-- An object by the index of its head and the length of its body.
pub record Obj : Type 0 where
  pub at : ℕ
  pub len : ℕ

abbrev pub Has : Obj → List Obj → Type 0
Has o [] = ⊥
Has o (x ∷ os) = (x ≡ o) ⊎ Has o os

-- The collector takes bodies of fewer than 30 words only.
abbrev pub Spaced : ℕ → List Obj → ℕ → Type 0
Spaced p [] end = p ≤ end
Spaced p (o ∷ os) end = (p ≤ o.at) × (0 < o.len) × (o.len < 30) × Spaced (o.at + (o.len + 1)) os end

-- With no words between them.
abbrev pub Tiles : ℕ → List Obj → ℕ → Type 0
Tiles p [] end = p ≡ end
Tiles p (o ∷ os) end = (o.at ≡ p) × (0 < o.len) × (o.len < 30) × Tiles (p + (o.len + 1)) os end

-- The head of a bignum that has not moved.
abbrev pub head_of : Obj → ℕ
head_of o = o.len * 256 + 128

-- Where an object of a tiled area lies.
pub record Bounds (p end : ℕ) (o : Obj) : Type 0 where
  pub low : p ≤ o.at
  pub high : o.at + (o.len + 1) ≤ end
  pub some_words : 0 < o.len
  pub few_words : o.len < 30

pub Spaced-le : (p : ℕ) (os : List Obj) (end : ℕ) → Spaced p os end → p ≤ end
Spaced-le p [] end t = omega arith
Spaced-le p (x ∷ os) end t = omega (arith, Spaced-le (x.at + (x.len + 1)) os end t.3)

pub Tiles-le : (p : ℕ) (os : List Obj) (end : ℕ) → Tiles p os end → p ≤ end
Tiles-le p [] end t = omega arith
Tiles-le p (x ∷ os) end t = omega (arith, Tiles-le (p + (x.len + 1)) os end t.3)

pub Tiles-Spaced : (p : ℕ) (os : List Obj) (end : ℕ) → Tiles p os end → Spaced p os end
Tiles-Spaced p [] end t = omega arith
Tiles-Spaced p (x ∷ os) end t =
    (omega arith, t.1, t.2, rw t.0 (Tiles-Spaced (p + (x.len + 1)) os end t.3))

pub Spaced-Bounds :
    (p : ℕ) (os : List Obj) (end : ℕ) (o : Obj) → Spaced p os end → Has o os → Bounds p end o
Spaced-Bounds p [] end o t h = absurd h
Spaced-Bounds p (x ∷ os) end o t (inl e) = rw (sym e) (record {
  low = omega arith;
  high = omega (arith, Spaced-le (x.at + (x.len + 1)) os end t.3);
  some_words = t.1;
  few_words = t.2;
})
Spaced-Bounds p (x ∷ os) end o t (inr h) =
    let b = Spaced-Bounds (x.at + (x.len + 1)) os end o t.3 h in
    record {
      low = omega (arith, b.low);
      high = b.high;
      some_words = b.some_words;
      few_words = b.few_words;
    }

pub Tiles-Bounds :
    (p : ℕ) (os : List Obj) (end : ℕ) (o : Obj) → Tiles p os end → Has o os → Bounds p end o
Tiles-Bounds p os end o t h = Spaced-Bounds p os end o (Tiles-Spaced p os end t) h

-- Two objects of a spaced area are one, or lie apart.
pub Spaced-apart :
    (p : ℕ) (os : List Obj) (end : ℕ) (o x : Obj)
    → Spaced p os end
    → Has o os
    → Has x os
    → (x ≡ o) ⊎ ((x.at + (x.len + 1) ≤ o.at) ⊎ (o.at + (o.len + 1) ≤ x.at))
Spaced-apart p [] end o x t h k = absurd h
Spaced-apart p (y ∷ os) end o x t (inl e) (inl e') = inl (sym e' ∙ e)
Spaced-apart p (y ∷ os) end o x t (inl e) (inr k) =
    let b = Spaced-Bounds (y.at + (y.len + 1)) os end x t.3 k in
    rw (sym e) (inr (inr (omega (arith, b.low))))
Spaced-apart p (y ∷ os) end o x t (inr h) (inl e) =
    let b = Spaced-Bounds (y.at + (y.len + 1)) os end o t.3 h in
    rw (sym e) (inr (inl (omega (arith, b.low))))
Spaced-apart p (y ∷ os) end o x t (inr h) (inr k) =
    Spaced-apart (y.at + (y.len + 1)) os end o x t.3 h k

abbrev or_zero : Option ℕ → ℕ
or_zero none = 0
or_zero (some w) = w

-- The words of the objects that have not moved. The head of one that has is its type alone.
abbrev pub unmoved : List ℕ → List Obj → ℕ
unmoved heap [] = 0
unmoved heap (o ∷ os) =
    (if or_zero (get_elem? heap o.at) == 128 then 0 else o.len + 1) + unmoved heap os

module _ (heap heap' : List ℕ) where
  -- The blocks agree from `p` up to `end`.
  abbrev pub Agree : ℕ → ℕ → Type 0
  Agree p end = (j : ℕ) → p ≤ j → j < end → get_elem? heap' j ≡ get_elem? heap j

  unmoved-same :
      (p : ℕ) (os : List Obj) (end : ℕ)
      → Spaced p os end
      → Agree p end
      → unmoved heap' os ≡ unmoved heap os
  unmoved-same p [] end t same = refl
  unmoved-same p (x ∷ os) end t same =
      let here =
        same x.at (omega arith) (omega (arith, Spaced-le (x.at + (x.len + 1)) os end t.3)) in
      rw here (
        ap (λ n. (if or_zero (get_elem? heap x.at) == 128 then 0 else x.len + 1) + n)
          (unmoved-same (x.at + (x.len + 1)) os end t.3 (λ j l h. same j (omega arith) h)))

  -- The move of an object takes its words off the sum.
  pub unmoved-move :
      (p : ℕ) (os : List Obj) (end : ℕ) (o : Obj)
      → Spaced p os end
      → Has o os
      → get_elem? heap o.at ≡ some (head_of o)
      → get_elem? heap' o.at ≡ some 128
      → Agree p o.at
      → Agree (o.at + (o.len + 1)) end
      → unmoved heap' os + (o.len + 1) ≡ unmoved heap os
  unmoved-move p [] end o t h before after low high = absurd h
  unmoved-move p (x ∷ os) end o t (inl e) before after low high =
      let rest =
        unmoved-same (x.at + (x.len + 1)) os end t.3
          (λ j l k. high j (rw (sym e) (omega arith)) k) in
      let live : (head_of o == 128) ≡ false = rw (sym e) (ground arith) in
      rw (e, before, after, live, rest) (omega arith)
  unmoved-move p (x ∷ os) end o t (inr h) before after low high =
      let b = Spaced-Bounds (x.at + (x.len + 1)) os end o t.3 h in
      let here = low x.at (omega arith) (omega (arith, b.low)) in
      let rest =
        unmoved-move (x.at + (x.len + 1)) os end o t.3 h before after
          (λ j l k. low j (omega arith) k) high in
      rw here (omega (arith, rest))

-- With nothing moved, the words that are counted lie in the area.
pub unmoved-all :
    (heap : List ℕ) (p : ℕ) (os : List Obj) (end : ℕ)
    → Spaced p os end
    → ((o : Obj) → Has o os → get_elem? heap o.at ≡ some (head_of o))
    → p + unmoved heap os ≤ end
unmoved-all heap p [] end t heads = omega arith
unmoved-all heap p (x ∷ os) end t heads =
    let rest = unmoved-all heap (x.at + (x.len + 1)) os end t.3 (λ o h. heads o (inr h)) in
    let live : (head_of x == 128) ≡ false = ground arith in
    rw (heads x (inl refl), live) (omega (arith, rest))

pub unmoved-Has :
    (heap : List ℕ) (os : List Obj) (o : Obj)
    → Has o os
    → 0 < o.len
    → get_elem? heap o.at ≡ some (head_of o)
    → o.len + 1 ≤ unmoved heap os
unmoved-Has heap [] o h some_words e = absurd h
unmoved-Has heap (x ∷ os) o (inl e') some_words e =
    let live : (head_of o == 128) ≡ false = ground arith in rw (e', e, live) (omega arith)
unmoved-Has heap (x ∷ os) o (inr h) some_words e =
    omega (arith, unmoved-Has heap os o h some_words e)
