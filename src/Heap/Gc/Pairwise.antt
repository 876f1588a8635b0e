-- ===== src/Heap/Gc/Pairwise.antt =====
-- Lists of roots: what holds of each element, and of each before and after a collection.
use lilyvm.Base.{◌∙◌, ℕ, zero, suc, ◌≡◌, List, [], ◌∷◌}

abbrev pub All : (ℕ → Type 0) → List ℕ → Type 0
All p [] = Unit
All p (x ∷ xs) = p x × All p xs

-- The first `n` elements.
abbrev pub TopAll : (ℕ → Type 0) → ℕ → List ℕ → Type 0
TopAll p zero xs = Unit
TopAll p (suc n) [] = ⊥
TopAll p (suc n) (x ∷ xs) = p x × TopAll p n xs

abbrev pub Pairwise : (ℕ → ℕ → Type 0) → List ℕ → List ℕ → Type 0
Pairwise r [] [] = Unit
Pairwise r (x ∷ xs) (y ∷ ys) = r x y × Pairwise r xs ys
Pairwise r _ _ = ⊥

-- The first `n` elements are related, and the others are the same.
abbrev pub TopPairwise : (ℕ → ℕ → Type 0) → ℕ → List ℕ → List ℕ → Type 0
TopPairwise r zero xs ys = ys ≡ xs
TopPairwise r (suc n) (x ∷ xs) (y ∷ ys) = r x y × TopPairwise r n xs ys
TopPairwise r (suc n) _ _ = ⊥

module _ {p q : ℕ → Type 0} (f : (x : ℕ) → p x → q x) where
  pub All-map : (xs : List ℕ) → All p xs → All q xs
  All-map [] k = tt
  All-map (x ∷ xs) k = (f x k.0, All-map xs k.1)

  pub TopAll-map : (n : ℕ) (xs : List ℕ) → TopAll p n xs → TopAll q n xs
  TopAll-map zero xs k = tt
  TopAll-map (suc n) [] k = absurd k
  TopAll-map (suc n) (x ∷ xs) k = (f x k.0, TopAll-map n xs k.1)

module _ {r s : ℕ → ℕ → Type 0} (f : (x y : ℕ) → r x y → s x y) where
  pub Pairwise-map : (xs ys : List ℕ) → Pairwise r xs ys → Pairwise s xs ys
  Pairwise-map [] [] k = tt
  Pairwise-map [] (y ∷ ys) k = absurd k
  Pairwise-map (x ∷ xs) [] k = absurd k
  Pairwise-map (x ∷ xs) (y ∷ ys) k = (f x y k.0, Pairwise-map xs ys k.1)

  pub TopPairwise-map : (n : ℕ) (xs ys : List ℕ) → TopPairwise r n xs ys → TopPairwise s n xs ys
  TopPairwise-map zero xs ys k = k
  TopPairwise-map (suc n) [] ys k = absurd k
  TopPairwise-map (suc n) (x ∷ xs) [] k = absurd k
  TopPairwise-map (suc n) (x ∷ xs) (y ∷ ys) k = (f x y k.0, TopPairwise-map n xs ys k.1)

-- One relation behind the other.
module _ {r s u : ℕ → ℕ → Type 0} (f : (x y z : ℕ) → r x y → s y z → u x z) where
  pub Pairwise-trans : (xs ys zs : List ℕ) → Pairwise r xs ys → Pairwise s ys zs → Pairwise u xs zs
  Pairwise-trans [] [] [] h k = tt
  Pairwise-trans [] [] (z ∷ zs) h k = absurd k
  Pairwise-trans [] (y ∷ ys) zs h k = absurd h
  Pairwise-trans (x ∷ xs) [] zs h k = absurd h
  Pairwise-trans (x ∷ xs) (y ∷ ys) [] h k = absurd k
  Pairwise-trans (x ∷ xs) (y ∷ ys) (z ∷ zs) h k = (f x y z h.0 k.0, Pairwise-trans xs ys zs h.1 k.1)

  pub TopPairwise-trans :
      (n : ℕ) (xs ys zs : List ℕ)
      → TopPairwise r n xs ys
      → TopPairwise s n ys zs
      → TopPairwise u n xs zs
  TopPairwise-trans zero xs ys zs h k = k ∙ h
  TopPairwise-trans (suc n) [] ys zs h k = absurd h
  TopPairwise-trans (suc n) (x ∷ xs) [] zs h k = absurd h
  TopPairwise-trans (suc n) (x ∷ xs) (y ∷ ys) [] h k = absurd k
  TopPairwise-trans (suc n) (x ∷ xs) (y ∷ ys) (z ∷ zs) h k =
      (f x y z h.0 k.0, TopPairwise-trans n xs ys zs h.1 k.1)
