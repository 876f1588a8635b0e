-- ===== src/Heap/Ends.antt =====
-- Outcomes that do not hang, and the accesses to the block, which never do.
use lilyvm.Base.{ℕ, zero, suc, ◌-◌, ◌*◌, ◌%◌, ◌<◌, ◌≡◌, refl, ◌∙◌, arith}
use lilyvm.Base.{
  List, [], ◌∷◌, length, set, length-set, ltb, leb, true, false, Bool, ◌==◌, not, ◌&&◌,
  if◌then◌else◌,
}
use lilyvm.Outcome.{Outcome, Failure, done, dies, fault, hangs, ◌>>=◌, ◌>>◌, ensure, inside}
use lilyvm.Heap.{
  load, store, load_words, store_words, offset_from, checked_offset, ptr_numwords, ptr_type,
}

-- What an outcome returns satisfies `q`, and it does not hang.
abbrev pub Returns : {A : Type 0} → (A → Type 0) → Outcome A → Type 0
Returns q (done a) = q a
Returns q (dies e) = Unit
Returns q fault = Unit
Returns q hangs = ⊥

pub record Ends {A : Type 0} (q : A → Type 0) (m : Outcome A) : Type 0 where
  pub ends : Returns q m

abbrev pub Stops : {A : Type 0} → Outcome A → Type 0
Stops m = Ends (λ a. Unit) m

pub as-Ends : {A : Type 0} {q : A → Type 0} {m : Outcome A} → Returns q m → Ends q m
as-Ends h = record { ends = h }

pub Ends-bind :
    {A B : Type 0} {q : A → Type 0} {r : B → Type 0} (m : Outcome A) (f : A → Outcome B)
    → Ends q m
    → ((a : A) → q a → Ends r (f a))
    → Ends r (m >>= f)
Ends-bind (done a) f h k = k a h.ends
Ends-bind (dies e) f h k = as-Ends tt
Ends-bind fault f h k = as-Ends tt
Ends-bind hangs f h k = absurd h.ends

pub Ends-if :
    {A : Type 0} {q : A → Type 0} (b : Bool) (m n : Outcome A)
    → ((b ≡ true) → Ends q m)
    → ((b ≡ false) → Ends q n)
    → Ends q (if b then m else n)
Ends-if true m n h k = h refl
Ends-if false m n h k = k refl

pub Ends-ensure :
    {A : Type 0} {q : A → Type 0} (b : Bool) (e : Failure) (m : Outcome A)
    → Ends q m
    → Ends q (ensure b e >> m)
Ends-ensure true e m h = h
Ends-ensure false e m h = as-Ends tt

pub Ends-inside :
    {A : Type 0} {q : A → Type 0} (b : Bool) (m : Outcome A) → Ends q m → Ends q (inside b >> m)
Ends-inside true m h = h
Ends-inside false m h = as-Ends tt

pub Ends-map :
    {A : Type 0} {q r : A → Type 0} (m : Outcome A) → Ends q m → ((a : A) → q a → r a) → Ends r m
Ends-map (done a) h k = as-Ends (k a h.ends)
Ends-map (dies e) h k = as-Ends tt
Ends-map fault h k = as-Ends tt
Ends-map hangs h k = absurd h.ends

pub load-Ends : (heap : List ℕ) (i : ℕ) → Ends (λ w. i < length heap) (load heap i)
load-Ends [] i = as-Ends tt
load-Ends (w ∷ heap) zero = as-Ends (omega arith)
load-Ends (w ∷ heap) (suc i) = as-Ends (later (load heap i) (load-Ends heap i).ends)
  where
    later :
        (m : Outcome ℕ)
        → Returns (λ w. i < length heap) m
        → Returns (λ w. suc i < suc (length heap)) m
    later (done w) h = omega arith
    later (dies e) h = tt
    later fault h = tt
    later hangs h = h

abbrev pub KeepsLength : List ℕ → List ℕ → Type 0
KeepsLength heap h = length h ≡ length heap

pub store-Ends : (heap : List ℕ) (i w : ℕ) → Ends (KeepsLength heap) (store heap i w)
store-Ends heap i w =
    Ends-if (ltb i (length heap)) (done (set heap i w)) fault (λ h. as-Ends (length-set heap i w))
      (λ h. as-Ends tt)

pub load_words-Stops : (heap : List ℕ) (i n : ℕ) → Stops (load_words heap i n)
unfolding load_words
load_words-Stops heap i zero = as-Ends tt
load_words-Stops heap i (suc n) = Ends-bind (load heap i) _ (load-Ends heap i) (λ w h.
    Ends-bind (load_words heap (suc i) n) _ (load_words-Stops heap (suc i) n) (λ ws k. as-Ends tt))

pub store_words-Ends :
    (heap : List ℕ) (i : ℕ) (ws : List ℕ) → Ends (KeepsLength heap) (store_words heap i ws)
unfolding store_words
store_words-Ends heap i [] = as-Ends refl
store_words-Ends heap i (w ∷ ws) =
    Ends-bind (store heap i w) _ (store-Ends heap i w)
      (λ h e. Ends-map (store_words h (suc i) ws) (store_words-Ends h (suc i) ws) (λ x k. k ∙ e))

pub checked_offset-Stops : (base size v : ℕ) → Stops (checked_offset base size v)
unfolding checked_offset
checked_offset-Stops base size v =
    Ends-ensure (not (v == 0)) _ _
      (Ends-ensure (v % 2 == 0) _ _ (Ends-ensure (ltb v size) _ _ (as-Ends tt)))

pub offset_from-Stops : (base size ptr : ℕ) → Stops (offset_from base size ptr)
unfolding offset_from
offset_from-Stops base size ptr =
    let d = 2 * (ptr - base) in
    Ends-ensure (leb base ptr && ltb d size) _ _ (Ends-ensure (not (d == 0)) _ _ (as-Ends tt))

pub ptr_numwords-Ends : (heap : List ℕ) (p : ℕ) → Ends (λ w. p < length heap) (ptr_numwords heap p)
unfolding ptr_numwords
ptr_numwords-Ends heap p = Ends-bind (load heap p) _ (load-Ends heap p) (λ w h. as-Ends h)

pub ptr_type-Stops : (heap : List ℕ) (p : ℕ) → Stops (ptr_type heap p)
unfolding ptr_type
ptr_type-Stops heap p = Ends-bind (load heap p) _ (load-Ends heap p) (λ w h. as-Ends tt)
