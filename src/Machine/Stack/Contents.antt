-- ===== src/Machine/Stack/Contents.antt =====
-- What the array and the stack pointer of the interpreter hold: the values on the stack.
use lilyvm.Base.{ℕ, zero, suc, ◌+◌, ◌^◌, ◌≤◌, ◌<◌, ◌≡◌, ◌≢◌, refl, ap, ap₂, arith}
use lilyvm.Base.{List, [], ◌∷◌, length, get_elem?, get_or, set, some}
use lilyvm.Base.{◌⊎◌, inl, inr}
use lilyvm.Outcome.{Outcome, done, dies}
use lilyvm.Machine.State.{Machine}
use lilyvm.Machine.Stack.{vals_of, with_vals}

-- The first `n` elements, the last of them first.
abbrev pub tops : ℕ → List ℕ → List ℕ
tops zero vals = []
tops (suc n) vals = get_or vals n 0 ∷ tops n vals

abbrev pub contents : Machine → List ℕ
contents s = tops s.sp (vals_of s)

pub record IsValid (s : Machine) : Type 0 where
  pub full : length (vals_of s) ≡ s.process.stack.len
  pub within : s.sp ≤ s.process.stack.len
  pub narrow : s.process.stack.len < 2 ^ 16

-- All but the stack: what a stack operation must leave alone, the bound included.
abbrev pub rest : Machine → Machine
rest s =
    let p = (with_vals [] s).process in
    record s { sp = 0; process = record p { stack = record p.stack { sp = 0 } } }

-- The state after an operation on `s` that leaves `xs` on the stack.
pub record IsAfter (s s' : Machine) (xs : List ℕ) : Type 0 where
  pub valid : IsValid s'
  pub holds : contents s' ≡ xs
  pub frame : rest s' ≡ rest s

-- An outcome of the code against one of the list operation: the same failure, or related results.
abbrev pub Refines {ℓ κ} :
    {A : Type ℓ} {B : Type κ} → (A → B → Type 0) → Outcome A → Outcome B → Type 0
Refines r (done a) (done b) = r a b
Refines r (dies e) (dies e') = e ≡ e'
Refines r x y = ⊥

pub zero_or_suc : (n : ℕ) → (n ≡ 0) ⊎ ((m : ℕ) × (n ≡ suc m))
zero_or_suc zero = inl refl
zero_or_suc (suc m) = inr (m, refl)

pub length-tops : (n : ℕ) (vals : List ℕ) → length (tops n vals) ≡ n
length-tops zero vals = refl
length-tops (suc n) vals = ap suc (length-tops n vals)

pub get_elem?-get_or : (xs : List ℕ) (i : ℕ) → i < length xs → get_elem? xs i ≡ some (get_or xs i 0)
get_elem?-get_or [] i h = elim h [ ]
get_elem?-get_or (x ∷ xs) zero h = refl
get_elem?-get_or (x ∷ xs) (suc i) h = get_elem?-get_or xs i (omega arith)

pub get_or-set_self : (xs : List ℕ) (i v : ℕ) → i < length xs → get_or (set xs i v) i 0 ≡ v
get_or-set_self [] i v h = elim h [ ]
get_or-set_self (x ∷ xs) zero v h = refl
get_or-set_self (x ∷ xs) (suc i) v h = get_or-set_self xs i v (omega arith)

pub get_or-set_ne : (xs : List ℕ) (i j v : ℕ) → i ≢ j → get_or (set xs i v) j 0 ≡ get_or xs j 0
get_or-set_ne [] i j v h = refl
get_or-set_ne (x ∷ xs) zero zero v h = absurd (h refl)
get_or-set_ne (x ∷ xs) zero (suc j) v h = refl
get_or-set_ne (x ∷ xs) (suc i) zero v h = refl
get_or-set_ne (x ∷ xs) (suc i) (suc j) v h = get_or-set_ne xs i j v (λ e. h (ap suc e))

-- A write above the stack leaves it.
pub tops-set_above : (n : ℕ) (vals : List ℕ) (i v : ℕ) → n ≤ i → tops n (set vals i v) ≡ tops n vals
tops-set_above zero vals i v h = refl
tops-set_above (suc n) vals i v h =
    ap₂ ◌∷◌ (get_or-set_ne vals i n v (omega arith)) (tops-set_above n vals i v (omega arith))

-- A write into the stack is one into the list, counted from its top.
pub tops-set :
    (n : ℕ) (vals : List ℕ) (i j v : ℕ)
    → j + suc i ≡ n
    → n ≤ length vals
    → tops n (set vals j v) ≡ set (tops n vals) i v
tops-set zero vals i j v e b = absurd (omega arith)
tops-set (suc n) vals zero j v e b =
    let at_top : j ≡ n = omega arith in
    rw at_top
      (ap₂ ◌∷◌ (get_or-set_self vals n v (omega arith)) (tops-set_above n vals n v (omega arith)))
tops-set (suc n) vals (suc i) j v e b =
    ap₂ ◌∷◌ (get_or-set_ne vals j n v (λ e'. omega arith))
      (tops-set n vals i j v (omega arith) (omega arith))

-- A read likewise.
pub get_or-tops :
    (n : ℕ) (vals : List ℕ) (i j : ℕ) → j + suc i ≡ n → get_or (tops n vals) i 0 ≡ get_or vals j 0
get_or-tops zero vals i j e = absurd (omega arith)
get_or-tops (suc n) vals zero j e = ap (λ k. get_or vals k 0) (omega arith)
get_or-tops (suc n) vals (suc i) j e = get_or-tops n vals i j (omega arith)
