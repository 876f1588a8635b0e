-- ===== src/Machine/Stack/Bounded.antt =====
-- The stack that a guest program sees: a list of values with a bound, its top first.
use lilyvm.Base.{ℕ, List, [], ◌∷◌, length, get_elem?, set, ltb, if◌then◌else◌}
use lilyvm.Outcome.{Outcome, done, dies, defined}
use lilyvm.Outcome.{stack_push, stack_pop, stack_ref, stack_last, stack_set, stack_drop1}
use lilyvm.Outcome.{stack_swap, stack_dup}

abbrev pub put : ℕ → ℕ → List ℕ → Outcome (List ℕ)
put bound x xs = if ltb (length xs) bound then done (x ∷ xs) else dies stack_push

abbrev pub take_top : List ℕ → Outcome (ℕ × List ℕ)
take_top [] = dies stack_pop
take_top (x ∷ xs) = done (x, xs)

abbrev pub look : List ℕ → ℕ → Outcome ℕ
look xs i = if ltb i (length xs) then defined (get_elem? xs i) else dies stack_ref

abbrev pub look_top : List ℕ → Outcome ℕ
look_top [] = dies stack_last
look_top (x ∷ xs) = done x

abbrev pub replace : ℕ → ℕ → List ℕ → Outcome (List ℕ)
replace i v xs = if ltb i (length xs) then done (set xs i v) else dies stack_set

abbrev pub discard : List ℕ → Outcome (List ℕ)
discard [] = dies stack_drop1
discard (x ∷ xs) = done xs

abbrev pub exchange : List ℕ → Outcome (List ℕ)
exchange [] = dies stack_swap
exchange (x ∷ []) = dies stack_swap
exchange (x ∷ y ∷ xs) = done (y ∷ x ∷ xs)

abbrev pub copy_top : ℕ → List ℕ → Outcome (List ℕ)
copy_top bound [] = dies stack_dup
copy_top bound (x ∷ xs) = if ltb (length (x ∷ xs)) bound then done (x ∷ x ∷ xs) else dies stack_dup
