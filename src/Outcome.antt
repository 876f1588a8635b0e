-- ===== src/Outcome.antt =====
-- How a C function of this program ends: it returns, it ends the program through `DIE`, `ERROR` or
-- `ASSERT`, or it does what C leaves undefined (an access outside its array).
use lilyvm.Base.{ℕ, Bool, true, false, Option, none, some, ◌≡◌, refl}

-- The messages of `DIE` and `ERROR` in the sources.
pub data Failure : Type 0 where
  assertion out_of_memory unfinished not_implemented : Failure
  out_of_val_roots out_of_ptr_roots : Failure
  no_val_roots_left_to_drop no_ptr_roots_left_to_drop : Failure
  not_an_integer : ℕ → Failure
  not_a_pair_or_null : ℕ → Failure
  invalid_opcode : ℕ → Failure
  stack_push stack_pop stack_ref stack_last stack_set stack_drop1 stack_swap stack_dup : Failure
  stack_ensure_has stack_ensure_free stack_alloc : Failure

-- `hangs` is a loop that has used up the rounds that the model gives it.
pub data Outcome {ℓ} (A : Type ℓ) : Type ℓ where
  done : A → Outcome A
  dies : Failure → Outcome A
  fault hangs : Outcome A

infixl 5 ◌>>=◌ ◌>>◌
abbrev pub ◌>>=◌ {ℓ κ} : {A : Type ℓ} {B : Type κ} → Outcome A → (A → Outcome B) → Outcome B
done a >>= f = f a
dies e >>= f = dies e
fault >>= f = fault
hangs >>= f = hangs

abbrev pub ◌>>◌ {ℓ} : {B : Type ℓ} → Outcome (Unit {0}) → Outcome B → Outcome B
m >> k = m >>= λ _. k

-- Go on only if the test holds.
abbrev pub ensure : Bool → Failure → Outcome (Unit {0})
ensure true e = done tt
ensure false e = dies e

-- `ASSERT`
abbrev pub assert : Bool → Outcome (Unit {0})
assert b = ensure b assertion

-- An address that C defines.
abbrev pub inside : Bool → Outcome (Unit {0})
inside true = done tt
inside false = fault

-- What lies in an array, or nothing that C defines.
abbrev pub defined {ℓ} : {A : Type ℓ} → Option A → Outcome A
defined none = fault
defined (some a) = done a

pub >>=-eq-done {ℓ κ} :
    {A : Type ℓ} {B : Type κ} (m : Outcome A) (f : A → Outcome B) {b : B}
    → (m >>= f) ≡ done b
    → (a : A) × (m ≡ done a) × (f a ≡ done b)
>>=-eq-done (done a) f h = (a, refl, h)
>>=-eq-done (dies e) f h = cc
>>=-eq-done fault f h = cc
>>=-eq-done hangs f h = cc
