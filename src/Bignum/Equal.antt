-- ===== src/Bignum/Equal.antt =====
-- bignum_equal compares the integers.
use lilyvm.Base.{ℕ, ◌≡◌, refl, ap, arith}
use lilyvm.Base.{List, [], ◌∷◌, length}
use lilyvm.Base.{eq_of_parts}
use lilyvm.Base.{◌↔◌, ap₂}
use native.Mathlib.Decide.{ℕ_discrete}
use lilyvm.Word.{word_is_negative_lem}
use lilyvm.Value.{tru}
use lilyvm.Bignum.{equal_words, equal_loop}
use lilyvm.Bignum.Meaning.{
  value, IsWords, IsMinimal, value_single, value_parts, signed16_parts, signed16_range,
}
use lilyvm.Bignum.Order.{value_sign, longer_above, longer_below, IsMinimal-IsNonempty}

equal_loop_iff : (a b : List ℕ) → (equal_loop a b ≡ tru) ↔ (a ≡ b)
unfolding equal_loop
equal_loop_iff [] [] = (λ _. refl, λ _. refl)
equal_loop_iff [] (y ∷ b) = (λ h. absurd (omega arith), λ h. cc)
equal_loop_iff (x ∷ a) [] = (λ h. absurd (omega arith), λ h. cc)
equal_loop_iff (x ∷ a) (y ∷ b) =
    (λ h. ground (arith, (equal_loop_iff a b).0), λ h. ground (arith, (equal_loop_iff a b).1))

-- In the shortest form a number has one body.
value-injective_same :
    (a b : List ℕ) → IsWords a → IsWords b → length a ≡ length b → value a ≡ value b → a ≡ b
value-injective_same [] [] ha hb l e = refl
value-injective_same [] (y ∷ b) ha hb l e = absurd (omega arith)
value-injective_same (x ∷ a) [] ha hb l e = absurd (omega arith)
value-injective_same (x ∷ []) (y ∷ []) ha hb l e =
    ap (λ w. w ∷ [])
      (ground (
        arith,
        value_single x,
        value_single y,
        signed16_parts x ha.0,
        signed16_parts y hb.0,
        word_is_negative_lem x ha.0,
        word_is_negative_lem y hb.0,
        signed16_range x ha.0,
        signed16_range y hb.0,
      ))
value-injective_same (x ∷ []) (y ∷ y' ∷ b) ha hb l e = absurd (omega arith)
value-injective_same (x ∷ x' ∷ a) (y ∷ []) ha hb l e = absurd (omega arith)
value-injective_same (x ∷ x' ∷ a) (y ∷ y' ∷ b) ha hb l e =
    let low : x ≡ y = ground (arith, value_parts x x' a, value_parts y y' b) in
    let high : value (x' ∷ a) ≡ value (y' ∷ b) =
      eq_of_parts (value (x' ∷ a)) (value (y' ∷ b))
        (ground (arith, value_parts x x' a, value_parts y y' b)) in
    ap₂ ◌∷◌ low (value-injective_same (x' ∷ a) (y' ∷ b) ha.1 hb.1 (omega arith) high)

value-injective :
    (a b : List ℕ) → IsWords a → IsWords b → IsMinimal a → IsMinimal b → value a ≡ value b → a ≡ b
value-injective a b ha hb ma mb e = elim (ℕ_discrete (length a) (length b)) [
  | yes same ↦ value-injective_same a b ha hb same e
  | no other ↦ absurd (
      ground (
        arith,
        value_sign a ha,
        value_sign b hb,
        longer_above a b (IsMinimal-IsNonempty a ma) ha hb mb,
        longer_below a b (IsMinimal-IsNonempty a ma) ha hb mb,
        longer_above b a (IsMinimal-IsNonempty b mb) hb ha ma,
        longer_below b a (IsMinimal-IsNonempty b mb) hb ha ma,
      ))
]

-- `bignum_equal` answers true exactly for equal integers, for bodies of words in their shortest
-- form.
pub equal_words_iff :
    (a b : List ℕ)
    → IsWords a
    → IsWords b
    → IsMinimal a
    → IsMinimal b
    → (equal_words a b ≡ tru) ↔ (value a ≡ value b)
unfolding equal_words
equal_words_iff a b ha hb ma mb = (
  λ h. ap value ((equal_loop_iff a b).0 (ground arith)),
  λ e. rw (value-injective a b ha hb ma mb e) (ground (arith, (equal_loop_iff b b).1 refl)),
)
