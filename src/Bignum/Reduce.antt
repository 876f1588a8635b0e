-- ===== src/Bignum/Reduce.antt =====
-- The `while` at the end of bignum_add: it drops the words that only repeat the sign.
use lilyvm.Base.{
  ℕ, zero, suc, ◌^◌, ◌≤◌, ◌<◌, ◌≡◌, refl, sym, ap, ◌∙◌, arith, Bool, true, false, not, ◌&&◌,
}
use lilyvm.Base.{List, [], ◌∷◌, if◌then◌else◌, ◌==◌, length, get_or, take, Bool-cases, inl, inr}
use lilyvm.Base.{eq_of_parts, pos_part, neg_part}
use lilyvm.Word.{word_is_negative, word_is_negative_lem, word_max}
use lilyvm.Bignum.{reduce}
use lilyvm.Bignum.Meaning.{value, IsWords, IsNonempty, IsMinimal, redundant}
use lilyvm.Bignum.Meaning.{
  value_parts, value_single, value_cons, signed16_parts, plus_zero, minus_one,
}

IsNonempty-take : (i : ℕ) (z : List ℕ) → IsNonempty z → IsNonempty (take (suc i) z)
IsNonempty-take i [] h = elim h [ ]
IsNonempty-take i (w ∷ z) h = tt

get_or-lt : (z : List ℕ) (i : ℕ) → IsWords z → get_or z i 0 < 2 ^ 16
get_or-lt [] i h = omega arith
get_or-lt (w ∷ z) zero h = h.0
get_or-lt (w ∷ z) (suc i) h = get_or-lt z i h.1

value_pair : (w v : ℕ) → w < 2 ^ 16 → redundant w v ≡ true → value (w ∷ v ∷ []) ≡ value (w ∷ [])
value_pair w v h r =
    eq_of_parts (value (w ∷ v ∷ [])) (value (w ∷ []))
      (ground (arith, value_parts w v [], value_single w, signed16_parts w h, plus_zero, minus_one))

-- Dropping a redundant word keeps the value.
take-redundant :
    (z : List ℕ) (i : ℕ)
    → IsWords z
    → suc i < length z
    → redundant (get_or z i 0) (get_or z (suc i) 0) ≡ true
    → value (take (suc (suc i)) z) ≡ value (take (suc i) z)
take-redundant [] i words h r = absurd (omega arith)
take-redundant (w ∷ []) i words h r = absurd (omega arith)
take-redundant (w ∷ v ∷ z) zero words h r = value_pair w v words.0 r
take-redundant (w ∷ v ∷ z) (suc i) words h r =
    eq_of_parts (value (take (suc (suc (suc i))) (w ∷ v ∷ z)))
      (value (take (suc (suc i)) (w ∷ v ∷ z)))
      (omega (
        arith,
        value_cons w (v ∷ take (suc i) z) tt,
        value_cons w (v ∷ take i z) tt,
        ap pos_part (take-redundant (v ∷ z) i words.1 (omega arith) r),
        ap neg_part (take-redundant (v ∷ z) i words.1 (omega arith) r),
      ))

IsMinimal-cons2 : (w v u : ℕ) (ws : List ℕ) → IsMinimal (v ∷ u ∷ ws) → IsMinimal (w ∷ v ∷ u ∷ ws)
IsMinimal-cons2 w v u ws h = h

-- A top word that is not redundant ends a minimal list.
take-IsMinimal :
    (z : List ℕ) (i : ℕ)
    → suc i < length z
    → redundant (get_or z i 0) (get_or z (suc i) 0) ≡ false
    → IsMinimal (take (suc (suc i)) z)
take-IsMinimal [] i h r = absurd (omega arith)
take-IsMinimal (w ∷ []) i h r = absurd (omega arith)
take-IsMinimal (w ∷ v ∷ z) zero h r = r
take-IsMinimal (w ∷ v ∷ []) (suc i) h r = absurd (omega arith)
take-IsMinimal (w ∷ v ∷ u ∷ z) (suc i) h r = take-IsMinimal (v ∷ u ∷ z) i (omega arith) r

-- The words up to the index `r` have the value of those up to `i`, with none to spare.
pub record Reduced (z : List ℕ) (i r : ℕ) : Type 0 where
  pub below : r ≤ i
  pub same : value (take (suc r) z) ≡ value (take (suc i) z)
  pub minimal : IsMinimal (take (suc r) z)

-- The test of the loop is the redundancy of the word at `i + 1`, whose sign is `n`.
test-redundant :
    (w v : ℕ) (n : Bool)
    → w < 2 ^ 16
    → v < 2 ^ 16
    → word_is_negative v ≡ n
    → (v == (if n then word_max else 0)) && (if word_is_negative w then n else not n)
      ≡ redundant w v
test-redundant w v n hw hv e = ground (arith, word_is_negative_lem v hv)

redundant-sign :
    (w v : ℕ) → v < 2 ^ 16 → redundant w v ≡ true → word_is_negative w ≡ word_is_negative v
redundant-sign w v hv r = ground (arith, word_is_negative_lem v hv)

pub reduce-Reduced :
    (z : List ℕ) (n : Bool) (i : ℕ)
    → IsWords z
    → i < length z
    → word_is_negative (get_or z i 0) ≡ n
    → Reduced z i (reduce z (if n then word_max else 0) n i)
unfolding reduce
reduce-Reduced [] n zero words h e = absurd (omega arith)
reduce-Reduced (w ∷ z) n zero words h e = record { below = omega arith; same = refl; minimal = tt }
reduce-Reduced z n (suc i) words h e =
    let w = get_or z i 0 in
    let v = get_or z (suc i) 0 in
    let test = test-redundant w v n (get_or-lt z i words) (get_or-lt z (suc i) words) e in
    elim (Bool-cases (redundant w v)) [
      | inl r ↦
          let rest =
            reduce-Reduced z n i words (omega arith)
              (redundant-sign w v (get_or-lt z (suc i) words) r ∙ e) in
          rw (test, r)
            (record {
              below = omega (arith, rest.below);
              same = rest.same ∙ sym (take-redundant z i words h r);
              minimal = rest.minimal;
            })
      | inr r ↦
          rw (test, r)
            (record { below = omega arith; same = refl; minimal = take-IsMinimal z i h r })
    ]
