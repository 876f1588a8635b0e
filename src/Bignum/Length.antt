-- ===== src/Bignum/Length.antt =====
-- How many words bignum_add stores, and how many of them count.
use lilyvm.Base.{ℕ, zero, suc, ◌+◌, ◌-◌, ◌≤◌, ◌<◌, ◌≡◌, refl, arith, Bool, inl, inr}
use lilyvm.Base.{List, [], ◌∷◌, length, length-append, some, get_elem?, Option-cases}
use lilyvm.Word.{word_is_negative, word_max}
use lilyvm.Base.{if◌then◌else◌}
use lilyvm.Bignum.{top_word, Sum, reduce, overflow_word, finish}

pub get_elem?-top_word :
    (ws : List ℕ) (i : ℕ) → length ws ≡ suc i → get_elem? ws i ≡ some (top_word ws)
get_elem?-top_word [] i e = absurd (omega arith)
get_elem?-top_word (w ∷ []) zero e = refl
get_elem?-top_word (w ∷ []) (suc i) e = absurd (omega arith)
get_elem?-top_word (w ∷ v ∷ ws) zero e = absurd (omega arith)
get_elem?-top_word (w ∷ v ∷ ws) (suc i) e = get_elem?-top_word (v ∷ ws) i (omega arith)

reduce-le : (z : List ℕ) (extension : ℕ) (n : Bool) (i : ℕ) → reduce z extension n i ≤ i
unfolding reduce
reduce-le z extension n zero = omega arith
reduce-le z extension n (suc i) = ground (arith, reduce-le z extension n i)

pub record IsSized (s : Sum) : Type 0 where
  pub some_words : 0 < (finish s).len
  pub stored : (finish s).len ≤ length (finish s).body
  pub small : length (finish s).body ≤ length s.z + 1

pub finish-IsSized : (s : Sum) → 0 < length s.z → length s.z < 255 → IsSized s
unfolding finish
finish-IsSized s some_words small =
    elim (Option-cases (overflow_word s.last_signs (top_word s.z))) [
      | inl o ↦ record {
        some_words = rw (o, finish) (omega arith);
        stored =
            let n = word_is_negative (top_word s.z) in
            rw (o, finish)
              (omega (arith, reduce-le s.z (if n then word_max else 0) n (length s.z - 1)));
        small = rw (o, finish) (omega arith);
      }
      | inr (w, o) ↦ record {
        some_words = rw (o, finish) (omega arith);
        stored = rw (o, finish) (omega (arith, length-append s.z (w ∷ [])));
        small = rw (o, finish) (omega (arith, length-append s.z (w ∷ [])));
      }
    ]
