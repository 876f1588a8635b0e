-- ===== src/Bignum/Carry.antt =====
-- One word of a sum in bignum_add, and the overflow word.
use lilyvm.Base.{ℕ, ◌+◌, ◌*◌, ◌%◌, ◌^◌, ◌≤◌, ◌<◌, ◌≡◌, arith, Bool, true, false}
use lilyvm.Base.{List, [], ◌∷◌, ◌++◌, if◌then◌else◌, b2n, Option, none, some}
use lilyvm.Base.{int_laws, pos, ◌+ℤ◌, signed16, pos_part, neg_part, refl}
use lilyvm.Word.{word_is_negative, word_is_negative_lem, word_max, dword_lo}
use lilyvm.Bignum.{top_word, Sum, put, overflow_word}
use lilyvm.Bignum.Meaning.{minus_one, plus_zero, value_cons}
use lilyvm.Bignum.Meaning.{value, IsNonempty, value_parts, value_single, signed16_parts}

abbrev pub complete : List ℕ → Option ℕ → List ℕ
complete z none = z
complete z (some w) = z ++ w ∷ []

-- The words of a sum with its overflow word.
abbrev pub completed : Sum → List ℕ
completed s = complete s.z (overflow_word s.last_signs (top_word s.z))

abbrev overflow_of : Bool → Bool → Bool → Option ℕ
overflow_of true true true = none
overflow_of true true false = some word_max
overflow_of false false true = some 0
overflow_of false false false = none
overflow_of true false n = none
overflow_of false true n = none

overflow_word-signs :
    (p q : Bool) (t : ℕ) → overflow_word (b2n p + b2n q) t ≡ overflow_of p q (word_is_negative t)
unfolding overflow_word
overflow_word-signs true true t = Bool-if (word_is_negative t)
  where
    Bool-if : (n : Bool) → (if n then none else some word_max) ≡ overflow_of true true n
    Bool-if true = refl
    Bool-if false = refl
overflow_word-signs true false t = refl
overflow_word-signs false true t = refl
overflow_word-signs false false t = Bool-if (word_is_negative t)
  where
    Bool-if : (n : Bool) → (if n then some 0 else none) ≡ overflow_of false false n
    Bool-if true = refl
    Bool-if false = refl

-- What the top word of a sum counts for, by the signs of the two words that went into it.
abbrev weight : Bool → Bool → Bool → ℕ
weight true true n = 65536
weight false false n = 0
weight true false n = if n then 65536 else 0
weight false true n = if n then 65536 else 0

complete_top :
    (p q n : Bool) (t : ℕ)
    → t < 2 ^ 16
    → word_is_negative t ≡ n
    → pos_part (value (complete (t ∷ []) (overflow_of p q n))) + weight p q n
      ≡ neg_part (value (complete (t ∷ []) (overflow_of p q n))) + t
complete_top true true true t h e = ground (arith, value_single t, signed16_parts t)
complete_top true true false t h e = ground (arith, value_parts t 65535 [], minus_one)
complete_top true false true t h e = ground (arith, value_single t, signed16_parts t)
complete_top true false false t h e = ground (arith, value_single t, signed16_parts t)
complete_top false true true t h e = ground (arith, value_single t, signed16_parts t)
complete_top false true false t h e = ground (arith, value_single t, signed16_parts t)
complete_top false false true t h e = ground (arith, value_parts t 0 [], plus_zero)
complete_top false false false t h e = ground (arith, value_single t, signed16_parts t)

-- One word of a sum.
abbrev pub sum_word : ℕ → ℕ → ℕ → ℕ
sum_word acc x y = dword_lo ((acc + (x + y)) % 2 ^ 32)

module _ (x y acc : ℕ) (hx : x < 2 ^ 16) (hy : y < 2 ^ 16) (small : acc ≤ 1) where
  weight_top :
      (p q n : Bool)
      → word_is_negative x ≡ p
      → word_is_negative y ≡ q
      → word_is_negative (sum_word acc x y) ≡ n
      → acc + x + y + weight p q n
        ≡ sum_word acc x y + (if p then 65536 else 0) + (if q then 65536 else 0)
  weight_top p q n ep eq en = ground (
    arith,
    word_is_negative_lem x hx,
    word_is_negative_lem y hy,
    word_is_negative_lem (sum_word acc x y) (omega arith),
  )

  abbrev top_sum : Sum
  top_sum = record {
    z = sum_word acc x y ∷ [];
    last_signs = b2n (word_is_negative x) + b2n (word_is_negative y);
  }

  -- The top word of both numbers.
  pub completed_top : value (completed top_sum) ≡ signed16 x +ℤ signed16 y +ℤ pos acc
  completed_top =
      let p = word_is_negative x in
      let q = word_is_negative y in
      let t = sum_word acc x y in
      let n = word_is_negative t in
      rw (overflow_word-signs p q t) (
        omega (
          int_laws,
          complete_top p q n t (omega arith) refl,
          weight_top p q n refl refl refl,
          signed16_parts x hx,
          signed16_parts y hy,
        ))

-- A word below the top.
complete-cons : (w : ℕ) (z : List ℕ) (o : Option ℕ) → complete (w ∷ z) o ≡ w ∷ complete z o
complete-cons w z none = refl
complete-cons w z (some v) = refl

IsNonempty-complete : (z : List ℕ) (o : Option ℕ) → IsNonempty z → IsNonempty (complete z o)
IsNonempty-complete [] o h = elim h [ ]
IsNonempty-complete (w ∷ z) none h = tt
IsNonempty-complete (w ∷ z) (some v) h = tt

top_word-cons : (w : ℕ) (z : List ℕ) → IsNonempty z → top_word (w ∷ z) ≡ top_word z
top_word-cons w [] h = elim h [ ]
top_word-cons w (v ∷ z) h = refl

completed-put : (w : ℕ) (s : Sum) → IsNonempty s.z → completed (put w s) ≡ w ∷ completed s
completed-put w s h =
    rw (top_word-cons w s.z h) (complete-cons w s.z (overflow_word s.last_signs (top_word s.z)))

pub value-put :
    (w : ℕ) (s : Sum)
    → IsNonempty s.z
    → pos_part (value (completed (put w s))) + 65536 * neg_part (value (completed s))
      ≡ neg_part (value (completed (put w s))) + w + 65536 * pos_part (value (completed s))
value-put w s h = rw (completed-put w s h) (
    value_cons w (completed s)
      (IsNonempty-complete s.z (overflow_word s.last_signs (top_word s.z)) h))
