-- ===== src/Bignum/Order.antt =====
-- bignum_cmp compares the integers.
use lilyvm.Base.{
  ℕ, zero, suc, ◌+◌, ◌-◌, ◌*◌, ◌<◌, ◌≡◌, ◌≢◌, refl, sym, ap, ◌∙◌, arith, Bool, true, false,
}
use lilyvm.Base.{List, [], ◌∷◌, if◌then◌else◌, ◌==◌, ltb, length, get_or}
use lilyvm.Base.{ℤ, pos, negsuc, signed16, ◌<ℤ◌, ◌≤ℤ◌, ltb_ℤ, eqb_ℤ, pos_part, neg_part}
use native.Mathlib.Decide.{ℕ_discrete}
use lilyvm.Word.{word_is_negative, word_is_negative_lem}
use lilyvm.Value.{lt, eq, gt}
use lilyvm.Bignum.{top_word, check, cmp_loop, cmp_words}
use lilyvm.Bignum.Meaning.{
  value, IsWords, IsNonempty, IsMinimal, value_single, value_parts, signed16_parts, signed16_range,
}

-- The order of two integers, as one of the three comparison values.
abbrev pub order_val : ℤ → ℤ → ℕ
order_val m n = if eqb_ℤ m n then eq else (if ltb_ℤ m n then lt else gt)

value_nil : value [] ≡ pos 0
unfolding value
value_nil = refl

-- The sign of the number is the sign of its top word.
pub value_sign :
    (ws : List ℕ) → IsWords ws → word_is_negative (top_word ws) ≡ ltb_ℤ (value ws) (pos 0)
value_sign [] h = ground (arith, word_is_negative_lem 0, value_nil)
value_sign (w ∷ []) h =
    rw value_single (ground (arith, signed16_parts w h.0, word_is_negative_lem w h.0))
value_sign (w ∷ v ∷ ws) h = ground (arith, value_sign (v ∷ ws) h.1, value_parts w v ws)

-- A positive number in its shortest form is above every shorter one.
minimal_big :
    (w v : ℕ) (ws : List ℕ)
    → IsWords (w ∷ v ∷ ws)
    → IsMinimal (w ∷ v ∷ ws)
    → word_is_negative (top_word (w ∷ v ∷ ws)) ≡ false
    → pos 32768 ≤ℤ value (w ∷ v ∷ ws)
minimal_big w v [] h m n = ground (
  arith,
  value_parts w v [],
  value_single v,
  signed16_parts v h.1.0,
  word_is_negative_lem w h.0,
  word_is_negative_lem v h.1.0,
)
minimal_big w v (u ∷ ws) h m n = omega (arith, minimal_big v u ws h.1 m n, value_parts w v (u ∷ ws))

minimal_small :
    (w v : ℕ) (ws : List ℕ)
    → IsWords (w ∷ v ∷ ws)
    → IsMinimal (w ∷ v ∷ ws)
    → word_is_negative (top_word (w ∷ v ∷ ws)) ≡ true
    → value (w ∷ v ∷ ws) <ℤ negsuc 32767
minimal_small w v [] h m n = ground (
  arith,
  value_parts w v [],
  value_single v,
  signed16_parts v h.1.0,
  word_is_negative_lem w h.0,
  word_is_negative_lem v h.1.0,
)
minimal_small w v (u ∷ ws) h m n =
    omega (arith, minimal_small v u ws h.1 m n, value_parts w v (u ∷ ws))

pub longer_above :
    (a b : List ℕ)
    → IsNonempty a
    → IsWords a
    → IsWords b
    → IsMinimal b
    → length a < length b
    → word_is_negative (top_word b) ≡ false
    → value a <ℤ value b
longer_above [] b ne ha hb m l n = elim ne [ ]
longer_above (x ∷ a) [] ne ha hb m l n = elim m [ ]
longer_above (x ∷ a) (y ∷ []) ne ha hb m l n = absurd (omega arith)
longer_above (x ∷ []) (y ∷ y' ∷ b) ne ha hb m l n =
    rw (value_single x) (omega (arith, minimal_big y y' b hb m n, signed16_range x ha.0))
longer_above (x ∷ x' ∷ a) (y ∷ y' ∷ []) ne ha hb m l n = absurd (omega arith)
longer_above (x ∷ x' ∷ a) (y ∷ y' ∷ y'' ∷ b) ne ha hb m l n = omega (
  arith,
  longer_above (x' ∷ a) (y' ∷ y'' ∷ b) tt ha.1 hb.1 m (omega arith) n,
  value_parts x x' a,
  value_parts y y' (y'' ∷ b),
)

pub longer_below :
    (a b : List ℕ)
    → IsNonempty a
    → IsWords a
    → IsWords b
    → IsMinimal b
    → length a < length b
    → word_is_negative (top_word b) ≡ true
    → value b <ℤ value a
longer_below [] b ne ha hb m l n = elim ne [ ]
longer_below (x ∷ a) [] ne ha hb m l n = elim m [ ]
longer_below (x ∷ a) (y ∷ []) ne ha hb m l n = absurd (omega arith)
longer_below (x ∷ []) (y ∷ y' ∷ b) ne ha hb m l n =
    rw (value_single x) (omega (arith, minimal_small y y' b hb m n, signed16_range x ha.0))
longer_below (x ∷ x' ∷ a) (y ∷ y' ∷ []) ne ha hb m l n = absurd (omega arith)
longer_below (x ∷ x' ∷ a) (y ∷ y' ∷ y'' ∷ b) ne ha hb m l n = omega (
  arith,
  longer_below (x' ∷ a) (y' ∷ y'' ∷ b) tt ha.1 hb.1 m (omega arith) n,
  value_parts x x' a,
  value_parts y y' (y'' ∷ b),
)

-- One word more below: it decides where the words above are equal.
cmp_loop-cons :
    (x y : ℕ) (a b : List ℕ) (i : ℕ)
    → cmp_loop (x ∷ a) (y ∷ b) (suc i)
      ≡ (if cmp_loop a b i == eq then check (ltb x y) (ltb y x) eq else cmp_loop a b i)
unfolding cmp_loop
cmp_loop-cons x y a b zero = refl
cmp_loop-cons x y a b (suc i) = ground (arith, cmp_loop-cons x y a b i)

-- What is decided above stays decided.
check_then :
    (less more : Bool) (above below : ℕ)
    → check less more (if above == eq then below else above)
      ≡ (if check less more above == eq then below else check less more above)
check_then true more above below = refl
check_then false true above below = refl
check_then false false above below = refl

cmp_words-cons :
    (x x' y y' : ℕ) (a b : List ℕ)
    → length a ≡ length b
    → cmp_words (x ∷ x' ∷ a) (y ∷ y' ∷ b) ≡ (
        if cmp_words (x' ∷ a) (y' ∷ b) == eq
        then check (ltb x y) (ltb y x) eq
        else cmp_words (x' ∷ a) (y' ∷ b))
unfolding cmp_words
cmp_words-cons x x' y y' a b l =
    rw
      (
        refl_test (suc (suc (length a))) (suc (suc (length b))) (omega arith),
        refl_test (suc (length a)) (suc (length b)) (omega arith),
        sub_one (suc (length a)),
        sub_one (length a),
      )
      (ap (check (ltb_ℤ ta tb) (ltb_ℤ tb ta)) (cmp_loop-cons x y (x' ∷ a) (y' ∷ b) (length a))
        ∙ check_then (ltb_ℤ ta tb) (ltb_ℤ tb ta) (cmp_loop (x' ∷ a) (y' ∷ b) (length a))
            (check (ltb x y) (ltb y x) eq))
  where
    ta : ℤ
    ta = signed16 (get_or (x' ∷ a) (length a) 0)

    tb : ℤ
    tb = signed16 (get_or (y' ∷ b) (length a) 0)

    refl_test : (m n : ℕ) → m ≡ n → (m == n) ≡ true
    refl_test m n e = ground arith

    sub_one : (n : ℕ) → suc n - 1 ≡ n
    sub_one n = omega arith

pub IsMinimal-IsNonempty : (ws : List ℕ) → IsMinimal ws → IsNonempty ws
IsMinimal-IsNonempty [] h = h
IsMinimal-IsNonempty (w ∷ ws) h = tt

order_step :
    (x y : ℕ) (v w v' w' : ℤ)
    → x < 65536
    → y < 65536
    → pos_part v' + 65536 * neg_part v ≡ neg_part v' + x + 65536 * pos_part v
    → pos_part w' + 65536 * neg_part w ≡ neg_part w' + y + 65536 * pos_part w
    → order_val v' w'
      ≡ (if order_val v w == eq then check (ltb x y) (ltb y x) eq else order_val v w)
order_step x y v w v' w' hx hy e f = ground arith

-- Numbers of one length, word by word from the top.
cmp_same_length :
    (a b : List ℕ)
    → IsNonempty a
    → IsWords a
    → IsWords b
    → length a ≡ length b
    → cmp_words a b ≡ order_val (value a) (value b)
unfolding cmp_words
cmp_same_length [] b ne ha hb l = elim ne [ ]
cmp_same_length (x ∷ a) [] ne ha hb l = absurd (omega arith)
cmp_same_length (x ∷ []) (y ∷ []) ne ha hb l = rw (value_single x, value_single y) (ground arith)
cmp_same_length (x ∷ []) (y ∷ y' ∷ b) ne ha hb l = absurd (omega arith)
cmp_same_length (x ∷ x' ∷ a) (y ∷ []) ne ha hb l = absurd (omega arith)
cmp_same_length (x ∷ x' ∷ a) (y ∷ y' ∷ b) ne ha hb l =
    cmp_words-cons x x' y y' a b (omega arith)
    ∙ rw (cmp_same_length (x' ∷ a) (y' ∷ b) tt ha.1 hb.1 (omega arith)) (
        sym (
          order_step x y (value (x' ∷ a)) (value (y' ∷ b)) (value (x ∷ x' ∷ a)) (value (y ∷ y' ∷ b))
            ha.0 hb.0 (value_parts x x' a) (value_parts y y' b)))

cmp_other_length :
    (a b : List ℕ)
    → IsWords a
    → IsWords b
    → IsMinimal a
    → IsMinimal b
    → length a ≢ length b
    → cmp_words a b ≡ order_val (value a) (value b)
unfolding cmp_words
cmp_other_length a b ha hb ma mb l = ground (
  arith,
  value_sign a ha,
  value_sign b hb,
  longer_above a b (IsMinimal-IsNonempty a ma) ha hb mb,
  longer_below a b (IsMinimal-IsNonempty a ma) ha hb mb,
  longer_above b a (IsMinimal-IsNonempty b mb) hb ha ma,
  longer_below b a (IsMinimal-IsNonempty b mb) hb ha ma,
)

-- `bignum_cmp` gives `LT`, `EQ` or `GT` as the one integer is below, equal to or above the other,
-- for bodies of words in their shortest form.
pub cmp_words_lem :
    (a b : List ℕ)
    → IsWords a
    → IsWords b
    → IsMinimal a
    → IsMinimal b
    → cmp_words a b ≡ order_val (value a) (value b)
cmp_words_lem a b ha hb ma mb = elim (ℕ_discrete (length a) (length b)) [
  | yes same ↦ cmp_same_length a b (IsMinimal-IsNonempty a ma) ha hb same
  | no other ↦ cmp_other_length a b ha hb ma mb other
]
