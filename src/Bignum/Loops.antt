-- ===== src/Bignum/Loops.antt =====
-- The two loops of bignum_add, with the overflow word, compute the sum.
use lilyvm.Base.{ℕ, suc, ◌+◌, ◌*◌, ◌%◌, ◌^◌, ◌≤◌, ◌<◌, ◌≡◌, arith, Bool, true, false}
use lilyvm.Base.{List, [], ◌∷◌, if◌then◌else◌, ltb, length, b2n}
use lilyvm.Base.{
  lt→ltb, le→ltb-false, tests, Bool-cases, ap, inl, inr, ◌∙◌, int_laws, ℤ, pos, ◌+ℤ◌, signed16,
  eq_of_parts, pos_part, neg_part, ◌⊎◌, refl,
}
use Prim.Native.Nat.{max}
use mathlib.Core.Path.{subst}
use lilyvm.Word.{word_is_negative, word_is_negative_lem, dword_hi}
use lilyvm.Bignum.{top_word, sign_extension_of, Sum, put, extend_loop, add_loop, add_loops, shorter}
use lilyvm.Bignum.Meaning.{value, IsWords, IsNonempty, value_parts, value_single}
use lilyvm.Bignum.Carry.{completed, sum_word, value-put, completed_top}

-- A sum that is right: it has words, and with its overflow word it has the value `v`.
pub record Adds (s : Sum) (v : ℤ) : Type 0 where
  pub nonempty : IsNonempty s.z
  pub words : IsWords s.z
  pub sums : value (completed s) ≡ v

Adds-put :
    (w : ℕ) (s : Sum) (v total : ℤ)
    → w < 2 ^ 16
    → Adds s v
    → pos_part total + 65536 * neg_part v ≡ neg_part total + w + 65536 * pos_part v
    → Adds (put w s) total
Adds-put w s v total hw rest e = record {
  nonempty = tt;
  words = (hw, rest.words);
  sums =
      eq_of_parts (value (completed (put w s))) total
        (omega (arith, value-put w s rest.nonempty, ap pos_part rest.sums, ap neg_part rest.sums));
}

abbrev IsSignExtension : ℕ → Type 0
IsSignExtension e = (e ≡ 0) ⊎ (e ≡ 65535)

sign_extension_of-IsSignExtension : (w : ℕ) → IsSignExtension (sign_extension_of w)
sign_extension_of-IsSignExtension w = extension (word_is_negative w)
  where
    extension : (n : Bool) → IsSignExtension (if n then 65535 else 0)
    extension true = inr refl
    extension false = inl refl

shorter_left : (x y y' : ℕ) (b : List ℕ) → shorter (x ∷ []) (y ∷ y' ∷ b) ≡ x ∷ []
unfolding shorter
shorter_left x y y' b = rw (lt→ltb 1 (suc (suc (length b))) (omega arith))

shorter_right : (x x' : ℕ) (a : List ℕ) (y : ℕ) → shorter (x ∷ x' ∷ a) (y ∷ []) ≡ y ∷ []
unfolding shorter
shorter_right x x' a y = rw (le→ltb-false (suc (suc (length a))) 1 (omega arith))

top_shorter-cons :
    (x x' : ℕ) (a : List ℕ) (y y' : ℕ) (b : List ℕ)
    → top_word (shorter (x ∷ x' ∷ a) (y ∷ y' ∷ b)) ≡ top_word (shorter (x' ∷ a) (y' ∷ b))
unfolding shorter
top_shorter-cons x x' a y y' b = elim (Bool-cases (ltb (suc (length a)) (suc (length b)))) [
  | inl h ↦ rw (h, lt→ltb (suc (suc (length a))) (suc (suc (length b))) (omega tests))
  | inr h ↦ rw (h, le→ltb-false (suc (suc (length a))) (suc (suc (length b))) (omega tests))
]

module _ (e : ℕ) (ext : IsSignExtension e) where
  extension_parts :
      pos_part (signed16 e) * 65536 + e + neg_part (signed16 e)
      ≡ neg_part (signed16 e) * 65536 + pos_part (signed16 e)
  unfolding signed16
  extension_parts = ground arith

  extend_loop-Adds :
      (acc last_signs : ℕ) (rs : List ℕ)
      → acc ≤ 1
      → IsNonempty rs
      → IsWords rs
      → Adds (extend_loop e acc last_signs rs) (value rs +ℤ signed16 e +ℤ pos acc)
  unfolding extend_loop
  extend_loop-Adds acc ls [] small ne words = elim ne [ ]
  extend_loop-Adds acc ls (r ∷ []) small ne words = record {
    nonempty = tt;
    words = (omega arith, tt);
    sums = rw value_single (completed_top r e acc words.0 (omega arith) small);
  }
  extend_loop-Adds acc ls (r ∷ v ∷ rs) small ne words =
      let carry = dword_hi ((acc + (r + e)) % 2 ^ 32) in
      let signs = b2n (word_is_negative r) + b2n (word_is_negative e) in
      Adds-put (sum_word acc r e) (extend_loop e carry signs (v ∷ rs))
        (value (v ∷ rs) +ℤ signed16 e +ℤ pos carry) (value (r ∷ v ∷ rs) +ℤ signed16 e +ℤ pos acc)
        (omega arith) (extend_loop-Adds carry signs (v ∷ rs) (omega arith) tt words.1)
        (omega (int_laws, value_parts r v rs, extension_parts))

  -- The shorter number's top word `x`, extended by its sign.
  extension_of_top :
      (x : ℕ)
      → x < 2 ^ 16
      → e ≡ sign_extension_of x
      → pos_part (signed16 x) + 65536 * neg_part (signed16 e)
        ≡ neg_part (signed16 x) + x + 65536 * pos_part (signed16 e)
  unfolding signed16
  extension_of_top x h eq = ground (arith, word_is_negative_lem x h)

  add_loop-Adds :
      (acc last_signs : ℕ) (a b : List ℕ)
      → acc ≤ 1
      → IsNonempty a
      → IsNonempty b
      → IsWords a
      → IsWords b
      → e ≡ sign_extension_of (top_word (shorter a b))
      → Adds (add_loop e acc last_signs a b) (value a +ℤ value b +ℤ pos acc)
  unfolding add_loop
  add_loop-Adds acc ls [] b small na nb wa wb eq = elim na [ ]
  add_loop-Adds acc ls (x ∷ a) [] small na nb wa wb eq = elim nb [ ]
  add_loop-Adds acc ls (x ∷ []) (y ∷ []) small na nb wa wb eq = record {
    nonempty = tt;
    words = (omega arith, tt);
    sums = rw (value_single, value_single) (completed_top x y acc wa.0 wb.0 small);
  }
  add_loop-Adds acc ls (x ∷ []) (y ∷ y' ∷ b) small na nb wa wb eq =
      let carry = dword_hi ((acc + (x + y)) % 2 ^ 32) in
      let signs = b2n (word_is_negative x) + b2n (word_is_negative y) in
      Adds-put (sum_word acc x y) (extend_loop e carry signs (y' ∷ b))
        (value (y' ∷ b) +ℤ signed16 e +ℤ pos carry)
        (value (x ∷ []) +ℤ value (y ∷ y' ∷ b) +ℤ pos acc) (omega arith)
        (extend_loop-Adds carry signs (y' ∷ b) (omega arith) tt wb.1)
        (rw value_single (
          omega (
            int_laws,
            value_parts y y' b,
            extension_of_top x wa.0
                (eq ∙ ap (λ s. sign_extension_of (top_word s)) (shorter_left x y y' b)),
          )))
  add_loop-Adds acc ls (x ∷ x' ∷ a) (y ∷ []) small na nb wa wb eq =
      let carry = dword_hi ((acc + (x + y)) % 2 ^ 32) in
      let signs = b2n (word_is_negative x) + b2n (word_is_negative y) in
      Adds-put (sum_word acc x y) (extend_loop e carry signs (x' ∷ a))
        (value (x' ∷ a) +ℤ signed16 e +ℤ pos carry)
        (value (x ∷ x' ∷ a) +ℤ value (y ∷ []) +ℤ pos acc) (omega arith)
        (extend_loop-Adds carry signs (x' ∷ a) (omega arith) tt wa.1)
        (rw value_single (
          omega (
            int_laws,
            value_parts x x' a,
            extension_of_top y wb.0
                (eq ∙ ap (λ s. sign_extension_of (top_word s)) (shorter_right x x' a y)),
          )))
  add_loop-Adds acc ls (x ∷ x' ∷ a) (y ∷ y' ∷ b) small na nb wa wb eq =
      let carry = dword_hi ((acc + (x + y)) % 2 ^ 32) in
      let signs = b2n (word_is_negative x) + b2n (word_is_negative y) in
      Adds-put (sum_word acc x y) (add_loop e carry signs (x' ∷ a) (y' ∷ b))
        (value (x' ∷ a) +ℤ value (y' ∷ b) +ℤ pos carry)
        (value (x ∷ x' ∷ a) +ℤ value (y ∷ y' ∷ b) +ℤ pos acc) (omega arith)
        (add_loop-Adds carry signs (x' ∷ a) (y' ∷ b) (omega arith) tt tt wa.1 wb.1
          (eq ∙ ap sign_extension_of (top_shorter-cons x x' a y y' b)))
        (omega (int_laws, value_parts x x' a, value_parts y y' b))

-- Both loops, with the overflow word, add the two numbers.
pub add_loops-Adds :
    (a b : List ℕ)
    → IsNonempty a
    → IsNonempty b
    → IsWords a
    → IsWords b
    → Adds (add_loops a b) (value a +ℤ value b)
unfolding add_loops
add_loops-Adds a b na nb wa wb =
    let e = sign_extension_of (top_word (shorter a b)) in
    subst (Adds (add_loop e 0 0 a b)) (omega int_laws) (
      add_loop-Adds e (sign_extension_of-IsSignExtension (top_word (shorter a b))) 0 0 a b
        (omega arith) na nb wa wb refl)

length-extend_loop :
    (e acc last_signs : ℕ) (rs : List ℕ) → length (extend_loop e acc last_signs rs).z ≡ length rs
unfolding extend_loop
length-extend_loop e acc ls [] = refl
length-extend_loop e acc ls (r ∷ rs) = ap suc (
    length-extend_loop e (dword_hi ((acc + (r + e)) % 2 ^ 32))
      (b2n (word_is_negative r) + b2n (word_is_negative e)) rs)

length-add_loop :
    (e acc last_signs : ℕ) (a b : List ℕ)
    → length (add_loop e acc last_signs a b).z ≡ max (length a) (length b)
unfolding add_loop
length-add_loop e acc ls [] b = omega (arith, length-extend_loop e acc ls b)
length-add_loop e acc ls (x ∷ a) [] = omega (arith, length-extend_loop e acc ls (x ∷ a))
length-add_loop e acc ls (x ∷ a) (y ∷ b) = omega (
  arith,
  length-add_loop e (dword_hi ((acc + (x + y)) % 2 ^ 32))
      (b2n (word_is_negative x) + b2n (word_is_negative y)) a b,
)

-- The sum has as many words as the longer number.
pub length-add_loops : (a b : List ℕ) → length (add_loops a b).z ≡ max (length a) (length b)
unfolding add_loops
length-add_loops a b = length-add_loop (sign_extension_of (top_word (shorter a b))) 0 0 a b
