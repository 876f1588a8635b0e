-- ===== src/Bignum/Add.antt =====
-- All of bignum_add's arithmetic: the sum, in its shortest form.
use lilyvm.Base.{ℕ, zero, suc, ◌+◌, ◌-◌, ◌<◌, ◌≡◌, refl, sym, ap, ◌∙◌, arith, true, false, ◌&&◌}
use lilyvm.Base.{
  List, [], ◌∷◌, ◌++◌, Option, none, some, Option-cases, if◌then◌else◌, ◌==◌, length, get_or, take,
  Bool-cases, inl, inr,
}
use lilyvm.Base.{ℤ, signed16, ◌+ℤ◌, length-append}
use native.Mathlib.Numerals.{add-one}
use lilyvm.Word.{word_is_negative, word_max}
use lilyvm.Value.{fix, int, is_fixnum, is_in_fix_range}
use lilyvm.Value.Fixnum.{int-fix, is_fixnum-fix, is_in_fix_range_iff}
use lilyvm.Bignum.{top_word, reduce, numwords, Sum, finish, overflow_word, add_loops, add_words}
use lilyvm.Bignum.Meaning.{value, IsWords, IsNonempty, IsMinimal, redundant, value_single}
use lilyvm.Bignum.Carry.{complete}
use lilyvm.Bignum.Loops.{Adds, add_loops-Adds, length-add_loops}
use lilyvm.Bignum.Reduce.{reduce-Reduced}

-- The body of a bignum as the program makes them: as short as it can be, and no fixnum.
abbrev pub IsNormal : List ℕ → Type 0
IsNormal [] = ⊥
IsNormal (w ∷ []) = is_in_fix_range (signed16 w) ≡ false
IsNormal (w ∷ v ∷ ws) = IsMinimal (w ∷ v ∷ ws)

-- A result is the fixnum of `n`, or leaves the normal body of `n`.
abbrev pub StandsFor : Option ℕ → List ℕ → ℤ → Type 0
StandsFor (some v) ws n = (is_fixnum v ≡ true) × (int v ≡ n)
StandsFor none ws n = IsNormal ws × (value ws ≡ n)

take_all : (z : List ℕ) → take (length z) z ≡ z
take_all [] = refl
take_all (w ∷ z) = ap (λ r. w ∷ r) (take_all z)

top_word-last : (v : ℕ) (z : List ℕ) → top_word (v ∷ z) ≡ get_or (v ∷ z) (length z) 0
top_word-last v [] = refl
top_word-last v (u ∷ z) = top_word-last u z

top_word-get_or : (z : List ℕ) → top_word z ≡ get_or z (length z - 1) 0
top_word-get_or [] = refl
top_word-get_or (v ∷ z) = rw (sub_one (length z)) (top_word-last v z)
  where
    sub_one : (n : ℕ) → suc n - 1 ≡ n
    sub_one n = omega arith

append-IsMinimal :
    (z : List ℕ) (w : ℕ) → IsNonempty z → redundant (top_word z) w ≡ false → IsNormal (z ++ w ∷ [])
append-IsMinimal [] w h r = elim h [ ]
append-IsMinimal (v ∷ []) w h r = r
append-IsMinimal (v ∷ u ∷ []) w h r = r
append-IsMinimal (v ∷ u ∷ t ∷ z) w h r = append-IsMinimal (u ∷ t ∷ z) w tt r

-- An overflow word is never redundant.
overflow_word-redundant :
    (last_signs t w : ℕ) → overflow_word last_signs t ≡ some w → redundant t w ≡ false
unfolding overflow_word
overflow_word-redundant ls t w e = ground arith

length-pos : (z : List ℕ) → IsNonempty z → 0 < length z
length-pos [] h = elim h [ ]
length-pos (w ∷ z) h = omega arith

take_one : (z : List ℕ) → IsNonempty z → take 1 z ≡ get_or z 0 0 ∷ []
take_one [] h = elim h [ ]
take_one (w ∷ z) h = refl

take_more-IsNormal :
    (z : List ℕ) (i : ℕ)
    → suc i < length z
    → IsMinimal (take (suc (suc i)) z)
    → IsNormal (take (suc (suc i)) z)
take_more-IsNormal [] i h m = absurd (omega arith)
take_more-IsNormal (w ∷ []) i h m = absurd (omega arith)
take_more-IsNormal (w ∷ v ∷ z) i h m = m

-- The fixnum where the one word left is in its range, the words where it is not.
reduced-StandsFor :
    (z : List ℕ) (i : ℕ) (v : ℤ)
    → IsNonempty z
    → i < length z
    → IsMinimal (take (suc i) z)
    → value (take (suc i) z) ≡ v
    → let z0 = signed16 (get_or z 0 0) in
      StandsFor (if i == 0 && is_in_fix_range z0 then some (fix z0) else none) (take (i + 1) z) v
reduced-StandsFor z zero v ne h m e =
    let z0 = signed16 (get_or z 0 0) in
    let is_z0 : z0 ≡ v = sym (value_single (get_or z 0 0)) ∙ ap value (sym (take_one z ne)) ∙ e in
    elim (Bool-cases (is_in_fix_range z0)) [
      | inl r ↦ rw r (is_fixnum-fix z0, int-fix z0 ((is_in_fix_range_iff z0).0 r) ∙ is_z0)
      | inr r ↦ rw (r, take_one z ne) (r, value_single (get_or z 0 0) ∙ is_z0)
    ]
reduced-StandsFor z (suc i) v ne h m e =
    rw (not_zero i, add-one (suc i)) (take_more-IsNormal z i h m, e)
  where
    not_zero : (i : ℕ) → (suc i == 0) ≡ false
    not_zero i = ground arith

-- `finish` gives back what the loops have summed.
finish-overflow :
    (s : Sum) (w : ℕ) (v : ℤ)
    → Adds s v
    → length s.z < 255
    → overflow_word s.last_signs (top_word s.z) ≡ some w
    → StandsFor (finish s).fixnum (take (finish s).len (finish s).body) v
unfolding finish
finish-overflow s w v a short o =
    let whole : numwords (length s.z + 1) ≡ length (s.z ++ w ∷ []) =
      omega (arith, length-append s.z (w ∷ [])) in
    rw (o, finish)
      (
        rw (whole, take_all (s.z ++ w ∷ []))
            (append-IsMinimal s.z w a.nonempty
              (overflow_word-redundant s.last_signs (top_word s.z) w o)),
        rw (whole, take_all (s.z ++ w ∷ [])) (ap (λ r. value (complete s.z r)) (sym o) ∙ a.sums),
      )

finish-plain :
    (s : Sum) (v : ℤ)
    → Adds s v
    → overflow_word s.last_signs (top_word s.z) ≡ none
    → StandsFor (finish s).fixnum (take (finish s).len (finish s).body) v
unfolding finish
finish-plain s v a o =
    let n = word_is_negative (top_word s.z) in
    let top = length s.z - 1 in
    let some_words = length-pos s.z a.nonempty in
    let r =
      reduce-Reduced s.z n top a.words (omega arith)
        (ap word_is_negative (sym (top_word-get_or s.z))) in
    let i = reduce s.z (if n then word_max else 0) n top in
    let whole : suc top ≡ length s.z = omega arith in
    let all : take (suc top) s.z ≡ s.z = rw whole (take_all s.z) in
    rw (o, finish)
      (reduced-StandsFor s.z i v a.nonempty (omega (arith, r.below)) r.minimal
        (r.same ∙ ap value all ∙ ap (λ r. value (complete s.z r)) (sym o) ∙ a.sums))

-- `bignum_add` computes the sum of the two integers, for bodies that are not empty and leave the
-- length of the result below 256: it returns the fixnum of the sum, if that is in range, and else
-- the shortest body that stands for it.
pub add_words-StandsFor :
    (a b : List ℕ)
    → IsNonempty a
    → IsNonempty b
    → IsWords a
    → IsWords b
    → length a < 255
    → length b < 255
    → let f = add_words a b in StandsFor f.fixnum (take f.len f.body) (value a +ℤ value b)
unfolding add_words
add_words-StandsFor a b na nb wa wb la lb =
    let s = add_loops a b in
    let adds = add_loops-Adds a b na nb wa wb in
    elim (Option-cases (overflow_word s.last_signs (top_word s.z))) [
      | inl o ↦ finish-plain s (value a +ℤ value b) adds o
      | inr (w, o) ↦
          finish-overflow s w (value a +ℤ value b) adds (omega (arith, length-add_loops a b)) o
    ]
