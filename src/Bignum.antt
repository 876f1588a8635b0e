-- ===== src/Bignum.antt =====
-- The word loops of bignum_add, bignum_equal and bignum_cmp in vm_mem.c. A bignum's body is a list of
-- words, the lowest first; its top word carries the sign.
pub mod Meaning
pub mod Carry
pub mod Loops
pub mod Reduce
pub mod Add
pub mod Length
pub mod Words
pub mod Order
pub mod Equal
mod Tests
use lilyvm.Base.{
  ℕ, zero, suc, ◌+◌, ◌-◌, ◌*◌, ◌/◌, ◌%◌, ◌^◌, ◌≡◌, Bool, true, false, not, ◌&&◌, Option, none, some,
}
use lilyvm.Base.{
  List, [], ◌∷◌, ◌++◌, length, get_or, ltb, ◌==◌, if◌then◌else◌, b2n, ℤ, signed16, ltb_ℤ,
}
use lilyvm.Word.{dword_lo, dword_hi, word_is_negative, word_max}
use lilyvm.Value.{fix, is_in_fix_range, tru, fal, lt, eq, gt}

-- `a[lena-1]`
abbrev pub top_word : List ℕ → ℕ
top_word [] = 0
top_word (w ∷ []) = w
top_word (w ∷ v ∷ ws) = top_word (v ∷ ws)

-- `WORD_IS_NEGATIVE(w) ? ~0 : 0`, stored into a `word_t`.
abbrev pub sign_extension_of : ℕ → ℕ
sign_extension_of w = if word_is_negative w then word_max else 0

-- `numwords_t`
abbrev pub numwords : ℕ → ℕ
numwords n = n % 2 ^ 8

abbrev dword : ℕ → ℕ
dword x = x % 2 ^ 32

-- What the two loops leave: the words of `z`, and `last_signs`, the number of negative words that
-- went into the last of them.
pub record Sum : Type 0 where
  pub z : List ℕ
  pub last_signs : ℕ

abbrev pub put : ℕ → Sum → Sum
put w s = record s { z = w ∷ s.z }

-- The second loop: `acc` is the source's `A`, the carry from the words below.
unfoldable pub extend_loop : ℕ → ℕ → ℕ → List ℕ → Sum
extend_loop sign_extension acc last_signs [] = record { z = []; last_signs = last_signs }
extend_loop sign_extension acc last_signs (r ∷ rs) =
    let acc' = dword (acc + (r + sign_extension)) in
    put (dword_lo acc') (
      extend_loop sign_extension (dword_hi acc')
        (b2n (word_is_negative r) + b2n (word_is_negative sign_extension)) rs)

-- The first loop runs while both numbers have words, the second over what the longer has left.
unfoldable pub add_loop : ℕ → ℕ → ℕ → List ℕ → List ℕ → Sum
unfolding extend_loop
add_loop sign_extension acc last_signs [] rs = extend_loop sign_extension acc last_signs rs
add_loop sign_extension acc last_signs (x ∷ xs) [] =
    extend_loop sign_extension acc last_signs (x ∷ xs)
add_loop sign_extension acc last_signs (x ∷ xs) (y ∷ ys) =
    let acc' = dword (acc + (x + y)) in
    put (dword_lo acc') (
      add_loop sign_extension (dword_hi acc') (b2n (word_is_negative x) + b2n (word_is_negative y))
        xs ys)

-- The shorter of the two, `b` where both are as long.
unfoldable pub shorter : List ℕ → List ℕ → List ℕ
shorter a b = if ltb (length a) (length b) then a else b

-- Both loops, extending the shorter number by its sign.
unfoldable pub add_loops : List ℕ → List ℕ → Sum
unfolding add_loop shorter
add_loops a b = add_loop (sign_extension_of (top_word (shorter a b))) 0 0 a b

-- The `switch`: the overflow word, if one is needed.
unfoldable pub overflow_word : ℕ → ℕ → Option ℕ
overflow_word last_signs top =
    if last_signs == 0
    then (if word_is_negative top then some 0 else none)
    else (if last_signs == 2 then (if word_is_negative top then none else some word_max) else none)

-- The `while`: the index of the top word, after the words above that only repeat its sign.
unfoldable pub reduce : List ℕ → ℕ → Bool → ℕ → ℕ
reduce z sign_extension is_negative zero = zero
reduce z sign_extension is_negative (suc i) =
    let below = reduce z sign_extension is_negative i in
    let same_sign = (if word_is_negative (get_or z i 0) then is_negative else not is_negative) in
    if get_or z (suc i) 0 == sign_extension && same_sign then below else suc i

-- The end of `bignum_add`: the words stored in the new object's body, and the fixnum that is
-- returned in its place, if the sum is one, or else the length of the body.
pub record Finished : Type 0 where
  pub body : List ℕ
  pub fixnum : Option ℕ
  pub len : ℕ

unfoldable pub finish : Sum → Finished
unfolding overflow_word reduce
finish s = elim (overflow_word s.last_signs (top_word s.z)) [
  | some w ↦ record { body = s.z ++ w ∷ []; fixnum = none; len = numwords (length s.z + 1) }
  | none ↦
      let is_negative = word_is_negative (top_word s.z) in
      let sign_extension = if is_negative then word_max else 0 in
      let i = reduce s.z sign_extension is_negative (length s.z - 1) in
      let z0 = signed16 (get_or s.z 0 0) in
      record {
        body = s.z;
        fixnum = if i == 0 && is_in_fix_range z0 then some (fix z0) else none;
        len = i + 1;
      }
]

-- All that `bignum_add` computes.
unfoldable pub add_words : List ℕ → List ℕ → Finished
unfolding add_loops finish
add_words a b = finish (add_loops a b)

-- The loop of `bignum_equal`.
unfoldable pub equal_loop : List ℕ → List ℕ → ℕ
equal_loop [] [] = tru
equal_loop (x ∷ xs) (y ∷ ys) = if x == y then equal_loop xs ys else fal
equal_loop _ _ = fal

unfoldable pub equal_words : List ℕ → List ℕ → ℕ
unfolding equal_loop
equal_words a b = if length a == length b then equal_loop a b else fal

-- One `CHECK`, and what follows it.
abbrev pub check : Bool → Bool → ℕ → ℕ
check less more rest = if less then lt else (if more then gt else rest)

-- The loop of `bignum_cmp` over the words below the top.
unfoldable pub cmp_loop : List ℕ → List ℕ → ℕ → ℕ
cmp_loop a b zero = eq
cmp_loop a b (suc i) =
    let rest = cmp_loop a b i in
    check (ltb (get_or a i 0) (get_or b i 0)) (ltb (get_or b i 0) (get_or a i 0)) rest

unfoldable pub cmp_words : List ℕ → List ℕ → ℕ
unfolding cmp_loop
cmp_words a b =
    if length a == length b
    then (let i = length a - 1 in
        let ta = signed16 (get_or a i 0) in
        let tb = signed16 (get_or b i 0) in check (ltb_ℤ ta tb) (ltb_ℤ tb ta) (cmp_loop a b i))
    else (if word_is_negative (top_word a)
        then (if word_is_negative (top_word b)
            then (if ltb (length a) (length b) then gt else lt)
            else lt)
        else (if word_is_negative (top_word b)
            then gt
            else (if ltb (length a) (length b) then lt else gt)))
