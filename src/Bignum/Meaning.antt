-- ===== src/Bignum/Meaning.antt =====
-- The integer that the body of a bignum stands for.
use lilyvm.Base.{ℕ, ◌+◌, ◌*◌, ◌^◌, ◌<◌, ◌≡◌, refl, arith, Bool, false}
use lilyvm.Base.{List, [], ◌∷◌, if◌then◌else◌, ◌==◌, ℤ, pos, negsuc, ◌+ℤ◌, ◌*ℤ◌, ◌≤ℤ◌, signed16}
use lilyvm.Base.{+ℤ_parts, *ℤ_parts, pos_part, neg_part}
use lilyvm.Word.{word_is_negative, word_is_negative_lem, word_max}

-- Two's complement: every word but the top one counts as it is, the top one with its sign.
unfoldable pub value : List ℕ → ℤ
value [] = pos 0
value (w ∷ []) = signed16 w
value (w ∷ v ∷ ws) = pos w +ℤ pos 65536 *ℤ value (v ∷ ws)

abbrev pub IsWords : List ℕ → Type 0
IsWords [] = Unit {0}
IsWords (w ∷ ws) = (w < 2 ^ 16) × IsWords ws

abbrev pub IsNonempty : List ℕ → Type 0
IsNonempty [] = ⊥
IsNonempty (w ∷ ws) = Unit {0}

-- The top word `v` only repeats the sign of the word `w` below it.
abbrev pub redundant : ℕ → ℕ → Bool
redundant w v = if word_is_negative w then v == word_max else v == 0

-- No shorter list of words has the same value.
abbrev pub IsMinimal : List ℕ → Type 0
IsMinimal [] = ⊥
IsMinimal (w ∷ []) = Unit {0}
IsMinimal (w ∷ v ∷ []) = redundant w v ≡ false
IsMinimal (w ∷ v ∷ u ∷ ws) = IsMinimal (v ∷ u ∷ ws)

-- `value` of a longer list, in the form that `omega` reads.
pub value_parts :
    (w v : ℕ) (ws : List ℕ)
    → pos_part (value (w ∷ v ∷ ws)) + 65536 * neg_part (value (v ∷ ws))
      ≡ neg_part (value (w ∷ v ∷ ws)) + w + 65536 * pos_part (value (v ∷ ws))
unfolding value
value_parts w v ws =
    omega (arith, +ℤ_parts (pos w) (pos 65536 *ℤ value (v ∷ ws)), *ℤ_parts 65536 (value (v ∷ ws)))

pub value_single : (w : ℕ) → value (w ∷ []) ≡ signed16 w
unfolding value
value_single w = refl

pub signed16_parts :
    (w : ℕ)
    → w < 2 ^ 16
    → pos_part (signed16 w) + (if word_is_negative w then 65536 else 0) ≡ neg_part (signed16 w) + w
unfolding signed16
signed16_parts w h = ground (arith, word_is_negative_lem w)

pub minus_one : value (65535 ∷ []) ≡ negsuc 0
unfolding value signed16
minus_one = refl

pub plus_zero : value (0 ∷ []) ≡ pos 0
unfolding value signed16
plus_zero = refl

pub value_cons :
    (w : ℕ) (ws : List ℕ)
    → IsNonempty ws
    → pos_part (value (w ∷ ws)) + 65536 * neg_part (value ws)
      ≡ neg_part (value (w ∷ ws)) + w + 65536 * pos_part (value ws)
value_cons w [] h = elim h [ ]
value_cons w (v ∷ ws) h = value_parts w v ws

pub signed16_range : (w : ℕ) → w < 2 ^ 16 → (negsuc 32767 ≤ℤ signed16 w) × (signed16 w ≤ℤ pos 32767)
unfolding signed16
signed16_range w h = ground arith
