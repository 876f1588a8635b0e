-- ===== src/Bignum/Words.antt =====
-- What bignum_add leaves are words, and its fixnum is a value.
use lilyvm.Base.{ℕ, zero, suc, ◌+◌, ◌-◌, ◌^◌, ◌<◌, ◌≡◌, arith, inl, inr}
use lilyvm.Base.{
  List, [], ◌∷◌, ◌++◌, length, take, Option, some, none, get_or, Option-cases, Bool-cases, signed16,
  ◌==◌, ◌&&◌,
}
use lilyvm.Base.{if◌then◌else◌}
use lilyvm.Word.{word_is_negative, word_max}
use lilyvm.Value.{is_in_fix_range}
use lilyvm.Value.Fixnum.{fix-lt}
use lilyvm.Bignum.{Sum, top_word, reduce, overflow_word, finish, add_loops}
use lilyvm.Bignum.Meaning.{IsWords, IsNonempty}
use lilyvm.Bignum.Loops.{add_loops-Adds}

take-IsWords : (n : ℕ) (ws : List ℕ) → IsWords ws → IsWords (take n ws)
take-IsWords zero ws h = tt
take-IsWords (suc n) [] h = tt
take-IsWords (suc n) (w ∷ ws) h = (h.0, take-IsWords n ws h.1)

append-IsWords : (ws : List ℕ) (w : ℕ) → IsWords ws → w < 2 ^ 16 → IsWords (ws ++ w ∷ [])
append-IsWords [] w h small = (small, tt)
append-IsWords (v ∷ ws) w h small = (h.0, append-IsWords ws w h.1 small)

overflow_word-lt : (ls t w : ℕ) → overflow_word ls t ≡ some w → w < 2 ^ 16
unfolding overflow_word
overflow_word-lt ls t w e = ground arith

-- A value, if there is one.
abbrev pub IsCode : Option ℕ → Type 0
IsCode none = Unit {0}
IsCode (some v) = v < 2 ^ 16

pub record IsWritten (s : Sum) : Type 0 where
  pub are_words : IsWords (take (finish s).len (finish s).body)
  pub code : IsCode (finish s).fixnum

pub finish-IsWritten : (s : Sum) → IsWords s.z → IsWritten s
unfolding finish
finish-IsWritten s words = elim (Option-cases (overflow_word s.last_signs (top_word s.z))) [
  | inl o ↦
      let n = word_is_negative (top_word s.z) in
      let i = reduce s.z (if n then word_max else 0) n (length s.z - 1) in
      let z0 = signed16 (get_or s.z 0 0) in
      record {
        are_words = rw (o, finish) (take-IsWords (i + 1) s.z words);
        code = elim (Bool-cases (i == 0 && is_in_fix_range z0)) [
          | inl h ↦ rw (o, finish, h) (fix-lt z0)
          | inr h ↦ rw (o, finish, h) tt
        ];
      }
  | inr (w, o) ↦ record {
    are_words =
        rw (o, finish)
          (take-IsWords _ (s.z ++ w ∷ [])
            (append-IsWords s.z w words (overflow_word-lt s.last_signs (top_word s.z) w o)));
    code = rw (o, finish) tt;
  }
]

pub add_words-IsWritten :
    (a b : List ℕ) → IsNonempty a → IsNonempty b → IsWords a → IsWords b → IsWritten (add_loops a b)
add_words-IsWritten a b na nb wa wb =
    finish-IsWritten (add_loops a b) (add_loops-Adds a b na nb wa wb).words
