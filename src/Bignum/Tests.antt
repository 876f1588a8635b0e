-- ===== src/Bignum/Tests.antt =====
-- The sums of TEST(scm_add) on words, and the theorems at concrete numbers.
use lilyvm.Base.{
  ℕ, ◌≡◌, ◌↔◌, refl, arith, List, [], ◌∷◌, take, ◌+ℤ◌, ◌*ℤ◌, signed16, to_word, pos, negsuc, some,
}
use lilyvm.Word.{word_is_negative}
use lilyvm.Value.{tru, fix}
use lilyvm.Bignum.{add_words, cmp_words, equal_words}
use lilyvm.Bignum.Meaning.{value, IsMinimal}
use lilyvm.Bignum.Add.{StandsFor, add_words-StandsFor}
use lilyvm.Bignum.Order.{order_val, cmp_words_lem}
use lilyvm.Bignum.Equal.{equal_words_iff}

-- -128000 and 128000, and 40000 = 20000 + 20000.
abbrev minus_128000 : List ℕ
minus_128000 = 3072 ∷ 65534 ∷ []

abbrev plus_128000 : List ℕ
plus_128000 = 62464 ∷ 1 ∷ []

values : (value minus_128000 ≡ negsuc 127999) × (value plus_128000 ≡ pos 128000)
unfolding value ◌+ℤ◌ ◌*ℤ◌ signed16
values = (refl, refl)

sums :
    ((add_words minus_128000 plus_128000).fixnum ≡ some (fix (pos 0)))
    × (take 2 (add_words (20000 ∷ []) (20000 ∷ [])).body ≡ 40000 ∷ 0 ∷ [])
unfolding add_words word_is_negative signed16 fix to_word
sums = (refl, refl)

add_words-StandsFor_example :
    let f = add_words minus_128000 plus_128000 in
    StandsFor f.fixnum (take f.len f.body) (value minus_128000 +ℤ value plus_128000)
add_words-StandsFor_example =
    add_words-StandsFor minus_128000 plus_128000 tt tt (omega arith) (omega arith) (omega arith)
      (omega arith)

minimal : IsMinimal minus_128000 × IsMinimal plus_128000
unfolding word_is_negative
minimal = (refl, refl)

cmp_words_example :
    cmp_words minus_128000 plus_128000 ≡ order_val (value minus_128000) (value plus_128000)
cmp_words_example =
    cmp_words_lem minus_128000 plus_128000 (omega arith) (omega arith) minimal.0 minimal.1

equal_words_example :
    (equal_words plus_128000 plus_128000 ≡ tru) ↔ (value plus_128000 ≡ value plus_128000)
equal_words_example =
    equal_words_iff plus_128000 plus_128000 (omega arith) (omega arith) minimal.1 minimal.1
