-- ===== src/Value/Tags.antt =====
-- The tag bits of vm_mem.h: which kind a word has.
use lilyvm.Base.{ℕ, ◌+◌, ◌*◌, ◌%◌, bit_and, bit_or, ◌≡◌, arith, ◌&&◌}
use lilyvm.Base.{◌==◌, b2n, ℤ, to_word}
use lilyvm.Base.Bits.{
  bit_and_seven, bit_and_one, bit_and_seven_both, bit_and_65535, bit_or_step, bit_or_tag,
}
use lilyvm.Base.Bits.{bit_or-zero, seven_bit_and}
use lilyvm.Value.{is_fixnum, is_pcnum, is_char, is_special, is_allocated, are_fixnums_2}
use lilyvm.Value.{fix, pcnum, char}

pub is_fixnum_lem : (x : ℕ) → is_fixnum x ≡ (x % 8 == 7)
unfolding is_fixnum
is_fixnum_lem x = ground (arith, bit_and_seven x)

pub is_pcnum_lem : (x : ℕ) → is_pcnum x ≡ (x % 8 == 3)
unfolding is_pcnum
is_pcnum_lem x = ground (arith, bit_and_seven x)

pub is_char_lem : (x : ℕ) → is_char x ≡ (x % 8 == 5)
unfolding is_char
is_char_lem x = ground (arith, bit_and_seven x)

pub is_special_lem : (x : ℕ) → is_special x ≡ (x % 8 == 1)
unfolding is_special
is_special_lem x = ground (arith, bit_and_seven x)

pub is_allocated_lem : (x : ℕ) → is_allocated x ≡ (x % 2 == 0)
unfolding is_allocated
is_allocated_lem x = ground (arith, bit_and_one x)

-- A tag is set into a word whose three low bits are free.
module _ (x : ℕ) where
  pub tag_fixnum : bit_or (bit_or (x * 8) 6) 1 ≡ x * 8 + 7
  tag_fixnum = ground (arith, bit_or_tag x 6, bit_or_step (x * 8 + 6) 1, bit_or-zero (x * 4 + 3))

  pub tag_pcnum : bit_or (bit_or (x * 8) 2) 1 ≡ x * 8 + 3
  tag_pcnum = ground (arith, bit_or_tag x 2, bit_or_step (x * 8 + 2) 1, bit_or-zero (x * 4 + 1))

  pub tag_char : bit_or (bit_or (x * 8) 4) 1 ≡ x * 8 + 5
  tag_char = ground (arith, bit_or_tag x 4, bit_or_step (x * 8 + 4) 1, bit_or-zero (x * 4 + 2))

pub fix_lem : (n : ℤ) → fix n ≡ (to_word n * 8 + 7) % 65536
unfolding fix
fix_lem n = rw (tag_fixnum (to_word n), bit_and_65535 (to_word n * 8 + 7))

pub pcnum_lem : (n : ℕ) → pcnum n ≡ (n % 65536 * 8 + 3) % 65536
unfolding pcnum
pcnum_lem n = rw (tag_pcnum (n % 65536), bit_and_65535 (n % 65536 * 8 + 3))

pub char_lem : (n : ℕ) → char n ≡ (n % 65536 * 8 + 5) % 65536
unfolding char
char_lem n = rw (tag_char (n % 65536))

both_sevens : (x y : ℕ) → x % 8 ≡ 7 → y % 8 ≡ 7 → bit_and (bit_and 7 x) y ≡ 7
both_sevens x y p q = rw (seven_bit_and x, p, seven_bit_and y, q)

-- One `&` of both values tests exactly that both are fixnums.
pub are_fixnums_2_lem : (x y : ℕ) → are_fixnums_2 x y ≡ (is_fixnum x && is_fixnum y)
unfolding are_fixnums_2
are_fixnums_2_lem x y =
    ground (arith, is_fixnum_lem x, is_fixnum_lem y, bit_and_seven_both x y, both_sevens x y)

-- Every value has exactly one kind: of the tests for an allocated object, a fixnum, a program
-- counter, a character and a special value, one holds.
pub one_kind :
    (x : ℕ)
    → b2n (is_allocated x)
        + b2n (is_fixnum x)
        + b2n (is_pcnum x)
        + b2n (is_char x)
        + b2n (is_special x)
      ≡ 1
one_kind x =
    ground
      (arith, is_allocated_lem x, is_fixnum_lem x, is_pcnum_lem x, is_char_lem x, is_special_lem x)
