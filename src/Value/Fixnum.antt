-- ===== src/Value/Fixnum.antt =====
-- The codings of numbers, program counters and characters as immediates of vm_mem.h.
use lilyvm.Base.{ℕ, ◌+◌, ◌-◌, ◌/◌, ◌%◌, ◌^◌, ◌<◌, ◌≡◌, ◌↔◌, ◌≢◌, arith, true}
use lilyvm.Base.{sym, ap, ◌∙◌, ℤ, pos, negsuc, ◌-ℤ◌, ◌≤ℤ◌, to_word, signed16, shr_ℤ, ltb_ℤ}
use mathlib.Core.Path.{subst}
use lilyvm.Base.Bits.{bit_and_8191}
use lilyvm.Word.{word_is_negative_lem}
use lilyvm.Value.{fix, int, pcnum, pcnum_to_word, char, ord, is_fixnum, is_char, is_pcnum}
use lilyvm.Value.{is_in_fix_range, fixnum_is_negative, positivefixnum_unsafe_dec}
use lilyvm.Value.Tags.{fix_lem, pcnum_lem, char_lem, is_fixnum_lem, is_char_lem, is_pcnum_lem}

-- The range, as an order.
abbrev pub InFixRange : ℤ → Type 0
InFixRange n = (negsuc 4095 ≤ℤ n) × (n ≤ℤ pos 4095)

pub is_in_fix_range_iff : (n : ℤ) → (is_in_fix_range n ≡ true) ↔ InFixRange n
is_in_fix_range_iff n = ground arith

pub fix-lt : (n : ℤ) → fix n < 2 ^ 16
fix-lt n = omega (arith, fix_lem n)

pub is_fixnum-fix : (n : ℤ) → is_fixnum (fix n) ≡ true
is_fixnum-fix n = ground (arith, is_fixnum_lem (fix n), fix_lem n)

pub int-fix : (n : ℤ) → InFixRange n → int (fix n) ≡ n
unfolding int signed16 shr_ℤ to_word
int-fix (pos n) h = ground (arith, fix_lem (pos n))
int-fix (negsuc n) h = ground (arith, fix_lem (negsuc n))

pub int-InFixRange : (v : ℕ) → v < 2 ^ 16 → InFixRange (int v)
unfolding int signed16 shr_ℤ
int-InFixRange v h = ground arith

pub fix-int : (v : ℕ) → v < 2 ^ 16 → is_fixnum v ≡ true → fix (int v) ≡ v
unfolding int signed16 shr_ℤ to_word
fix-int v h f = ground (arith, is_fixnum_lem v, fix_lem (int v))

-- `IS_IN_FIX_RANGE` decides exactly the numbers that the fixnum coding gives back.
pub is_in_fix_range-fix_iff : (n : ℤ) → (is_in_fix_range n ≡ true) ↔ (int (fix n) ≡ n)
is_in_fix_range-fix_iff n = (
  λ h. int-fix n ((is_in_fix_range_iff n).0 h),
  λ e. (is_in_fix_range_iff n).1 (subst InFixRange e (int-InFixRange (fix n) (fix-lt n))),
)

-- The sign test reads the sign of the number.
pub fixnum_is_negative-fix : (n : ℤ) → InFixRange n → fixnum_is_negative (fix n) ≡ ltb_ℤ n (pos 0)
unfolding to_word
fixnum_is_negative-fix (pos n) h =
    ground (arith, word_is_negative_lem (fix (pos n)), fix_lem (pos n))
fixnum_is_negative-fix (negsuc n) h =
    ground (arith, word_is_negative_lem (fix (negsuc n)), fix_lem (negsuc n))

-- Equal codes are equal numbers.
pub fix-injective : (m n : ℤ) → InFixRange m → InFixRange n → fix m ≡ fix n → m ≡ n
fix-injective m n hm hn e = sym (int-fix m hm) ∙ ap int e ∙ int-fix n hn

-- A program counter comes back modulo 2 ^ 13: the value holds its 13 low bits.
pub pcnum_to_word-pcnum : (n : ℕ) → (pcnum_to_word (pcnum n) ≡ n % 2 ^ 13)
unfolding pcnum_to_word
pcnum_to_word-pcnum n = omega (arith, pcnum_lem n, bit_and_8191 (pcnum n / 8))

pub is_pcnum-pcnum : (n : ℕ) → is_pcnum (pcnum n) ≡ true
is_pcnum-pcnum n = ground (arith, is_pcnum_lem (pcnum n), pcnum_lem n)

pub pcnum-lt : (n : ℕ) → pcnum n < 2 ^ 16
pcnum-lt n = omega (arith, pcnum_lem n)

-- A character code of up to 13 bits comes back, and its value is tagged as a character.
pub ord-char : (n : ℕ) → n < 2 ^ 13 → (ord (char n) ≡ n) × (is_char (char n) ≡ true)
unfolding ord
ord-char n h = (omega (arith, char_lem n), ground (arith, is_char_lem (char n), char_lem n))

-- `POSITIVEFIXNUM_UNSAFE_DEC` subtracts 2 from a code whose unit is 8: of every fixnum it makes a
-- character, and so never the fixnum of the number below.
pub positivefixnum_unsafe_dec-is_char :
    (n : ℤ)
    → InFixRange n
    → (is_char (positivefixnum_unsafe_dec (fix n)) ≡ true)
      × (positivefixnum_unsafe_dec (fix n) ≢ fix (n -ℤ pos 1))
unfolding positivefixnum_unsafe_dec
positivefixnum_unsafe_dec-is_char n h = (
  ground (arith, is_char_lem ((fix n + 65536 - 2) % 65536), fix_lem n),
  ground (arith, fix_lem n, fix_lem (n -ℤ pos 1)),
)

-- The coding and decoding of fixnums are inverse: every word tagged as a fixnum comes back from its
-- number, and every number of the fixnum range from its code.
pub fix_codes :
    (v : ℕ) (n : ℤ)
    → v < 2 ^ 16
    → is_fixnum v ≡ true
    → InFixRange n
    → (fix (int v) ≡ v) × (int (fix n) ≡ n)
fix_codes v n h f r = (fix-int v h f, int-fix n r)
