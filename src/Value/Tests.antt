-- ===== src/Value/Tests.antt =====
-- Tests of vm_mem.c on immediates, and the theorems at concrete values.
use lilyvm.Base.{
  ◌+◌, ◌≡◌, ◌≢◌, ◌↔◌, refl, arith, true, b2n, pos, negsuc, ◌-ℤ◌, shr_ℤ, signed16, to_word,
}
use lilyvm.Value.{
  fix, int, pcnum, pcnum_to_word, char, ord, is_fixnum, is_pcnum, is_char, is_special,
}
use lilyvm.Value.{is_allocated, is_in_fix_range}
use lilyvm.Value.{positivefixnum_unsafe_dec}
use lilyvm.Value.Tags.{one_kind}
use lilyvm.Value.Fixnum.{is_in_fix_range-fix_iff}
use lilyvm.Value.Fixnum.{positivefixnum_unsafe_dec-is_char, fix_codes}

-- TEST(immediates)
immediates :
    (is_pcnum (pcnum 243) ≡ true)
    × (pcnum_to_word (pcnum 2432) ≡ 2432)
    × (is_char (char 1) ≡ true)
    × (ord (char 65) ≡ 65)
    × (int (fix (negsuc 1)) ≡ negsuc 1)
    × (fix (negsuc 0) ≡ 0xffff)
unfolding is_pcnum pcnum pcnum_to_word is_char char ord int fix shr_ℤ signed16 to_word
immediates = (refl, refl, refl, refl, refl, refl)

one_kind_example :
    b2n (is_allocated 24)
      + b2n (is_fixnum 24)
      + b2n (is_pcnum 24)
      + b2n (is_char 24)
      + b2n (is_special 24)
    ≡ 1
one_kind_example = one_kind 24

is_in_fix_range-fix_example :
    (is_in_fix_range (pos 5000) ≡ true) ↔ (int (fix (pos 5000)) ≡ pos 5000)
is_in_fix_range-fix_example = is_in_fix_range-fix_iff (pos 5000)

is_fixnum_code : is_fixnum 0x7fff ≡ true
unfolding is_fixnum
is_fixnum_code = refl

fix_codes_example : (fix (int 0x7fff) ≡ 0x7fff) × (int (fix (negsuc 4095)) ≡ negsuc 4095)
fix_codes_example = fix_codes 0x7fff (negsuc 4095) (omega arith) is_fixnum_code (omega arith)

positivefixnum_unsafe_dec-is_char_example :
    (is_char (positivefixnum_unsafe_dec (fix (pos 7))) ≡ true)
    × (positivefixnum_unsafe_dec (fix (pos 7)) ≢ fix (pos 7 -ℤ pos 1))
positivefixnum_unsafe_dec-is_char_example = positivefixnum_unsafe_dec-is_char (pos 7) (omega arith)
