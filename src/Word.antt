-- ===== src/Word.antt =====
-- Words and their parts: the macros at the top of vm_mem.h, over vm_mem_config.h's 16-bit `word_t`
-- and 32-bit `dword_t`. A word is a number below 2 ^ 16.
use lilyvm.Base.{ℕ, ◌/◌, ◌%◌, ◌^◌, ◌<◌, bit_and, ◌≡◌, arith, Bool, true, false}
use lilyvm.Base.{leb, ◌==◌, if◌then◌else◌}
use lilyvm.Base.Bits.{bit_and_sign, bit_and_255}

-- `DWORD_LO`
abbrev pub dword_lo : ℕ → ℕ
dword_lo x = x % 2 ^ 16

-- `DWORD_HI`
abbrev pub dword_hi : ℕ → ℕ
dword_hi x = x / 2 ^ 16 % 2 ^ 16

abbrev pub word_max : ℕ
word_max = 65535

abbrev pub word_sign_mask : ℕ
word_sign_mask = 2 ^ 15

-- `WORD_IS_NEGATIVE`, as a Boolean.
unfoldable pub word_is_negative : ℕ → Bool
word_is_negative x = if bit_and x word_sign_mask == 0 then false else true

-- `WORD_BYTE0`, `WORD_BYTE1`
unfoldable pub word_byte0 : ℕ → ℕ
word_byte0 w = bit_and w 255

abbrev pub word_byte1 : ℕ → ℕ
word_byte1 w = w / 2 ^ 8

pub word_is_negative_lem : (w : ℕ) → w < 2 ^ 16 → word_is_negative w ≡ leb (2 ^ 15) w
unfolding word_is_negative
word_is_negative_lem w h = ground (arith, bit_and_sign w)

pub word_byte0_lem : (w : ℕ) → word_byte0 w ≡ w % 256
unfolding word_byte0
word_byte0_lem w = bit_and_255 w
