-- ===== src/Value.antt =====
-- Tagged values: the immediates of vm_mem.h. A `val` is a word; an even one is the byte offset of
-- an allocated object, an odd one carries its kind in the three low bits.
pub mod Tags
pub mod Fixnum
mod Tests
use lilyvm.Base.{ℕ, ◌+◌, ◌-◌, ◌*◌, ◌/◌, ◌%◌, ◌^◌, bit_and, bit_or, Bool, true, false, not, ◌&&◌}
use lilyvm.Base.{◌==◌, if◌then◌else◌, ℤ, pos, negsuc, leb_ℤ, to_word, signed16, shr_ℤ}
use lilyvm.Word.{word_max, word_is_negative}

-- `IMMEDIATE_BIT_MASK`, the `IMMEDIATE_KIND_*` and `IMMEDIATE_MASK`.
abbrev pub immediate_bit_mask : ℕ
immediate_bit_mask = 1

abbrev pub immediate_kind_mask : ℕ
immediate_kind_mask = 3 * 2

abbrev pub immediate_kind_fixnum : ℕ
immediate_kind_fixnum = 3 * 2

abbrev pub immediate_kind_pcnum : ℕ
immediate_kind_pcnum = 1 * 2

abbrev pub immediate_kind_char : ℕ
immediate_kind_char = 2 * 2

abbrev pub immediate_kind_special : ℕ
immediate_kind_special = 0 * 2

abbrev pub immediate_mask : ℕ
immediate_mask = bit_or immediate_kind_mask 1

abbrev pub special : ℕ → ℕ
special n = bit_or (bit_or immediate_kind_special immediate_bit_mask) (n * 2 ^ 3)

abbrev pub fal : ℕ
fal = special 0

abbrev pub tru : ℕ
tru = special 1

abbrev pub nil : ℕ
nil = special 2

abbrev pub void : ℕ
void = special 3

abbrev pub undef : ℕ
undef = special 4

abbrev pub uninitialized : ℕ
uninitialized = special 5

-- `LT`, `EQ`, `GT`, the results of a comparison.
abbrev pub lt : ℕ
lt = special 8

abbrev pub eq : ℕ
eq = special 9

abbrev pub gt : ℕ
gt = special 10

abbrev pub fixnum_is_negative : ℕ → Bool
fixnum_is_negative x = word_is_negative x

abbrev pub fixnum_from_int_mask : ℕ
fixnum_from_int_mask = 8191

-- `FIX`: a signed number, shifted above the tag and cut to a word.
unfoldable pub fix : ℤ → ℕ
fix n =
    bit_and (bit_or (bit_or (to_word n * 2 ^ 3) immediate_kind_fixnum) immediate_bit_mask) word_max

-- `PCNUM`
unfoldable pub pcnum : ℕ → ℕ
pcnum n =
    bit_and (bit_or (bit_or (n % 2 ^ 16 * 2 ^ 3) immediate_kind_pcnum) immediate_bit_mask) word_max

-- `INT`: an arithmetic shift of the signed word.
unfoldable pub int : ℕ → ℤ
int v = shr_ℤ (signed16 v) 3

unfoldable pub pcnum_to_word : ℕ → ℕ
pcnum_to_word v = bit_and (v / 2 ^ 3) fixnum_from_int_mask

-- `CHAR`, as it is stored into a `val`; `ORD`.
unfoldable pub char : ℕ → ℕ
char x = bit_or (bit_or (x % 2 ^ 16 * 2 ^ 3) immediate_kind_char) immediate_bit_mask % 2 ^ 16

unfoldable pub ord : ℕ → ℕ
ord x = x / 2 ^ 3

abbrev pub bool : Bool → ℕ
bool x = if x then tru else fal

abbrev pub is_null : ℕ → Bool
is_null x = x == nil

abbrev pub is_false : ℕ → Bool
is_false x = x == fal

abbrev pub is_trueish : ℕ → Bool
is_trueish x = not (is_false x)

abbrev pub is_void : ℕ → Bool
is_void x = x == void

abbrev pub is_undef : ℕ → Bool
is_undef x = x == undef

abbrev pub is_uninitialized : ℕ → Bool
is_uninitialized x = x == uninitialized

-- A test for one kind of immediate.
abbrev has_kind : ℕ → ℕ → Bool
has_kind kind x =
    bit_and x (bit_or immediate_kind_mask immediate_bit_mask) == bit_or kind immediate_bit_mask

unfoldable pub is_fixnum : ℕ → Bool
is_fixnum x = has_kind immediate_kind_fixnum x

-- All tag bits of a fixnum are set, so that one `&` tests two values.
unfoldable pub are_fixnums_2 : ℕ → ℕ → Bool
are_fixnums_2 x y =
    bit_and (bit_and (bit_or immediate_kind_mask immediate_bit_mask) x) y
    == bit_or immediate_kind_fixnum immediate_bit_mask

unfoldable pub is_pcnum : ℕ → Bool
is_pcnum x = has_kind immediate_kind_pcnum x

unfoldable pub is_char : ℕ → Bool
is_char x = has_kind immediate_kind_char x

unfoldable pub is_special : ℕ → Bool
is_special x = has_kind immediate_kind_special x

unfoldable pub is_immediate : ℕ → Bool
is_immediate x = not (bit_and x immediate_bit_mask == 0)

unfoldable pub is_allocated : ℕ → Bool
unfolding is_immediate
is_allocated x = not (is_immediate x)

-- `FIXNUM_MAXINT`, `FIXNUM_MININT`, `IS_IN_FIX_RANGE`
abbrev pub fixnum_maxint : ℤ
fixnum_maxint = pos 4095

abbrev pub fixnum_minint : ℤ
fixnum_minint = negsuc 4095

abbrev pub is_in_fix_range : ℤ → Bool
is_in_fix_range x = leb_ℤ x fixnum_maxint && leb_ℤ fixnum_minint x

-- `POSITIVEFIXNUM_UNSAFE_DEC`
unfoldable pub positivefixnum_unsafe_dec : ℕ → ℕ
positivefixnum_unsafe_dec n = (n + 2 ^ 16 - 2) % 2 ^ 16
