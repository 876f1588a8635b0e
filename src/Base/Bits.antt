-- ===== src/Base/Bits.antt =====
-- `&` with a mask and `|` of disjoint fields, as arithmetic: the bit operations of the sources
-- compute at numerals, and these are their laws at variables.
use Prim.Native.Nat.{ℕ, zero, suc, ◌+◌, ◌-◌, ◌*◌, ◌/◌, ◌%◌, ◌≤◌, ◌<◌, min, max}
use Prim.Native.Nat.{bit_and, bit_or, digits, bit_and-bitwise, bit_or-bitwise}
use mathlib.Core.Path.{◌≡◌, refl, ap, ◌∙◌}
use native.Mathlib.Omega.{arith}

-- One more round than the first number needs changes nothing.
module _ (other : ℕ → ℕ) (digit : ℕ → ℕ → ℕ) where
  abbrev rounds : ℕ → ℕ → ℕ → ℕ
  rounds k x y = digits other digit k x y

  round_spare : (k x y : ℕ) → x ≤ k → rounds (suc k) x y ≡ rounds k x y
  round_spare zero zero y h = refl
  round_spare zero (suc x) y h = elim h [ ]
  round_spare (suc k) zero y h = refl
  round_spare (suc k) (suc x) y h = rw (round_spare k (suc x / 2) (y / 2) (omega arith))

  rounds_spare : (j k m x y : ℕ) → m ≡ j + k → x ≤ k → rounds m x y ≡ rounds k x y
  rounds_spare zero k m x y e h = ap (λ r. rounds r x y) (omega arith)
  rounds_spare (suc j) k zero x y e h = absurd (omega arith)
  rounds_spare (suc j) k (suc m) x y e h =
      round_spare m x y (omega arith) ∙ rounds_spare j k m x y (omega arith) h

  rounds_enough : (k x y : ℕ) → x ≤ k → rounds k x y ≡ rounds x x y
  rounds_enough k x y h = rounds_spare (k - x) x k x y (omega arith) (omega arith)

pub bit_or_step : (x y : ℕ) → bit_or x y ≡ max (x % 2) (y % 2) + 2 * bit_or (x / 2) (y / 2)
bit_or_step zero y = omega (arith, bit_or-bitwise 0 y, bit_or-bitwise 0 (y / 2))
bit_or_step (suc x) y = omega (
  arith,
  bit_or-bitwise (suc x) y,
  bit_or-bitwise (suc x / 2) (y / 2),
  rounds_enough (λ b. b) max x (suc x / 2) (y / 2) (omega arith),
)

pub bit_and_step : (x y : ℕ) → bit_and x y ≡ min (x % 2) (y % 2) + 2 * bit_and (x / 2) (y / 2)
bit_and_step zero y = omega (arith, bit_and-bitwise 0 y, bit_and-bitwise 0 (y / 2))
bit_and_step (suc x) y = omega (
  arith,
  bit_and-bitwise (suc x) y,
  bit_and-bitwise (suc x / 2) (y / 2),
  rounds_enough (λ _. zero) min x (suc x / 2) (y / 2) (omega arith),
)

-- The laws for the mask 0, for all numbers below a bound.
zero_laws : (bound x : ℕ) → x < bound → (bit_and x 0 ≡ 0) × (bit_or x 0 ≡ x)
zero_laws zero x h = elim h [ ]
zero_laws (suc bound) zero h = (refl, refl)
zero_laws (suc bound) (suc x) h =
    let halves = zero_laws bound (suc x / 2) (omega arith) in
    (
      omega (arith, bit_and_step (suc x) 0, halves.0),
      omega (arith, bit_or_step (suc x) 0, halves.1),
    )

pub bit_and-zero : (x : ℕ) → bit_and x 0 ≡ 0
bit_and-zero x = (zero_laws (suc x) x (omega arith)).0

pub bit_or-zero : (x : ℕ) → bit_or x 0 ≡ x
bit_or-zero x = (zero_laws (suc x) x (omega arith)).1

-- The three tag bits.
pub bit_and_seven : (a : ℕ) → bit_and a 7 ≡ a % 8
bit_and_seven a = omega (
  arith,
  bit_and_step a 7,
  bit_and_step (a / 2) 3,
  bit_and_step (a / 2 / 2) 1,
  bit_and-zero (a / 2 / 2 / 2),
)

pub seven_bit_and : (a : ℕ) → bit_and 7 a ≡ a % 8
seven_bit_and a = omega (
  arith,
  bit_and_step 7 a,
  bit_and_step 3 (a / 2),
  bit_and_step 1 (a / 2 / 2),
  bit_and-bitwise 0 (a / 2 / 2 / 2),
)

-- The immediate bit.
pub bit_and_one : (a : ℕ) → bit_and a 1 ≡ a % 2
bit_and_one a = omega (arith, bit_and_step a 1, bit_and-zero (a / 2))

-- Two operands under the tag mask: all three bits set in the result means all set in both.
pub bit_and_seven_both : (a b : ℕ) → bit_and (bit_and 7 a) b ≡ 7 → (a % 8 ≡ 7) × (b % 8 ≡ 7)
bit_and_seven_both a b h = ground (
  arith,
  bit_and_step (bit_and 7 a) b,
  bit_and_step (bit_and 3 (a / 2)) (b / 2),
  bit_and_step (bit_and 1 (a / 2 / 2)) (b / 2 / 2),
  bit_and_step 7 a,
  bit_and_step 3 (a / 2),
  bit_and_step 1 (a / 2 / 2),
)

bit_and_double : (a m : ℕ) → bit_and a (2 * m) ≡ bit_and (a / 2) m * 2
bit_and_double a m = bit_and_step a (2 * m) ∙ rw (double_half m, double_odd m) (omega arith)
  where
    double_half : (m : ℕ) → 2 * m / 2 ≡ m
    double_half m = omega arith

    double_odd : (m : ℕ) → 2 * m % 2 ≡ 0
    double_odd m = omega arith

-- The bit of a binary type.
pub bit_and_128 : (a : ℕ) → bit_and a 128 ≡ a / 128 % 2 * 128
bit_and_128 a = omega (
  arith,
  bit_and_double a 64,
  bit_and_double (a / 2) 32,
  bit_and_double (a / 2 / 2) 16,
  bit_and_double (a / 2 / 2 / 2) 8,
  bit_and_double (a / 2 / 2 / 2 / 2) 4,
  bit_and_double (a / 2 / 2 / 2 / 2 / 2) 2,
  bit_and_double (a / 2 / 2 / 2 / 2 / 2 / 2) 1,
  bit_and_one (a / 2 / 2 / 2 / 2 / 2 / 2 / 2),
)

bit_and_256_times : (a m : ℕ) → bit_and a (256 * m) ≡ bit_and (a / 256) m * 256
bit_and_256_times a m = ground (
  arith,
  bit_and_double a (128 * m),
  bit_and_double (a / 2) (64 * m),
  bit_and_double (a / 2 / 2) (32 * m),
  bit_and_double (a / 2 / 2 / 2) (16 * m),
  bit_and_double (a / 2 / 2 / 2 / 2) (8 * m),
  bit_and_double (a / 2 / 2 / 2 / 2 / 2) (4 * m),
  bit_and_double (a / 2 / 2 / 2 / 2 / 2 / 2) (2 * m),
  bit_and_double (a / 2 / 2 / 2 / 2 / 2 / 2 / 2) m,
)

-- The sign bit of a word.
pub bit_and_sign : (a : ℕ) → bit_and a 32768 ≡ a / 32768 % 2 * 32768
bit_and_sign a = omega (arith, bit_and_256_times a 128, bit_and_128 (a / 256))

-- `x << k | r` is a sum, for the three tag bits.
pub bit_or_tag : (x t : ℕ) → t < 8 → bit_or (x * 8) t ≡ x * 8 + t
bit_or_tag x t h = ground (
  arith,
  bit_or_step (x * 8) t,
  bit_or_step (x * 4) (t / 2),
  bit_or_step (x * 2) (t / 2 / 2),
  bit_or-zero x,
)

bit_and_odd : (a m : ℕ) → bit_and a (2 * m + 1) ≡ bit_and (a / 2) m * 2 + a % 2
bit_and_odd a m = bit_and_step a (2 * m + 1) ∙ rw (odd_half m, odd_odd m) (omega arith)
  where
    odd_half : (m : ℕ) → (2 * m + 1) / 2 ≡ m
    odd_half m = omega arith

    odd_odd : (m : ℕ) → (2 * m + 1) % 2 ≡ 1
    odd_odd m = omega arith

bit_and_byte_times : (a m : ℕ) → bit_and a (256 * m + 255) ≡ bit_and (a / 256) m * 256 + a % 256
bit_and_byte_times a m = ground (
  arith,
  bit_and_odd a (128 * m + 127),
  bit_and_odd (a / 2) (64 * m + 63),
  bit_and_odd (a / 2 / 2) (32 * m + 31),
  bit_and_odd (a / 2 / 2 / 2) (16 * m + 15),
  bit_and_odd (a / 2 / 2 / 2 / 2) (8 * m + 7),
  bit_and_odd (a / 2 / 2 / 2 / 2 / 2) (4 * m + 3),
  bit_and_odd (a / 2 / 2 / 2 / 2 / 2 / 2) (2 * m + 1),
  bit_and_odd (a / 2 / 2 / 2 / 2 / 2 / 2 / 2) (1 * m + 0),
)

-- A byte.
pub bit_and_255 : (a : ℕ) → bit_and a 255 ≡ a % 256
bit_and_255 a = omega (arith, bit_and_byte_times a 0, bit_and-zero (a / 256))

-- A word.
pub bit_and_65535 : (a : ℕ) → bit_and a 65535 ≡ a % 65536
bit_and_65535 a = omega (arith, bit_and_byte_times a 255, bit_and_255 (a / 256))

-- What is left of a word after the tag.
pub bit_and_8191 : (a : ℕ) → bit_and a 8191 ≡ a % 8192
bit_and_8191 a = omega (
  arith,
  bit_and_byte_times a 31,
  bit_and_odd (a / 256) 15,
  bit_and_odd (a / 256 / 2) 7,
  bit_and_seven (a / 256 / 2 / 2),
)

-- A head: the length above the type byte.
pub bit_or_byte : (x t : ℕ) → t < 256 → bit_or (x * 256) t ≡ x * 256 + t
bit_or_byte x t h = ground (
  arith,
  bit_or_step (x * 256) t,
  bit_or_step (x * 128) (t / 2),
  bit_or_step (x * 64) (t / 2 / 2),
  bit_or_step (x * 32) (t / 2 / 2 / 2),
  bit_or_step (x * 16) (t / 2 / 2 / 2 / 2),
  bit_or_step (x * 8) (t / 2 / 2 / 2 / 2 / 2),
  bit_or_step (x * 4) (t / 2 / 2 / 2 / 2 / 2 / 2),
  bit_or_step (x * 2) (t / 2 / 2 / 2 / 2 / 2 / 2 / 2),
  bit_or-zero x,
)
