-- ===== src/Command/Number.antt =====
-- The text of a number as `parse_uint16` reads it.
use lilyvm.Base.{
  ℕ, zero, suc, ◌+◌, ◌-◌, ◌*◌, ◌/◌, ◌%◌, ◌^◌, ◌≤◌, ◌<◌, ◌≡◌, refl, sym, ap, ◌∙◌, ◌↔◌, arith,
  Bool-cases, inl, inr,
}
use lilyvm.Base.{lt→ltb}
use lilyvm.Base.{
  [], ◌∷◌, ◌++◌, length, length-append, Option, none, some, true, false, ltb, leb, ◌==◌, ℤ, pos,
  negsuc,
}
use lilyvm.Command.{
  Text, same_text, is_digit, is_space, digits_value, signed_value, skip_spaces, atoi, decimal,
  print_uint16, parsed, parse_from, if_printed, parse_uint16,
}

pub same_text_refl : (a : Text) → same_text a a ≡ true
unfolding same_text
same_text_refl [] = refl
same_text_refl (c ∷ a) = let rest = same_text_refl a in ground arith

pub same_text-eq : (a b : Text) → same_text a b ≡ true → a ≡ b
unfolding same_text
same_text-eq [] [] h = refl
same_text-eq [] (d ∷ b) h = cc
same_text-eq (c ∷ a) [] h = cc
same_text-eq (c ∷ a) (d ∷ b) h =
    let first : c ≡ d = ground arith in
    let rest : same_text a b ≡ true = ground arith in
    ap (λ x. x ∷ a) first ∙ ap (λ x. d ∷ x) (same_text-eq a b rest)

abbrev AreDigits : Text → Type 0
AreDigits [] = Unit {0}
AreDigits (c ∷ cs) = (is_digit c ≡ true) × AreDigits cs

append-AreDigits : (a b : Text) → AreDigits a → AreDigits b → AreDigits (a ++ b)
append-AreDigits [] b h k = k
append-AreDigits (c ∷ a) b h k = (h.0, append-AreDigits a b h.1 k)

digits_value-append :
    (acc : ℕ) (a : Text) (d : ℕ)
    → AreDigits a
    → is_digit d ≡ true
    → digits_value acc (a ++ d ∷ []) ≡ digits_value acc a * 10 + (d - 48)
unfolding digits_value
digits_value-append acc [] d h k = rw k refl
digits_value-append acc (c ∷ a) d h k = rw h.0 (digits_value-append (acc * 10 + (c - 48)) a d h.1 k)

digit_lem : (n : ℕ) → n < 10 → is_digit (48 + n) ≡ true
digit_lem n h = ground arith

decimal-AreDigits : (fuel n : ℕ) → AreDigits (decimal fuel n)
unfolding decimal
decimal-AreDigits zero n = tt
decimal-AreDigits (suc fuel) n = elim (Bool-cases (ltb n 10)) [
  | inl h ↦ rw h (digit_lem n (ground arith), tt)
  | inr h ↦ rw h (
      append-AreDigits (decimal fuel (n / 10)) ((48 + n % 10) ∷ [])
        (decimal-AreDigits fuel (n / 10)) (digit_lem (n % 10) (omega arith), tt))
]

pow10 : ℕ → ℕ
pow10 zero = 1
pow10 (suc fuel) = 10 * pow10 fuel

-- The digits give the number back, if there is room for them.
digits_value-decimal : (fuel n : ℕ) → n < pow10 fuel → digits_value 0 (decimal fuel n) ≡ n
unfolding decimal digits_value pow10
digits_value-decimal zero n h = omega arith
digits_value-decimal (suc fuel) n h = elim (Bool-cases (ltb n 10)) [
  | inl s ↦ rw (s, digit_lem n (ground arith)) (omega arith)
  | inr s ↦
      let above = digits_value-decimal fuel (n / 10) (omega arith) in
      rw s (
        digits_value-append 0 (decimal fuel (n / 10)) (48 + n % 10)
          (decimal-AreDigits fuel (n / 10)) (digit_lem (n % 10) (omega arith))
        ∙ omega (arith, above))
]

length-decimal : (fuel n : ℕ) → length (decimal fuel n) ≤ fuel
unfolding decimal
length-decimal zero n = omega arith
length-decimal (suc fuel) n = elim (Bool-cases (ltb n 10)) [
  | inl s ↦ rw s (omega arith)
  | inr s ↦ rw s (
      omega (
        arith,
        length-append (decimal fuel (n / 10)) ((48 + n % 10) ∷ []),
        length-decimal fuel (n / 10),
      ))
]

-- A text of digits is read without spaces and without a sign.
atoi-digits :
    (a : Text) → AreDigits a → digits_value 0 a < 2 ^ 31 → atoi a ≡ some (pos (digits_value 0 a))
unfolding atoi signed_value skip_spaces
atoi-digits [] h k = refl
atoi-digits (c ∷ cs) h k =
    let no_space : is_space c ≡ false = ground arith in
    let no_minus : (c == 45) ≡ false = ground arith in
    let no_plus : (c == 43) ≡ false = ground arith in
    rw (no_space, no_minus, no_plus, lt→ltb (digits_value 0 (c ∷ cs)) (2 ^ 31) k) refl

print_uint16-decimal : (n : ℕ) → print_uint16 n ≡ decimal 5 n
unfolding print_uint16
print_uint16-decimal n = refl

atoi-print_uint16 : (n : ℕ) → n < 2 ^ 16 → atoi (print_uint16 n) ≡ some (pos n)
unfolding pow10
atoi-print_uint16 n h =
    let back = digits_value-decimal 5 n (omega arith) in
    rw (print_uint16-decimal n) (
      atoi-digits (decimal 5 n) (decimal-AreDigits 5 n) (omega (arith, back))
      ∙ ap (λ k. some (pos k)) back)

length-print_uint16 : (n : ℕ) → length (print_uint16 n) < 100
length-print_uint16 n = rw (print_uint16-decimal n) (omega (arith, length-decimal 5 n))

parsed-injective : {A : Type 0} {a b : A} → parsed a ≡ parsed b → a ≡ b
parsed-injective h = cc h

if_printed-same : (res : ℕ) (buf : Text) → length buf < 100 → if_printed res buf buf ≡ some res
unfolding if_printed
if_printed-same res buf h =
    let fits : leb 100 (length buf) ≡ false = ground arith in rw (fits, same_text_refl buf) refl

if_printed-some :
    (res : ℕ) (buf str : Text) (n : ℕ) → if_printed res buf str ≡ some n → (res ≡ n) × (buf ≡ str)
unfolding if_printed
if_printed-some res buf str n h = elim (Bool-cases (leb 100 (length buf))) [
  | inl long ↦ absurd (ground (arith, long, h))
  | inr fits ↦ elim (Bool-cases (same_text buf str)) [
    | inl same ↦ (ground (arith, same, fits, h), same_text-eq buf str same)
    | inr other ↦ absurd (ground (arith, other, fits, h))
  ]
]

-- What is printed is read again.
pub parse_uint16-print : (n : ℕ) → n < 2 ^ 16 → parse_uint16 (print_uint16 n) ≡ parsed (some n)
unfolding parse_uint16 parse_from
parse_uint16-print n h =
    let same : n % 2 ^ 16 ≡ n = omega arith in
    ap (parse_from (print_uint16 n)) (atoi-print_uint16 n h)
    ∙ ap (λ r. parsed (if_printed r (print_uint16 r) (print_uint16 n))) same
    ∙ ap parsed (if_printed-same n (print_uint16 n) (length-print_uint16 n))

-- And nothing else is.
parse_from-some :
    (str : Text) (r : Option ℤ) (n : ℕ)
    → parse_from str r ≡ parsed (some n)
    → (n < 2 ^ 16) × (str ≡ print_uint16 n)
unfolding parse_from
parse_from-some str none n h = absurd (ground (arith, h))
parse_from-some str (some (negsuc k)) n h = absurd (ground (arith, h))
parse_from-some str (some (pos k)) n h =
    let res = k % 2 ^ 16 in
    let found : if_printed res (print_uint16 res) str ≡ some n = parsed-injective h in
    let (same, text) = if_printed-some res (print_uint16 res) str n found in
    (omega arith, sym text ∙ ap print_uint16 same)

parse_uint16-some :
    (str : Text) (n : ℕ)
    → parse_uint16 str ≡ parsed (some n)
    → (n < 2 ^ 16) × (str ≡ print_uint16 n)
unfolding parse_uint16
parse_uint16-some str n h = parse_from-some str (atoi str) n h

-- `parse_uint16` gives the number `n` exactly for a text that is `n` printed, below 2 ^ 16.
pub parse_uint16_iff :
    (str : Text) (n : ℕ)
    → (parse_uint16 str ≡ parsed (some n)) ↔ ((n < 2 ^ 16) × (str ≡ print_uint16 n))
parse_uint16_iff str n =
    (parse_uint16-some str n, λ (h, e). ap parse_uint16 e ∙ parse_uint16-print n h)
