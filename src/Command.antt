-- ===== src/Command.antt =====
-- The command line of lilyvm.c: the options, and the byte code files that are run one by one.
pub mod Number
pub mod Options
pub mod Main
pub mod Runs
mod Tests
use lilyvm.Base.{
  ℕ, zero, suc, ◌+◌, ◌-◌, ◌*◌, ◌/◌, ◌%◌, ◌^◌, Bool, true, false, ◌&&◌, ◌||◌, not, List, [], ◌∷◌,
  ◌++◌, length,
}
use lilyvm.Base.{Option, none, some, ltb, leb, ◌==◌, if◌then◌else◌, ℤ, pos, negsuc}

-- A C string: its bytes before the 0.
abbrev pub Text : Type 0
Text = List ℕ

-- `strcmp(a, b) == 0`
unfoldable pub same_text : Text → Text → Bool
same_text [] [] = true
same_text (c ∷ a) (d ∷ b) = (c == d) && same_text a b
same_text _ _ = false

abbrev pub is_digit : ℕ → Bool
is_digit c = leb b'0' c && leb c b'9'

abbrev pub is_space : ℕ → Bool
is_space c = (c == b' ') || (leb 9 c && leb c 13)

-- `atoi`: spaces, a sign, and digits up to the first other byte.
unfoldable pub digits_value : ℕ → Text → ℕ
digits_value acc [] = acc
digits_value acc (c ∷ cs) =
    let rest = digits_value (acc * 10 + (c - b'0')) cs in if is_digit c then rest else acc

abbrev pub negated : ℕ → ℤ
negated zero = pos 0
negated (suc n) = negsuc n

unfoldable pub signed_value : Text → ℤ
unfolding digits_value
signed_value [] = pos 0
signed_value (c ∷ cs) =
    if c == b'-'
    then negated (digits_value 0 cs)
    else (if c == b'+' then pos (digits_value 0 cs) else pos (digits_value 0 (c ∷ cs)))

unfoldable pub skip_spaces : Text → Text
skip_spaces [] = []
skip_spaces (c ∷ cs) = let rest = skip_spaces cs in if is_space c then rest else c ∷ cs

-- No `int` holds the number: then C leaves the result undefined.
abbrev pub in_int : ℤ → Bool
in_int (pos n) = ltb n (2 ^ 31)
in_int (negsuc n) = ltb n (2 ^ 31)

unfoldable pub atoi : Text → Option ℤ
unfolding skip_spaces signed_value
atoi str = let r = signed_value (skip_spaces str) in if in_int r then some r else none

-- `%" PRIu16 "`: the decimal digits, for numbers of at most `fuel` of them.
unfoldable pub decimal : ℕ → ℕ → Text
decimal zero n = []
decimal (suc fuel) n =
    let above = decimal fuel (n / 10) in
    if ltb n 10 then (b'0' + n) ∷ [] else above ++ (b'0' + n % 10) ∷ []

unfoldable pub print_uint16 : ℕ → Text
unfolding decimal
print_uint16 n = decimal 5 n

-- How parsing ends: with a result, by `help`, which prints and exits, or undefined.
pub data Parsed {ℓ} (A : Type ℓ) : Type ℓ where
  parsed : A → Parsed A
  helps : Parsed A
  helps_invalid_value helps_missing_value : Text → Parsed A
  undefined : Parsed A

-- The tests on the buffer that `res` is printed into.
unfoldable pub if_printed : ℕ → Text → Text → Option ℕ
unfolding same_text
if_printed res buf str =
    if leb 100 (length buf) then none else (if same_text buf str then some res else none)

unfoldable pub parse_from : Text → Option ℤ → Parsed (Option ℕ)
unfolding print_uint16 if_printed
parse_from str none = undefined
parse_from str (some (negsuc n)) = parsed none
parse_from str (some (pos n)) =
    let res = n % 2 ^ 16 in parsed (if_printed res (print_uint16 res) str)

unfoldable pub parse_uint16 : Text → Parsed (Option ℕ)
unfolding atoi parse_from
parse_uint16 str = parse_from str (atoi str)

abbrev pub dash_s : Text
dash_s = b'-' ∷ b's' ∷ []

abbrev pub dash_dash_stack : Text
dash_dash_stack = b'-' ∷ b'-' ∷ b's' ∷ b't' ∷ b'a' ∷ b'c' ∷ b'k' ∷ []

abbrev pub dash_h : Text
dash_h = b'-' ∷ b'h' ∷ []

abbrev pub dash_dash_heap : Text
dash_dash_heap = b'-' ∷ b'-' ∷ b'h' ∷ b'e' ∷ b'a' ∷ b'p' ∷ []

abbrev pub dash_dash_help : Text
dash_dash_help = b'-' ∷ b'-' ∷ b'h' ∷ b'e' ∷ b'l' ∷ b'p' ∷ []

abbrev pub dash_dash : Text
dash_dash = b'-' ∷ b'-' ∷ []

-- The value of an option: `next` is the argument behind it, which a value takes up.
unfoldable pub option_value : Text → Option Text → Parsed ℕ
unfolding parse_uint16
option_value optstr none = helps_missing_value optstr
option_value optstr (some str) = elim (parse_uint16 str) [
  | parsed (some n) ↦ parsed n
  | parsed none ↦ helps_invalid_value optstr
  | helps ↦ helps
  | helps_invalid_value t ↦ helps_invalid_value t
  | helps_missing_value t ↦ helps_missing_value t
  | undefined ↦ undefined
]

infixl 5 ◌>>=◌
abbrev pub ◌>>=◌ {ℓ κ} : {A : Type ℓ} {B : Type κ} → Parsed A → (A → Parsed B) → Parsed B
parsed a >>= f = f a
helps >>= f = helps
helps_invalid_value t >>= f = helps_invalid_value t
helps_missing_value t >>= f = helps_missing_value t
undefined >>= f = undefined

-- `none` for an argument that is not the option.
unfoldable pub perhaps_parseopt_uint16 : Text → Option Text → Text → Parsed (Option ℕ)
unfolding same_text option_value
perhaps_parseopt_uint16 arg next optstr =
    let value : Parsed (Option ℕ) = option_value optstr next >>= λ n. parsed (some n) in
    if same_text arg optstr then value else parsed none

pub record Settings : Type 0 where
  pub stacklen : ℕ
  pub heaplen : ℕ
  pub paths : List Text

-- What a round of the loop over the arguments comes to: an option with its value, `--`, or a path.
pub data Round : Type 0 where
  took : Settings → Round
  stops is_path : Round

-- `if (perhaps_parseopt_uint16(...)) continue;`, and what follows it.
abbrev pub tried : Parsed (Option ℕ) → (ℕ → Settings) → Parsed Round → Parsed Round
tried (parsed (some n)) store rest = parsed (took (store n))
tried (parsed none) store rest = rest
tried helps store rest = helps
tried (helps_invalid_value t) store rest = helps_invalid_value t
tried (helps_missing_value t) store rest = helps_missing_value t
tried undefined store rest = undefined

unfoldable pub round : Settings → Text → Option Text → Parsed Round
unfolding perhaps_parseopt_uint16
round s arg next =
    let to_stack : ℕ → Settings = (λ n. record s { stacklen = n }) in
    let to_heap : ℕ → Settings = (λ n. record s { heaplen = n }) in
    let last : Parsed Round = parsed (if same_text arg dash_dash then stops else is_path) in
    let options = tried (perhaps_parseopt_uint16 arg next dash_s) to_stack (
      tried (perhaps_parseopt_uint16 arg next dash_dash_stack) to_stack (
        tried (perhaps_parseopt_uint16 arg next dash_h) to_heap
          (tried (perhaps_parseopt_uint16 arg next dash_dash_heap) to_heap last))) in
    if same_text arg dash_dash_help then helps else options

abbrev pub add_path : Text → Settings → Settings
add_path arg s = record s { paths = s.paths ++ arg ∷ [] }

-- The loop over the arguments; the first argument of it is `stop_parsing`.
unfoldable pub parse_args : Bool → Settings → List Text → Parsed Settings
unfolding round
parse_args stop s [] = parsed s
parse_args true s (arg ∷ rest) = parse_args true (add_path arg s) rest
parse_args false s (arg ∷ []) = round s arg none >>= λ r. elim r [
  | took s' ↦ parsed s'
  | stops ↦ parsed s
  | is_path ↦ parsed (add_path arg s)
]
parse_args false s (arg ∷ value ∷ rest) = round s arg (some value) >>= λ r. elim r [
  | took s' ↦ parse_args false s' rest
  | stops ↦ parse_args true s (value ∷ rest)
  | is_path ↦ parse_args false (add_path arg s) (value ∷ rest)
]

abbrev pub defaults : Settings
defaults = record { stacklen = 256; heaplen = 1024; paths = [] }
