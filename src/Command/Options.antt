-- ===== src/Command/Options.antt =====
-- The options before `--`, and the files behind it.
use lilyvm.Base.{ℕ, ◌^◌, ◌<◌, ◌≡◌, refl, sym, ap, ◌∙◌, true, false, List, [], ◌∷◌, ◌++◌, some}
use mathlib.Core.List.{append-nil, append_assoc}
use lilyvm.Command.{
  Text, same_text, print_uint16, parsed, parse_uint16, option_value, perhaps_parseopt_uint16,
  Settings, took, round, add_path, parse_args, dash_s, dash_dash_stack, dash_h, dash_dash_heap,
  dash_dash,
}
use lilyvm.Command.Number.{parse_uint16-print}

-- An option as it is written, `-s`, `--stack`, `-h` or `--heap`, with its value.
pub data Setting : Type 0 where
  short_stack long_stack short_heap long_heap : ℕ → Setting

abbrev pub words : Setting → ℕ
words (short_stack n) = n
words (long_stack n) = n
words (short_heap n) = n
words (long_heap n) = n

abbrev pub name : Setting → Text
name (short_stack n) = dash_s
name (long_stack n) = dash_dash_stack
name (short_heap n) = dash_h
name (long_heap n) = dash_dash_heap

abbrev pub apply : Setting → Settings → Settings
apply (short_stack n) s = record s { stacklen = n }
apply (long_stack n) s = record s { stacklen = n }
apply (short_heap n) s = record s { heaplen = n }
apply (long_heap n) s = record s { heaplen = n }

-- The arguments for some settings and the paths behind `--`.
abbrev pub arguments : List Setting → List Text → List Text
arguments [] paths = dash_dash ∷ paths
arguments (x ∷ xs) paths = name x ∷ print_uint16 (words x) ∷ arguments xs paths

abbrev pub AreShort : List Setting → Type 0
AreShort [] = Unit
AreShort (x ∷ xs) = (words x < 2 ^ 16) × AreShort xs

-- The settings one after the other: the last of a kind stays.
abbrev pub apply_all : List Setting → Settings → Settings
apply_all [] s = s
apply_all (x ∷ xs) s = apply_all xs (apply x s)

option_value_lem :
    (opt v : Text) (n : ℕ) → parse_uint16 v ≡ parsed (some n) → option_value opt (some v) ≡ parsed n
unfolding option_value
option_value_lem opt v n h = rw (option_value, h) refl

round_lem :
    (x : Setting) (s : Settings) (v : Text)
    → option_value (name x) (some v) ≡ parsed (words x)
    → round s (name x) (some v) ≡ parsed (took (apply x s))
unfolding round perhaps_parseopt_uint16 same_text
round_lem (short_stack n) s v h = rw h refl
round_lem (long_stack n) s v h = rw h refl
round_lem (short_heap n) s v h = rw h refl
round_lem (long_heap n) s v h = rw h refl

paths_lem :
    (paths : List Text) (s : Settings)
    → parse_args true s paths ≡ parsed (record s { paths = s.paths ++ paths })
unfolding parse_args
paths_lem [] s = ap (λ l. parsed (record s { paths = l })) (sym (append-nil s.paths))
paths_lem (p ∷ paths) s =
    paths_lem paths (add_path p s)
    ∙ ap (λ l. parsed (record s { paths = l })) (append_assoc s.paths (p ∷ []) paths)

took_lem :
    (s s' : Settings) (arg v : Text) (rest : List Text)
    → round s arg (some v) ≡ parsed (took s')
    → parse_args false s (arg ∷ v ∷ rest) ≡ parse_args false s' rest
unfolding parse_args
took_lem s s' arg v rest h = rw h refl

stops_lem :
    (s : Settings) (paths : List Text)
    → parse_args false s (dash_dash ∷ paths) ≡ parse_args true s paths
unfolding parse_args round perhaps_parseopt_uint16 same_text
stops_lem s [] = refl
stops_lem s (p ∷ paths) = refl

pub parse_args-arguments :
    (xs : List Setting) (paths : List Text) (s : Settings)
    → AreShort xs
    → parse_args false s (arguments xs paths)
      ≡ parsed (record (apply_all xs s) { paths = (apply_all xs s).paths ++ paths })
parse_args-arguments [] paths s h = stops_lem s paths ∙ paths_lem paths s
parse_args-arguments (x ∷ xs) paths s h =
    let v = print_uint16 (words x) in
    let value = option_value_lem (name x) v (words x) (parse_uint16-print (words x) h.0) in
    took_lem s (apply x s) (name x) v (arguments xs paths) (round_lem x s v value)
    ∙ parse_args-arguments xs paths (apply x s) h.1

pub apply_all-paths : (xs : List Setting) (s : Settings) → (apply_all xs s).paths ≡ s.paths
apply_all-paths [] s = refl
apply_all-paths (short_stack n ∷ xs) s = apply_all-paths xs (apply (short_stack n) s)
apply_all-paths (long_stack n ∷ xs) s = apply_all-paths xs (apply (long_stack n) s)
apply_all-paths (short_heap n ∷ xs) s = apply_all-paths xs (apply (short_heap n) s)
apply_all-paths (long_heap n ∷ xs) s = apply_all-paths xs (apply (long_heap n) s)

pub apply_all-stacklen :
    (xs : List Setting) (s : Settings)
    → AreShort xs
    → s.stacklen < 2 ^ 16
    → (apply_all xs s).stacklen < 2 ^ 16
apply_all-stacklen [] s short h = h
apply_all-stacklen (short_stack n ∷ xs) s (fits, short) h =
    apply_all-stacklen xs (apply (short_stack n) s) short fits
apply_all-stacklen (long_stack n ∷ xs) s (fits, short) h =
    apply_all-stacklen xs (apply (long_stack n) s) short fits
apply_all-stacklen (short_heap n ∷ xs) s (fits, short) h =
    apply_all-stacklen xs (apply (short_heap n) s) short h
apply_all-stacklen (long_heap n ∷ xs) s (fits, short) h =
    apply_all-stacklen xs (apply (long_heap n) s) short h
