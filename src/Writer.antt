-- ===== src/Writer.antt =====
-- What vm_mem.c prints of values: `scm_write` and its helpers. A text is the bytes that are written to
-- the standard output; what goes to the standard error is left out. `BREAK()` is another library's.
pub mod Process
pub mod Immediate
pub mod Reports
pub mod Tests
use lilyvm.Base.{
  ℕ, zero, suc, ◌+◌, ◌*◌, ◌/◌, ◌%◌, ◌^◌, List, [], ◌∷◌, ◌++◌, ltb, ◌==◌, if◌then◌else◌, ℤ, pos,
  negsuc,
}
use lilyvm.Outcome.{Outcome, done, hangs, ◌>>=◌, ◌>>◌}
use lilyvm.Word.{word_is_negative}
use lilyvm.Value.{
  int, ord, tru, is_null, is_false, is_void, is_undef, is_uninitialized, is_fixnum, is_pcnum,
  is_char, is_allocated, pcnum_to_word,
}
use lilyvm.Process.{VmProcess}
use lilyvm.Heap.{
  load, type_bignum, type_pair, allocated_type, allocated_body, allocated_numwords, allocated_slot,
}
use lilyvm.Command.{Text, decimal, print_uint16}
use lilyvm.Number.Dispatch.{is_pair}

abbrev pub text_hash_bignum : Text
text_hash_bignum = b'#' ∷ b'b' ∷ b'i' ∷ b'g' ∷ b'n' ∷ b'u' ∷ b'm' ∷ b'{' ∷ []

abbrev pub text_true : Text
text_true = b'#' ∷ b't' ∷ []

abbrev pub text_false : Text
text_false = b'#' ∷ b'f' ∷ []

abbrev pub text_void : Text
text_void = b'#' ∷ b'!' ∷ b'v' ∷ b'o' ∷ b'i' ∷ b'd' ∷ []

abbrev pub text_undef : Text
text_undef = b'#' ∷ b'!' ∷ b'u' ∷ b'n' ∷ b'd' ∷ b'e' ∷ b'f' ∷ b'i' ∷ b'n' ∷ b'e' ∷ b'd' ∷ []

abbrev pub text_uninitialized : Text
text_uninitialized =
    b'#' ∷ b'!' ∷ b'u' ∷ b'n' ∷ b'i' ∷ b'n' ∷ b'i' ∷ b't' ∷ b'i' ∷ b'a' ∷ b'l' ∷ b'i' ∷ b'z' ∷ b'e'
    ∷ b'd' ∷ []

abbrev pub text_null : Text
text_null = b'(' ∷ b')' ∷ []

abbrev pub text_pc : Text
text_pc = b'#' ∷ b'P' ∷ b'C' ∷ b'{' ∷ []

abbrev pub text_char : Text
text_char = b'#' ∷ 92 ∷ []

abbrev pub text_unknown : Text
text_unknown =
    b'u' ∷ b'n' ∷ b'k' ∷ b'n' ∷ b'o' ∷ b'w' ∷ b'n' ∷ b' ' ∷ b't' ∷ b'y' ∷ b'p' ∷ b'e' ∷ b' ' ∷ b'o'
    ∷ b'f' ∷ b':' ∷ b' ' ∷ []

abbrev pub text_object : Text
text_object =
    b'{' ∷ b'o' ∷ b'b' ∷ b'j' ∷ b'e' ∷ b'c' ∷ b't' ∷ b' ' ∷ b'o' ∷ b'f' ∷ b' ' ∷ b'u' ∷ b'n' ∷ b'k'
    ∷ b'n' ∷ b'o' ∷ b'w' ∷ b'n' ∷ b' ' ∷ b't' ∷ b'y' ∷ b'p' ∷ b'e' ∷ b' ' ∷ []

abbrev pub text_dot : Text
text_dot = b'.' ∷ b' ' ∷ []

-- `%i` for an `int` of at most five digits.
unfoldable pub print_int : ℤ → Text
unfolding decimal
print_int (pos n) = decimal 5 n
print_int (negsuc n) = b'-' ∷ decimal 5 (suc n)

-- One digit of `%x`, and `%04x`.
abbrev pub hex_digit : ℕ → ℕ
hex_digit d = if ltb d 10 then b'0' + d else 87 + d

abbrev pub print_hex4 : ℕ → Text
print_hex4 w =
    hex_digit (w / 2 ^ 12 % 16)
    ∷ hex_digit (w / 2 ^ 8 % 16)
    ∷ hex_digit (w / 2 ^ 4 % 16)
    ∷ hex_digit (w % 16)
    ∷ []

-- The inner loop of `scm_print_in_binary`.
unfoldable pub print_bits : ℕ → ℕ → Text
print_bits zero v = []
print_bits (suc n) v = (if word_is_negative v then b'1' else b'0') ∷ print_bits n (v * 2 % 2 ^ 16)

unfoldable pub scm_print_in_binary : ℕ → Text
unfolding print_bits
scm_print_in_binary v =
    b'[' ∷ print_bits 8 v ++ b' ' ∷ print_bits 8 (v * 2 ^ 8 % 2 ^ 16) ++ b']' ∷ []

-- The loop of `scm_write_bignum_hex`, down from the highest word.
unfoldable pub write_words : List ℕ → ℕ → ℕ → Outcome Text
write_words heap p zero = done []
write_words heap p (suc i) = do
  d ← load heap (p + i)
  rest ← write_words heap p i
  done (print_hex4 d ++ (if i == 0 then [] else b'-' ∷ []) ++ rest)

unfoldable pub scm_write_bignum_hex : VmProcess → ℕ → Outcome Text
unfolding allocated_body allocated_numwords write_words
scm_write_bignum_hex process v = do
  i ← allocated_numwords process v
  p ← allocated_body process v
  digits ← write_words process.heap p i
  done (text_hash_bignum ++ digits ++ b'}' ∷ [])

-- A value that is no pointer.
unfoldable pub write_immediate : ℕ → Text
unfolding print_int print_uint16 scm_print_in_binary
write_immediate v =
    if is_null v
    then text_null
    else (if is_false v
        then text_false
        else (if v == tru
            then text_true
            else (if is_void v
                then text_void
                else (if is_undef v
                    then text_undef
                    else (if is_uninitialized v
                        then text_uninitialized
                        else (if is_fixnum v
                            then print_int (int v)
                            else (if is_pcnum v
                                then text_pc ++ print_uint16 (pcnum_to_word v) ++ b'}' ∷ []
                                else (if is_char v
                                    then text_char ++ (ord v % 2 ^ 8) ∷ []
                                    else text_unknown ++ scm_print_in_binary v))))))))

-- `scm_write` and `SCM_WRITE_nonnull_list` call each other as deep as the data, which may be
-- circular: hence the fuel.
module _ (on_break : Outcome (Unit {0})) where
  unfoldable mutual
    unfolding allocated_type allocated_slot is_pair scm_write_bignum_hex write_immediate print_int

    pub scm_write : ℕ → VmProcess → ℕ → Outcome Text
    scm_write zero process v = hangs
    scm_write (suc fuel) process v =
        let list : Outcome Text = write_nonnull_list fuel process v in
        let object : Outcome Text = (do
          type ← allocated_type process v
          if type == type_pair
              then (do text ← list; done (b'(' ∷ text))
              else (if type == type_bignum
                  then scm_write_bignum_hex process v
                  else (do on_break; done (text_object ++ print_int (pos type) ++ b'}' ∷ [])))) in
        if is_allocated v then object else done (write_immediate v)

    pub write_nonnull_list : ℕ → VmProcess → ℕ → Outcome Text
    write_nonnull_list zero process v = hangs
    write_nonnull_list (suc fuel) process v = do
      pair ← is_pair process v
      let whole : Outcome Text = scm_write fuel process v
      let first : Outcome Text = (do car ← allocated_slot process v 1; scm_write fuel process car)
      let more : Outcome Text = (do
        cdr ← allocated_slot process v 2
        let rest : Outcome Text = write_nonnull_list fuel process cdr
        if is_null cdr then done (b')' ∷ []) else (do text ← rest; done (b' ' ∷ text)))
      if pair
          then (do text ← first; text' ← more; done (text ++ text'))
          else (do text ← whole; done (text_dot ++ text ++ b')' ∷ []))
