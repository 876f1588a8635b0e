-- ===== src/Number/Scm.antt =====
-- The functions of vm_mem.c on values: `scm_cons`, `fixmulint_to_scm`, `scm_inc`, `scm_dec`,
-- `scm_add`, `scm_mul`, `scm_number_equal`, `scm_number_cmp`, `scm_length`, `scm_bitwise_and`.
use lilyvm.Base.{ℕ, zero, suc, ◌+◌, ◌-◌, ◌%◌, ◌^◌, not, ◌&&◌, ◌||◌, ◌==◌, if◌then◌else◌}
use lilyvm.Base.{List, [], ◌∷◌, ℤ, pos, negsuc, eqb_ℤ, ltb_ℤ, signed16}
use lilyvm.Outcome.{
  Outcome, done, dies, hangs, unfinished, not_implemented, not_a_pair_or_null, ◌>>=◌,
}
use lilyvm.Word.{dword_lo, dword_hi, word_is_negative, word_max}
use lilyvm.Value.{fix, int, bool, is_null, is_in_fix_range, lt, eq, gt}
use lilyvm.Process.{VmProcess}
use lilyvm.Heap.{store, store_words, head_of_len_type, type_bignum, type_pair}
use lilyvm.Heap.{allocated_from_pointer, allocated_slot}
use lilyvm.Heap.Alloc.{vm_process_alloc}
use lilyvm.Number.Bignums.{bignum_equal, bignum_cmp, bignum_mul}
use lilyvm.Number.Dispatch.{is_pair, do_fixaddint_to_scm, number_dispatch, do_scm_add, do_scm_step}

-- The macros with `_NOOP` for the saving and restoring of registers.
abbrev pub here : VmProcess → VmProcess
here process = process

abbrev pub replaced : VmProcess → VmProcess → VmProcess
replaced process old = process

-- An object of `HEAD` and body words, allocated and filled.
unfoldable pub new_object : VmProcess → ℕ → List ℕ → ℕ → Outcome (ℕ × VmProcess)
unfolding vm_process_alloc store_words allocated_from_pointer
new_object process head words n = do
  (p, process1) ← vm_process_alloc process n
  heap ← store process1.heap p head
  heap' ← store_words heap (p + 1) words
  let process2 = record process1 { heap = heap' }
  v ← allocated_from_pointer process2 p
  done (v, process2)

unfoldable pub scm_cons : VmProcess → ℕ → ℕ → Outcome (ℕ × VmProcess)
unfolding new_object head_of_len_type
scm_cons process a b = new_object process (head_of_len_type 2 type_pair) (a ∷ b ∷ []) 3

-- `fixaddint_to_scm`
unfoldable pub fixaddint_to_scm : VmProcess → ℤ → Outcome (ℕ × VmProcess)
unfolding do_fixaddint_to_scm
fixaddint_to_scm process x = do_fixaddint_to_scm here replaced here here process x

-- The two's complement form of a `fixmulint_t`.
abbrev to_dword : ℤ → ℕ
to_dword (pos n) = n % 2 ^ 32
to_dword (negsuc n) = 2 ^ 32 - 1 - n % 2 ^ 32

unfoldable pub fixmulint_to_scm : VmProcess → ℤ → Outcome (ℕ × VmProcess)
unfolding fixaddint_to_scm new_object head_of_len_type word_is_negative
fixmulint_to_scm process x =
    let lo = dword_lo (to_dword x) in
    let hi = dword_hi (to_dword x) in
    let one_word =
      ((hi == 0) && not (word_is_negative lo)) || ((hi == word_max) && word_is_negative lo) in
    if is_in_fix_range x
    then done (fix x, process)
    else (if one_word
        then fixaddint_to_scm process (signed16 lo)
        else new_object process (head_of_len_type 2 type_bignum) (lo ∷ hi ∷ []) 3)

unfoldable pub scm_inc : VmProcess → ℕ → Outcome (ℕ × VmProcess)
unfolding do_scm_step
scm_inc process x = do_scm_step here replaced here here process x (pos 1)

unfoldable pub scm_dec : VmProcess → ℕ → Outcome (ℕ × VmProcess)
unfolding do_scm_step
scm_dec process x = do_scm_step here replaced here here process x (negsuc 0)

unfoldable pub fixnum_equal : VmProcess → ℕ → ℕ → Outcome (ℕ × VmProcess)
fixnum_equal process a b = done (bool (a == b), process)

unfoldable pub scm_number_equal : VmProcess → ℕ → ℕ → Outcome (ℕ × VmProcess)
unfolding number_dispatch fixnum_equal bignum_equal
scm_number_equal process x y =
    number_dispatch here replaced here here fixnum_equal bignum_equal process x y

unfoldable pub fixnum_cmp : VmProcess → ℕ → ℕ → Outcome (ℕ × VmProcess)
fixnum_cmp process a b =
    let x = int a in
    let y = int b in done ((if eqb_ℤ x y then eq else (if ltb_ℤ x y then lt else gt)), process)

unfoldable pub scm_number_cmp : VmProcess → ℕ → ℕ → Outcome (ℕ × VmProcess)
unfolding number_dispatch fixnum_cmp bignum_cmp
scm_number_cmp process x y =
    number_dispatch here replaced here here fixnum_cmp bignum_cmp process x y

unfoldable pub scm_add : VmProcess → ℕ → ℕ → Outcome (ℕ × VmProcess)
unfolding do_scm_add
scm_add process x y = do_scm_add here replaced here here process x y

-- `DO_FIXNUM_MUL` is not finished in the source.
unfoldable pub do_fixnum_mul : VmProcess → ℕ → ℕ → Outcome (ℕ × VmProcess)
do_fixnum_mul process a b = dies unfinished

unfoldable pub scm_mul : VmProcess → ℕ → ℕ → Outcome (ℕ × VmProcess)
unfolding number_dispatch do_fixnum_mul bignum_mul
scm_mul process x y = number_dispatch here replaced here here do_fixnum_mul bignum_mul process x y

-- The loop of `scm_length`, which a circular list keeps in it for ever: hence the fuel.
unfoldable pub length_loop : ℕ → VmProcess → ℕ → ℕ → Outcome (ℕ × VmProcess)
unfolding is_pair scm_inc allocated_slot
length_loop zero process l res = hangs
length_loop (suc fuel) process l res =
    let rest : Outcome (ℕ × VmProcess) = (do
      pair ← is_pair process l
      if pair
          then (do
            (res', process') ← scm_inc process res
            l' ← allocated_slot process' l 2
            length_loop fuel process' l' res')
          else dies (not_a_pair_or_null l)) in
    if is_null l then done (res, process) else rest

unfoldable pub scm_length : ℕ → VmProcess → ℕ → Outcome (ℕ × VmProcess)
unfolding length_loop
scm_length fuel process l = length_loop fuel process l (fix (pos 0))

unfoldable pub scm_bitwise_and : VmProcess → ℕ → ℕ → Outcome (ℕ × VmProcess)
scm_bitwise_and process a b = dies not_implemented
