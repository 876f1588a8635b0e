-- ===== src/Number/Bignums.antt =====
-- bignum_add, bignum_equal and bignum_cmp of vm_mem.c, over the heap.
pub mod Operands
pub mod Result
pub mod Sum
use lilyvm.Base.{ℕ, zero, suc, ◌+◌, ◌-◌, Option, none, some, Bool, true, false}
use lilyvm.Base.{List, [], ◌∷◌, length, get_elem?, ltb, ◌==◌, if◌then◌else◌}
use lilyvm.Outcome.{Outcome, done, dies, fault, unfinished, ◌>>=◌, ◌>>◌, assert, defined}
use lilyvm.Process.{VmProcess, register_ptr_root, unregister_ptr_roots}
use lilyvm.Heap.{load, store, load_words, store_words, allocated_from_pointer}
use lilyvm.Heap.{head_of_len_type, type_bignum}
use lilyvm.Heap.Alloc.{vm_process_alloc}
use lilyvm.Bignum.{sign_extension_of, add_loop, finish, numwords, equal_words, cmp_words}

-- The `word_t *` that a bignum operation is given: the body of an object, which a collection moves
-- (`amoves`), or a variable of the caller that holds one word.
pub data Operand : Type 0 where
  body : ℕ → Operand
  local : ℕ → Operand

abbrev pub moves : Operand → Bool
moves (body p) = true
moves (local w) = false

-- `a[len - 1]`; without words it is the word in front of the body.
unfoldable pub operand_top : VmProcess → Operand → ℕ → Outcome ℕ
operand_top process (body p) zero = if p == 0 then fault else load process.heap (p - 1)
operand_top process (local w) zero = fault
operand_top process (body p) (suc i) = load process.heap (p + i)
operand_top process (local w) (suc i) = if i == 0 then done w else fault

-- The `len` words of an operand.
unfoldable pub operand_words : VmProcess → Operand → ℕ → Outcome (List ℕ)
unfolding load_words
operand_words process (body p) len = load_words process.heap p len
operand_words process (local w) len = if len == 1 then done (w ∷ []) else fault

-- `if (amoves) PTR_REGISTER(a)`
unfoldable pub register_operand : VmProcess → Operand → Outcome VmProcess
unfolding register_ptr_root
register_operand process (body p) = register_ptr_root process p
register_operand process (local w) = done process

-- `a` and `b` after a collection may have changed them: `a` was registered first.
unfoldable pub read_operands : VmProcess → Operand → Operand → Outcome (Operand × Operand)
read_operands process (local v) (local w) = done (local v, local w)
read_operands process (body p) (local w) = do
  p' ← defined (get_elem? process.ptr_roots (length process.ptr_roots - 1))
  done (body p', local w)
read_operands process (local v) (body q) = do
  q' ← defined (get_elem? process.ptr_roots (length process.ptr_roots - 1))
  done (local v, body q')
read_operands process (body p) (body q) = do
  p' ← defined (get_elem? process.ptr_roots (length process.ptr_roots - 2))
  q' ← defined (get_elem? process.ptr_roots (length process.ptr_roots - 1))
  done (body p', body q')

abbrev pub registered : Operand → Operand → ℕ
registered (local v) (local w) = 0
registered (body p) (local w) = 1
registered (local v) (body q) = 1
registered (body p) (body q) = 2

-- `if (amoves+bmoves) PTR_UNREGISTER(amoves+bmoves)`
unfoldable pub unregister_operands : VmProcess → ℕ → Outcome VmProcess
unfolding unregister_ptr_roots
unregister_operands process n = if n == 0 then done process else unregister_ptr_roots process n

-- What `bignum_add` does with its new object at `z`, once the loops are through: the words are
-- stored, and the head if a bignum is returned.
unfoldable pub bignum_result : VmProcess → ℕ → List ℕ → Option ℕ → ℕ → Outcome (ℕ × VmProcess)
unfolding store_words allocated_from_pointer head_of_len_type
bignum_result process z words (some fixnum) len = do
  heap ← store_words process.heap (z + 1) words
  done (fixnum, record process { heap = heap })
bignum_result process z words none len = do
  heap ← store_words process.heap (z + 1) words
  heap' ← store heap z (head_of_len_type len type_bignum)
  let process' = record process { heap = heap' }
  v ← allocated_from_pointer process' z
  done (v, process')

-- The new object has no word in common with the operands, so that the words of these are read
-- before the loops' results are stored.
unfoldable pub bignum_add : VmProcess → Operand → ℕ → Operand → ℕ → Outcome (ℕ × VmProcess)
unfolding operand_top operand_words register_operand read_operands unregister_operands bignum_result
    vm_process_alloc add_loop finish
bignum_add process a lena b lenb = do
  let a_is_shorter = ltb lena lenb
  let len1 = (if a_is_shorter then lena else lenb)
  let len2 = (if a_is_shorter then lenb else lena)
  top ← (if a_is_shorter then operand_top process a lena else operand_top process b lenb)
  let sign_extension = sign_extension_of top
  p1 ← register_operand process a
  p2 ← register_operand p1 b
  (z, p3) ← vm_process_alloc p2 (numwords (1 + len2 + 1))
  (a', b') ← read_operands p3 a b
  p4 ← unregister_operands p3 (registered a b)
  assert (ltb 0 len1)
  words_a ← operand_words p4 a' lena
  words_b ← operand_words p4 b' lenb
  let f = finish (add_loop sign_extension 0 0 words_a words_b)
  bignum_result p4 z f.body f.fixnum f.len

unfoldable pub bignum_equal : VmProcess → Operand → ℕ → Operand → ℕ → Outcome (ℕ × VmProcess)
unfolding operand_words equal_words
bignum_equal process a lena b lenb = do
  words_a ← operand_words process a lena
  words_b ← operand_words process b lenb
  done (equal_words words_a words_b, process)

unfoldable pub bignum_cmp : VmProcess → Operand → ℕ → Operand → ℕ → Outcome (ℕ × VmProcess)
unfolding operand_words cmp_words
bignum_cmp process a lena b lenb = do
  words_a ← operand_words process a lena
  words_b ← operand_words process b lenb
  done (cmp_words words_a words_b, process)

unfoldable pub bignum_mul : VmProcess → Operand → ℕ → Operand → ℕ → Outcome (ℕ × VmProcess)
bignum_mul process a lena b lenb = dies unfinished
