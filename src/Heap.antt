-- ===== src/Heap.antt =====
-- Pointers into the allocation areas, and the heads of objects: vm_mem.h. An object is a head
-- word, its type in the low byte and the length of its body in the high byte, and the body.
pub mod Memory
pub mod Ends
pub mod Object
pub mod Fresh
pub mod Tests
pub mod Gc
pub mod Alloc
use lilyvm.Base.{ℕ, zero, suc, ◌+◌, ◌-◌, ◌*◌, ◌/◌, ◌%◌, ◌^◌, bit_and, bit_or, Bool, not, ◌&&◌, ◌≡◌}
use lilyvm.Base.{List, [], ◌∷◌, length, get_elem?, set, ltb, leb, ◌==◌, if◌then◌else◌}
use lilyvm.Outcome.{Outcome, done, fault, ◌>>=◌, ◌>>◌, assert, defined}
use lilyvm.Word.{word_byte0, word_byte1}
use lilyvm.Process.{VmProcess}

-- `HEAD_OF_LEN_TYPE`, and the types.
unfoldable pub head_of_len_type : ℕ → ℕ → ℕ
head_of_len_type len type = bit_or (len * 2 ^ 8) type

abbrev pub type_pair : ℕ
type_pair = 1

abbrev pub type_bignum : ℕ
type_bignum = 128

unfoldable pub type_is_binary : ℕ → Bool
type_is_binary t = not (bit_and t 128 == 0)

-- A read and a write of a word of the block.
abbrev pub load : List ℕ → ℕ → Outcome ℕ
load heap i = defined (get_elem? heap i)

abbrev pub store : List ℕ → ℕ → ℕ → Outcome (List ℕ)
store heap i v = if ltb i (length heap) then done (set heap i v) else fault

-- `n` words from an index on.
unfoldable pub load_words : List ℕ → ℕ → ℕ → Outcome (List ℕ)
load_words heap i zero = done []
load_words heap i (suc n) = do w ← load heap i; ws ← load_words heap (suc i) n; done (w ∷ ws)

unfoldable pub store_words : List ℕ → ℕ → List ℕ → Outcome (List ℕ)
store_words heap i [] = done heap
store_words heap i (w ∷ ws) = do heap' ← store heap i w; store_words heap' (suc i) ws

-- `ptr - base` in bytes, as the value that stands for it; shared by `allocated_from_pointer` and
-- its to-space form. A pointer below the base gives a difference above every size.
unfoldable pub offset_from : ℕ → ℕ → ℕ → Outcome ℕ
offset_from base size ptr = do
  let d = 2 * (ptr - base)
  assert (leb base ptr && ltb d size)
  assert (not (d == 0))
  done (d % 2 ^ 16)

unfoldable pub allocated_from_pointer : VmProcess → ℕ → Outcome ℕ
allocated_from_pointer process ptr = offset_from process.alloc_area process.alloc_size ptr

-- The checks that `allocated_ptr` and its two forms for the collector share.
unfoldable pub checked_offset : ℕ → ℕ → ℕ → Outcome ℕ
checked_offset base size allocated = do
  assert (not (allocated == 0))
  assert (allocated % 2 == 0)
  assert (ltb allocated size)
  done (base + allocated / 2)

-- `PTR_NUMWORDS`, `PTR_TYPE`
unfoldable pub ptr_numwords : List ℕ → ℕ → Outcome ℕ
ptr_numwords heap p = do head ← load heap p; done (word_byte1 head)

unfoldable pub ptr_type : List ℕ → ℕ → Outcome ℕ
ptr_type heap p = do head ← load heap p; done (word_byte0 head)

-- The object must not be one that has moved.
unfoldable pub allocated_ptr : VmProcess → ℕ → Outcome ℕ
unfolding checked_offset ptr_numwords
allocated_ptr process allocated = do
  res ← checked_offset process.alloc_area process.alloc_size allocated
  n ← ptr_numwords process.heap res
  assert (not (n == 0))
  done res

unfoldable pub allocated_type : VmProcess → ℕ → Outcome ℕ
unfolding allocated_ptr ptr_type
allocated_type process v = do p ← allocated_ptr process v; ptr_type process.heap p

unfoldable pub allocated_numwords : VmProcess → ℕ → Outcome ℕ
unfolding allocated_ptr ptr_numwords
allocated_numwords process v = do p ← allocated_ptr process v; ptr_numwords process.heap p

unfoldable pub allocated_body : VmProcess → ℕ → Outcome ℕ
unfolding allocated_ptr
allocated_body process v = do p ← allocated_ptr process v; done (p + 1)

unfoldable pub allocated_slot : VmProcess → ℕ → ℕ → Outcome ℕ
unfolding allocated_ptr
allocated_slot process v i = do p ← allocated_ptr process v; load process.heap (p + i)
