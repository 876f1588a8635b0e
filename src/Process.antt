-- ===== src/Process.antt =====
-- `struct vm_process` (vm_process.h), its construction (vm_process.c) and its stacks of roots.
-- The block of both allocation areas is a list of words, and a `word_t*` into it is an index.
-- VM_TRACE is off.
use lilyvm.Base.{ℕ, ◌-◌, ◌*◌, Bool, ◌&&◌, Option, none, some}
use lilyvm.Base.{List, [], ◌∷◌, ◌++◌, length, take, replicate, ltb, leb, if◌then◌else◌}
use lilyvm.Outcome.{Outcome, done, dies, out_of_val_roots, out_of_ptr_roots}
use lilyvm.Outcome.{no_val_roots_left_to_drop, no_ptr_roots_left_to_drop}
use lilyvm.Value.{uninitialized}

abbrev pub vm_process_num_alloc_areas : ℕ
vm_process_num_alloc_areas = 2

abbrev pub vm_num_val_roots : ℕ
vm_num_val_roots = 4

abbrev pub vm_num_ptr_roots : ℕ
vm_num_ptr_roots = 4

-- `struct vm_stack`: `vals` has `len` elements.
pub record VmStack : Type 0 where
  pub sp : ℕ
  pub len : ℕ
  pub vals : List ℕ

-- The roots are pointers to variables; the model keeps what the variables hold, the number of
-- registered ones being the length of the list. The elements of the arrays from that number on,
-- which unregistering leaves behind, are never read and are left out. `alloc_size` counts bytes.
pub record VmProcess : Type 0 where
  pub a : ℕ
  pub b : ℕ
  pub c : ℕ
  pub d : ℕ
  pub alloc_size : ℕ
  pub alloc_area : ℕ
  pub alloc_area_fresh : ℕ
  pub alloc_ptr : ℕ
  pub gc_count : ℕ
  pub gc_moves : ℕ
  pub val_roots : List ℕ
  pub ptr_roots : List ℕ
  pub stack : VmStack
  pub heap : List ℕ

-- `malloc_process`. The two tests say whether `malloc` gives memory for the areas and for the
-- process; the fills are those of DEBUG_MEM_SET.
unfoldable pub malloc_process : Bool → Bool → ℕ → ℕ → Option VmProcess
malloc_process areas_given process_given stacklen numheapwords =
    if areas_given && process_given
    then some (record {
      a = uninitialized;
      b = uninitialized;
      c = uninitialized;
      d = uninitialized;
      alloc_size = numheapwords * 2;
      alloc_area = 0;
      alloc_area_fresh = numheapwords;
      alloc_ptr = numheapwords;
      gc_count = 0;
      gc_moves = 0;
      val_roots = [];
      ptr_roots = [];
      stack = record { sp = 0; len = stacklen; vals = replicate stacklen 0xCCCC };
      heap = replicate numheapwords 0xAAAA ++ replicate numheapwords 0xBBBB;
    })
    else none

unfoldable pub register_val_root : VmProcess → ℕ → Outcome VmProcess
register_val_root process var =
    if ltb (length process.val_roots) (vm_num_val_roots - 1)
    then done (record process { val_roots = process.val_roots ++ var ∷ [] })
    else dies out_of_val_roots

unfoldable pub register_ptr_root : VmProcess → ℕ → Outcome VmProcess
register_ptr_root process var =
    if ltb (length process.ptr_roots) (vm_num_ptr_roots - 1)
    then done (record process { ptr_roots = process.ptr_roots ++ var ∷ [] })
    else dies out_of_ptr_roots

unfoldable pub unregister_val_roots : VmProcess → ℕ → Outcome VmProcess
unregister_val_roots process n =
    if leb n (length process.val_roots)
    then done (record process { val_roots = take (length process.val_roots - n) process.val_roots })
    else dies no_val_roots_left_to_drop

unfoldable pub unregister_ptr_roots : VmProcess → ℕ → Outcome VmProcess
unregister_ptr_roots process n =
    if leb n (length process.ptr_roots)
    then done (record process { ptr_roots = take (length process.ptr_roots - n) process.ptr_roots })
    else dies no_ptr_roots_left_to_drop
