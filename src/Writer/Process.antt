-- ===== src/Writer/Process.antt =====
-- What vm.c prints of a process, and `bytecode_load_and_run` (bytecode.c), which runs a file and
-- prints what it leaves. The operating system and `malloc` are parameters.
use lilyvm.Base.{ℕ, Bool, true, false, List, [], ◌∷◌, ◌++◌, take, Option, none, some}
use lilyvm.Outcome.{Outcome, done, dies, fault, out_of_memory, ◌>>=◌}
use lilyvm.Process.{VmProcess, malloc_process}
use lilyvm.Heap.{allocated_from_pointer}
use lilyvm.Command.{Text, decimal}
use lilyvm.Writer.{scm_write}
use lilyvm.Machine.Run.{Native, vm_process_run}
use lilyvm.Base.{◌-◌}

abbrev pub text_gap : Text
text_gap = b' ' ∷ []

abbrev pub text_a : Text
text_a = b'A' ∷ b'=' ∷ []

abbrev pub text_b : Text
text_b = b'B' ∷ b'=' ∷ []

abbrev pub text_c : Text
text_c = b'C' ∷ b'=' ∷ []

abbrev pub text_d : Text
text_d = b'D' ∷ b'=' ∷ []

abbrev pub text_loading : Text
text_loading =
    b'L' ∷ b'o' ∷ b'a' ∷ b'd' ∷ b'i' ∷ b'n' ∷ b'g' ∷ b' ' ∷ b'a' ∷ b'n' ∷ b'd' ∷ b' ' ∷ b'r' ∷ b'u'
    ∷ b'n' ∷ b'n' ∷ b'i' ∷ b'n' ∷ b'g' ∷ b' ' ∷ 39 ∷ []

abbrev pub text_dots : Text
text_dots = 39 ∷ b'.' ∷ b'.' ∷ b'.' ∷ 10 ∷ []

abbrev pub text_gc_count : Text
text_gc_count = b'g' ∷ b'c' ∷ b'_' ∷ b'c' ∷ b'o' ∷ b'u' ∷ b'n' ∷ b't' ∷ b' ' ∷ b'=' ∷ b' ' ∷ []

abbrev pub text_gc_moves : Text
text_gc_moves =
    b',' ∷ b' ' ∷ b'g' ∷ b'c' ∷ b'_' ∷ b'm' ∷ b'o' ∷ b'v' ∷ b'e' ∷ b's' ∷ b' ' ∷ b'=' ∷ b' ' ∷ []

abbrev pub text_stack : Text
text_stack = b's' ∷ b't' ∷ b'a' ∷ b'c' ∷ b'k' ∷ b' ' ∷ b'=' ∷ b' ' ∷ []

abbrev pub text_registers : Text
text_registers =
    10 ∷ b'r' ∷ b'e' ∷ b'g' ∷ b'i' ∷ b's' ∷ b't' ∷ b'e' ∷ b'r' ∷ b's' ∷ b':' ∷ 10 ∷ b' ' ∷ b' ' ∷ []

abbrev pub text_next : Text
text_next = 10 ∷ b' ' ∷ b' ' ∷ []

-- What `mmap` gives: the bytes that can be read at the address, `MAP_FAILED`, or a null pointer.
pub data Mapping : Type 0 where
  mapped : List ℕ → Mapping
  map_failed null : Mapping

-- The calls of the operating system, and of `malloc`: which of them succeed, and with what.
pub record System : Type 0 where
  pub open_file : Text → Option ℕ
  pub fstat : ℕ → Option ℕ
  pub mmap : ℕ → ℕ → Mapping
  pub areas_given : Bool
  pub process_given : Bool

-- `LET_NEW_VM_PROCESS`, with what is done with the process.
abbrev pub let_new_vm_process {ℓ} :
    {A : Type ℓ} → Option VmProcess → (VmProcess → Outcome A) → Outcome A
let_new_vm_process none body = dies out_of_memory
let_new_vm_process (some process) body = body process

-- `VALARRAY_WRITE`
unfoldable pub valarray_loop : (ℕ → Outcome Text) → List ℕ → Outcome Text
valarray_loop write [] = done []
valarray_loop write (v ∷ []) = write v
valarray_loop write (v ∷ w ∷ vals) = do
  text ← write v
  rest ← valarray_loop write (w ∷ vals)
  done (text ++ b' ' ∷ rest)

unfoldable pub valarray_write : (ℕ → Outcome Text) → List ℕ → Outcome Text
unfolding valarray_loop
valarray_write write vals = do text ← valarray_loop write vals; done (b'(' ∷ text ++ b')' ∷ [])

module _ (on_break : Outcome (Unit {0})) (fuel : ℕ) where
  unfoldable pub vm_process_stack_write : VmProcess → Outcome Text
  unfolding valarray_write scm_write allocated_from_pointer
  vm_process_stack_write process = do
    let write : ℕ → Outcome Text = scm_write on_break fuel process
    let write_ptr : ℕ → Outcome Text =
        (λ ptr. do v ← allocated_from_pointer process (ptr - 1); write v)
    stack ← valarray_write write (take process.stack.sp process.stack.vals)
    vals ← valarray_write write process.val_roots
    ptrs ← valarray_write write_ptr process.ptr_roots
    done (stack ++ text_gap ++ vals ++ text_gap ++ ptrs)

  unfoldable pub vm_process_registers_write : VmProcess → Text → Outcome Text
  unfolding scm_write
  vm_process_registers_write process separator = do
    let write : ℕ → Outcome Text = scm_write on_break fuel process
    a ← write process.a
    b ← write process.b
    c ← write process.c
    d ← write process.d
    done (
        text_a ++ a ++ separator ++ text_b ++ b ++ separator ++ text_c ++ c ++ separator ++ text_d
        ++ d)

  -- What is printed behind a run.
  unfoldable pub report : VmProcess → Outcome Text
  unfolding vm_process_stack_write vm_process_registers_write decimal
  report process = do
    stack ← vm_process_stack_write process
    registers ← vm_process_registers_write process text_next
    done (
        text_gc_count
        ++ decimal 10 process.gc_count
        ++ text_gc_moves
        ++ decimal 20 process.gc_moves
        ++ 10 ∷ text_stack
        ++ stack
        ++ text_registers
        ++ registers
        ++ 10 ∷ [])

  unfoldable pub run_mapping : Native → System → ℕ → ℕ → ℕ → Mapping → Outcome (Text × Bool)
  unfolding report
  run_mapping native system rounds stacklen heaplen null = done ([], false)
  -- The address is no program's.
  run_mapping native system rounds stacklen heaplen map_failed =
      let_new_vm_process (malloc_process system.areas_given system.process_given stacklen heaplen)
        (λ process. fault)
  run_mapping native system rounds stacklen heaplen (mapped code) =
      let_new_vm_process (malloc_process system.areas_given system.process_given stacklen heaplen)
        (λ process. do
          process' ← vm_process_run native code rounds process
          text ← report process'
          done (text, true))

  unfoldable pub bytecode_load_and_run : Native → System → ℕ → Text → ℕ → ℕ → Outcome (Text × Bool)
  unfolding run_mapping
  bytecode_load_and_run native system rounds path stacklen heaplen =
      let said = text_loading ++ path ++ text_dots in
      elim (system.open_file path) [
        | none ↦ done (said, false)
        | some fd ↦ elim (system.fstat fd) [
          | none ↦ done (said, false)
          | some size ↦ (do
            (text, success) ←
                run_mapping native system rounds stacklen heaplen (system.mmap fd size)
            done (said ++ text, success))
        ]
      ]
