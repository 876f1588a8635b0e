-- ===== src/Heap/Alloc.antt =====
-- Allocation: `vm_process_alloc` (vm_mem.h) and `_vm_process_alloc_slow` (vm_mem.c).
use lilyvm.Base.{ℕ, ◌+◌, ◌-◌, leb, if◌then◌else◌, replicate}
use lilyvm.Outcome.{Outcome, done, dies, out_of_memory, ◌>>=◌}
use lilyvm.Process.{VmProcess}
use lilyvm.Heap.{store_words}
use lilyvm.Heap.Gc.{vm_mem_gc}

-- Both paths: the pointer goes down by `n` words and must stay above the start of the area; the
-- words are filled with 0x99 bytes. `refused` is what happens where it does not.
unfoldable pub bump : VmProcess → ℕ → Outcome (ℕ × VmProcess) → Outcome (ℕ × VmProcess)
unfolding store_words
bump process n refused =
    let ptr = process.alloc_ptr - n in
    if leb process.alloc_ptr (process.alloc_area + n) then refused else (do
      heap ← store_words process.heap ptr (replicate n 0x9999)
      done (ptr, record process { alloc_ptr = ptr; heap = heap }))

-- `_vm_process_alloc_slow`: collect, and try once more.
unfoldable pub vm_process_alloc_slow : VmProcess → ℕ → Outcome (ℕ × VmProcess)
unfolding vm_mem_gc bump
vm_process_alloc_slow process n = do
  process' ← vm_mem_gc process
  bump process' n (dies out_of_memory)

unfoldable pub vm_process_alloc : VmProcess → ℕ → Outcome (ℕ × VmProcess)
unfolding vm_process_alloc_slow bump
vm_process_alloc process n = bump process n (vm_process_alloc_slow process n)
