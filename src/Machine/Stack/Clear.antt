-- ===== src/Machine/Stack/Clear.antt =====
-- The emptying of the stack by vm.c.
use lilyvm.Base.{◌≡◌, refl, arith, []}
use lilyvm.Process.{VmStack, VmProcess}
use lilyvm.Machine.State.{start}
use lilyvm.Machine.Stack.Contents.{contents, IsValid}

abbrev stack_clear : VmStack → VmStack
stack_clear s = record s { sp = 0 }

abbrev vm_process_stack_clear : VmProcess → VmProcess
vm_process_stack_clear process = record process { stack = stack_clear process.stack }

-- A cleared stack is empty, and valid if the stack was.
vm_process_stack_clear-IsValid :
    (p : VmProcess)
    → IsValid (start p)
    → IsValid (start (vm_process_stack_clear p))
      × (contents (start (vm_process_stack_clear p)) ≡ [])
vm_process_stack_clear-IsValid p valid =
    (record { full = valid.full; within = omega arith; narrow = valid.narrow }, refl)
