-- ===== src/Machine/Tests.antt =====
-- The programs of vmtest.c, run on the model.
use lilyvm.Base.{ℕ, ◌/◌, ◌%◌, List, [], ◌∷◌, ◌++◌, none, some, true, take, pos, negsuc}
use lilyvm.Outcome.{Outcome, done, fault, ◌>>=◌}
use lilyvm.Process.{VmProcess, malloc_process}
use lilyvm.Value.{fix}
use lilyvm.Base.{◌≡◌, ◌<◌, arith}
use lilyvm.Heap.Fresh.{IsLaidOut, HasRoom}
use lilyvm.Machine.State.{start}
use lilyvm.Machine.Stack.Contents.{IsValid, contents}
use lilyvm.Heap.Gc.{vm_mem_gc}
use lilyvm.Heap.Gc.Tiles.{Obj}
use lilyvm.Heap.Gc.Promise.{IsNumberHeap, HasRoots, IsCollected}
use lilyvm.Machine.Start.{malloc_process-IsLaidOut}
use lilyvm.Machine.Op.{Op, opcode}
use lilyvm.Machine.Run.{Native, vm_process_run}

abbrev pub no_native : Native
no_native = record {
  offsets = record {
    fib_ret_1 = pos 11;
    fib_ret_2 = pos 22;
    end_calling_conventions = negsuc 7;
    with_registers_ret_1 = pos 33;
    with_registers_ret_2 = pos 44;
  };
  rounds = 1000;
  fib_away = λ i s. fault;
  registers_away = λ i s. fault;
  on_break = λ s. done s;
}

abbrev fresh : ℕ → ℕ → Outcome VmProcess
fresh stacklen heaplen = elim (malloc_process true true stacklen heaplen) [
  | none ↦ fault
  | some p ↦ done p
]

-- `OP`, `OP_IM` and `OP_B` of bytecode.h.
abbrev op : Op → List ℕ
op o = opcode o ∷ []

abbrev op_im : Op → ℕ → List ℕ
op_im o v = opcode o ∷ v % 256 ∷ v / 256 ∷ []

abbrev op_im_b : Op → ℕ → ℕ → List ℕ
op_im_b o v b = opcode o ∷ v % 256 ∷ v / 256 ∷ b ∷ []

abbrev op_b : Op → ℕ → List ℕ
op_b o b = opcode o ∷ b ∷ []

abbrev live_stack : Outcome VmProcess → Outcome (List ℕ)
live_stack m = do p ← m; done (take p.stack.sp p.stack.vals)

abbrev inc_program : List ℕ
inc_program =
    op_im Op.push_im (fix (pos 3))
    ++ (op_im Op.push_im (fix (pos 123)) ++ (op Op.inc ++ op Op.halt))

inc_result : Outcome (List ℕ)
inc_result = live_stack (do p ← fresh 200 28; vm_process_run no_native inc_program 10 p)

-- fib of vmtest.c, started at n.
abbrev fib_program : ℕ → List ℕ
fib_program n =
    op_im Op.push_im (fix (pos n))
    ++ (op_b Op.jsr_rel8 3
        ++ (op Op.halt
            ++ (op Op.swap
                ++ (op_im_b Op.cmpbr_keep_lt_im_rel8 (fix (pos 2)) 14
                    ++ (op Op.dec
                        ++ (op Op.dup
                            ++ (op_b Op.jsr_rel8 249
                                ++ (op Op.swap
                                    ++ (op Op.dec
                                        ++ (op_b Op.jsr_rel8 245
                                            ++ (op Op.add
                                                ++ (op Op.ret_pop
                                                    ++ (op Op.drop1
                                                        ++ (op_im Op.ret_im
                                                            (fix (pos 1))))))))))))))))

fib_result : Outcome (List ℕ)
fib_result = live_stack (do p ← fresh 200 28; vm_process_run no_native (fib_program 6) 1000 p)

fib20 : Outcome (List ℕ)
fib20 = live_stack (do p ← fresh 20 60; vm_process_run no_native (fib_program 19) 200000 p)

-- The compiled programs.
fib_op_program : Op → ℕ → List ℕ
fib_op_program o n = op_im Op.push_im (fix (pos n)) ++ (op_b Op.jsr_rel8 3 ++ (op Op.halt ++ op o))

compiled_result : Op → Outcome (List ℕ)
compiled_result o =
    live_stack (do p ← fresh 200 28; vm_process_run no_native (fib_op_program o 6) 1000 p)

fib_compiled : Outcome (List ℕ)
fib_compiled = compiled_result Op.fib

fib_compiled_registers : Outcome (List ℕ)
fib_compiled_registers = compiled_result Op.fib_with_registers

malloc_process-IsLaidOut_example :
    (p : VmProcess) × (malloc_process true true 200 28 ≡ some p)
    × IsLaidOut p
    × IsNumberHeap p []
    × HasRoots p []
    × ((p' : VmProcess) × (os' : List Obj) × (vm_mem_gc p ≡ done p') × IsCollected p p' os')
    × ((n : ℕ) → n < 28 → HasRoom p n)
    × IsValid (start p)
    × (contents (start p) ≡ [])
malloc_process-IsLaidOut_example =
    malloc_process-IsLaidOut 200 28 (omega arith) (omega arith) (omega arith)
