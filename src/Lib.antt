-- ===== src/Lib.antt =====
-- LilyVM, a byte code machine for Scheme with 16-bit values (the C files of the repository's root).
--
-- The program's parts and the files that model them:
--
-- - Word and Value: words and tagged values, the macros of vm_mem.h (`FIX`, `INT`, `PCNUM`, `CHAR`,
--   the `is_*` tests). A `val` is a number below 2 ^ 16; a C `int` is an integer ℤ (Base).
-- - Bignum: the word loops of `bignum_add`, `bignum_cmp` and `bignum_equal` (vm_mem.c) on lists of
--   words, the lowest word first. Bignum.Meaning says which integer a list stands for.
-- - Outcome: how a C function ends: it returns, it ends the program (`DIE`, `ERROR`, `ASSERT`), or
--   it does what C leaves undefined (`fault`).
-- - Process: `struct vm_process` and its stacks of roots (vm_process.h, vm_process.c). The block of
--   both allocation areas is one list of words and a pointer into it is an index.
-- - Heap: pointers and heads of objects (vm_mem.h); Heap.Gc is `vm_mem_gc` and Heap.Alloc is
--   `vm_process_alloc` with its slow path (vm_mem.c). The files below Heap.Gc follow a collection:
--   Tiles and Invariant say how objects lie in the two areas and what holds between two moves,
--   Move and Slot are one object and one slot, Roots and Walk the loops, Promise and Collect the
--   whole; Lower and Allocate are an allocation, Steps and Rounds the rounds that the loops take.
-- - Number: the bignum operations over the heap (Number.Bignums), the macros that dispatch on the
--   kinds of numbers (Number.Dispatch) and the `scm_*` functions (Number.Scm). Number.Value says
--   which integer a value stands for.
-- - Machine: the interpreter. Machine.Op holds the dispatch table of _opcode_dispatch.h and the
--   constants of opcode_constants.h, Machine.State the registers and the macros that save them,
--   Machine.Stack the stack macros of vm.c, Machine.Ops the operations by groups, and Machine.Run
--   the loop of `vm_process_run`. Machine.Assembler is the macros of bytecode.h that write programs.
--   Machine.Stack.Known is the stack macros where the contents are known, Machine.Trace the chains
--   of operations, Machine.Effects what single instructions do to a machine of which the stack is
--   known, Machine.Halts and Machine.Fresh whole runs, from the text of a program to its result.
--   Machine.Fib holds the Fibonacci programs of vmtest.c, each as a list of instructions; a negative
--   offset stands there as the byte that it is stored as. Below Machine.Fib each program has a file.
-- - Command: the options of lilyvm.c, which rest on `atoi`, `strcmp` and `snprintf` of C, which are
--   modelled; Command.Main is `main`, which runs each file by `bytecode_load_and_run` of Writer.
-- - Writer: what vm_mem.c prints of values (`scm_write` and its helpers); Writer.Process is what vm.c
--   prints of a process, and `bytecode_load_and_run` of bytecode.c, which maps a file, runs it and
--   prints what it leaves. The calls of the operating system and of `malloc` are parameters.
--
-- The interpreter keeps copies of the registers A to D and of the stack pointer; an operation that
-- may allocate stores them in the process, calls a function of Number on the process, which may
-- allocate through Heap, and restores them. The collector finds its roots in the process.
--
-- Choices of the model. The machine is little-endian, as the heads need that are written as words
-- and read as bytes. Roots are registered as pointers to variables; the model keeps the contents of
-- the registered variables. VM_TRACE is off, DEBUG_MEM_SET and DEBUG_MEM_VERIFY are on, and `ASSERT`
-- and `DIE` of the library chj-64lib end the program. The walks of the collector have a round for
-- each word of the block, and one more, since each round goes up by two words or more; `scm_length`
-- and `vm_process_run` take their rounds as an argument, as they need not end; so does `scm_write`,
-- which does not end on circular data.
--
-- The results on collections are about heaps of bignums: the operations of the interpreter make no
-- other objects, pairs come from `scm_cons` alone, which no operation calls. A bignum has fewer than
-- 30 words there, as the collector asserts it of every object that it moves.
--
-- The operations `fib` and `fib_with_registers` are whole programs, which return to addresses of the
-- C compiler's. Machine.Ops.Fib takes the offsets of the labels as parameters, what lies at any other
-- address too, and a number of jumps after which the model gives up: `fib` of n takes 4 * fib n - 4.
-- The README (Status) and a comment at `fib_with_registers` report that it breaks where g++, or gcc
-- with optimisation, has compiled it. The model is of the source: what a compiler makes of the labels
-- is in the parameters, one offset for each label. The source needs offsets that are apart and within
-- 4095 bytes, and does not test them: `FIX` cuts a greater offset. Machine.Fib.CompiledRegisters.Far
-- is about that case.
--
-- Not modelled: `BREAK()` of chj-64lib (a parameter); the messages on the standard error; the writing
-- of byte code files, which is calls of the operating system only; tracing; the variants for old home
-- computers; the programs of vmtest.c that are a few operations each; the Scheme files that generate
-- the operations.
pub mod Base
pub mod Word
pub mod Value
pub mod Bignum
pub mod Outcome
pub mod Process
pub mod Heap
pub mod Number
pub mod Machine
pub mod Command
pub mod Writer
