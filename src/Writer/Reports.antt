-- ===== src/Writer/Reports.antt =====
-- `bytecode_load_and_run` on the file of a Fibonacci program: what it prints.
use lilyvm.Base.{ℕ, zero, suc, ◌+◌, ◌*◌, ◌^◌, ◌≤◌, ◌<◌, ◌≡◌, refl, ap, ◌∙◌, arith, pos, true}
use lilyvm.Base.{List, [], ◌∷◌, ◌++◌, length, take, Option, none, some}
use mathlib.Core.Path.{subst}
use lilyvm.Outcome.{Outcome, done}
use lilyvm.Value.{fix, uninitialized}
use lilyvm.Process.{VmProcess, malloc_process}
use lilyvm.Command.{Text, decimal}
use lilyvm.Machine.State.{start}
use lilyvm.Machine.Stack.Contents.{tops, contents, IsValid, length-tops}
use lilyvm.Machine.Assembler.Reads.{Placed}
use lilyvm.Machine.Run.{Native, vm_process_run}
use lilyvm.Machine.Start.{malloc_process-IsLaidOut, malloc_process-len}
use lilyvm.Machine.Halts.{emptied, malloc_process-IsVerified}
use lilyvm.Machine.Fib.{fib, naive_program}
use lilyvm.Machine.Fib.Naive.{naive_program-RunsTo}
use lilyvm.Writer.{text_uninitialized, text_null}
use lilyvm.Writer.Immediate.{scm_write-fix, scm_write-uninitialized}
use lilyvm.Writer.Process.{
  System, mapped, text_gap, text_a, text_b, text_c, text_d, text_loading, text_dots, text_gc_count,
  text_gc_moves, text_stack, text_registers, text_next, valarray_write, valarray_loop,
  vm_process_stack_write, vm_process_registers_write, report, run_mapping, bytecode_load_and_run,
}

-- The report on a process whose registers are fresh, without roots and collections, and with one
-- value on the stack.
abbrev pub report_on : Text → Text
report_on top =
    text_gc_count
    ++ b'0' ∷ text_gc_moves
    ++ b'0' ∷ 10 ∷ text_stack
    ++ ((b'(' ∷ top ++ b')' ∷ []) ++ text_gap ++ text_null ++ text_gap ++ text_null)
    ++ text_registers
    ++ (text_a ++ text_uninitialized ++ text_next ++ text_b ++ text_uninitialized ++ text_next
        ++ text_c ++ text_uninitialized ++ text_next ++ text_d ++ text_uninitialized)
    ++ 10 ∷ []

-- What is fresh in a process.
pub record IsUntouched (p : VmProcess) : Type 0 where
  pub a : p.a ≡ uninitialized
  pub b : p.b ≡ uninitialized
  pub c : p.c ≡ uninitialized
  pub d : p.d ≡ uninitialized
  pub gc_count : p.gc_count ≡ 0
  pub gc_moves : p.gc_moves ≡ 0
  pub val_roots : p.val_roots ≡ []
  pub ptr_roots : p.ptr_roots ≡ []

take-one : (n x : ℕ) (vals : List ℕ) → n ≤ length vals → tops n vals ≡ x ∷ [] → take n vals ≡ x ∷ []
take-one zero x vals h e = cc
take-one (suc zero) x [] h e = absurd (omega arith)
take-one (suc zero) x (v ∷ vals) h e = e
take-one (suc (suc n)) x vals h e =
    absurd (omega (arith, length-tops (suc (suc n)) vals, ap length e))

module _ (on_break : Outcome (Unit {0})) (fuel : ℕ) where
  report_lem :
      (p : VmProcess) (m : ℕ)
      → IsUntouched p
      → IsValid (start p)
      → contents (start p) ≡ fix (pos m) ∷ []
      → m ≤ 4095
      → report on_break (suc fuel) p ≡ done (report_on (decimal 5 m))
  unfolding report vm_process_stack_write vm_process_registers_write valarray_write valarray_loop
      decimal
  report_lem p m fresh valid top small =
      rw
        (
          take-one p.stack.sp (fix (pos m)) p.stack.vals (omega (arith, valid.full, valid.within))
              top,
          scm_write-fix on_break fuel p m small,
          fresh.val_roots,
          fresh.ptr_roots,
          fresh.a,
          fresh.b,
          fresh.c,
          fresh.d,
          scm_write-uninitialized on_break fuel p,
          fresh.gc_count,
          fresh.gc_moves,
        )
        refl

abbrev AllUntouched : Option VmProcess → Type 0
AllUntouched none = Unit
AllUntouched (some p) = IsUntouched p

malloc_process-IsUntouched :
    (stacklen heaplen : ℕ) (p : VmProcess)
    → malloc_process true true stacklen heaplen ≡ some p
    → IsUntouched p
unfolding malloc_process
malloc_process-IsUntouched stacklen heaplen p e = subst AllUntouched e (record {
  a = refl;
  b = refl;
  c = refl;
  d = refl;
  gc_count = refl;
  gc_moves = refl;
  val_roots = refl;
  ptr_roots = refl;
})

emptied-IsUntouched : (p p' : VmProcess) → IsUntouched p → emptied p' ≡ emptied p → IsUntouched p'
emptied-IsUntouched p p' u e = record {
  a = ap (λ q. q.a) e ∙ u.a;
  b = ap (λ q. q.b) e ∙ u.b;
  c = ap (λ q. q.c) e ∙ u.c;
  d = ap (λ q. q.d) e ∙ u.d;
  gc_count = ap (λ q. q.gc_count) e ∙ u.gc_count;
  gc_moves = ap (λ q. q.gc_moves) e ∙ u.gc_moves;
  val_roots = ap (λ q. q.val_roots) e ∙ u.val_roots;
  ptr_roots = ap (λ q. q.ptr_roots) e ∙ u.ptr_roots;
}

-- The system opens the file, and gives its bytes and the memory.
pub record Provides (system : System) (path : Text) (code : List ℕ) : Type 0 where
  pub fd : ℕ
  pub length_of_file : ℕ
  pub opens : system.open_file path ≡ some fd
  pub stats : system.fstat fd ≡ some length_of_file
  pub maps : system.mmap fd length_of_file ≡ mapped code
  pub areas : system.areas_given ≡ true
  pub process : system.process_given ≡ true

load_lem :
    (on_break : Outcome (Unit {0})) (fuel : ℕ) (native : Native) (system : System) (path : Text)
    (code : List ℕ) (rounds stacklen heaplen : ℕ) (p p' : VmProcess) (text : Text)
    → Provides system path code
    → malloc_process true true stacklen heaplen ≡ some p
    → vm_process_run native code rounds p ≡ done p'
    → report on_break fuel p' ≡ done text
    → bytecode_load_and_run on_break fuel native system rounds path stacklen heaplen
      ≡ done (text_loading ++ path ++ text_dots ++ text, true)
unfolding bytecode_load_and_run run_mapping
load_lem on_break fuel native system path code rounds stacklen heaplen p p' text given made runs
      said =
    rw
      (
        bytecode_load_and_run, given.opens, given.stats, given.maps, given.areas, given.process,
        made, runs, said,
      )
      refl

-- `bytecode_load_and_run` on a file that begins with the naive program for `n`, if the system
-- opens and maps the file and gives memory, prints the Fibonacci number of `n` in decimal as the
-- only value on the stack, between the lines on the loading, the collections (none) and the
-- registers (all fresh), and succeeds, with all rounds from some number on: if the number is a
-- fixnum, if the stack has room for 2 * n + 2 values and its bound 16 bits, and for areas of 1 to
-- 32768 words.
pub bytecode_load_and_run-naive_program :
    (on_break : Outcome (Unit {0})) (fuel : ℕ) (native : Native) (system : System) (path : Text)
    (code : List ℕ) (n stacklen heaplen : ℕ)
    → Provides system path code
    → Placed (naive_program n) 0 code
    → fib n ≤ 4095
    → 2 * n + 2 ≤ stacklen
    → stacklen < 2 ^ 16
    → 0 < heaplen
    → heaplen ≤ 2 ^ 15
    → (rounds : ℕ) × ((more : ℕ)
        → bytecode_load_and_run on_break
            (suc fuel)
            native
            system
            (rounds + more)
            path
            stacklen
            heaplen
          ≡ done (text_loading ++ path ++ text_dots ++ report_on (decimal 5 (fib n)), true))
bytecode_load_and_run-naive_program on_break fuel native system path code n stacklen heaplen given
      placed in_range deep narrow some_words small =
    let (p, made, _, _, _, _, _, valid, empty) =
      malloc_process-IsLaidOut stacklen heaplen some_words small narrow in
    let r =
      naive_program-RunsTo native code p n placed valid
        (malloc_process-IsVerified stacklen heaplen p some_words made) in_range
        (omega (arith, ap length empty, malloc_process-len stacklen heaplen p made)) in
    let untouched =
      emptied-IsUntouched p r.result (malloc_process-IsUntouched stacklen heaplen p made) r.frame in
    let printed =
      report_lem on_break fuel r.result (fib n) untouched r.valid
        (r.holds ∙ ap (λ xs. fix (pos (fib n)) ∷ xs) empty) in_range in
    (
      r.fuel,
      λ more.
          load_lem on_break (suc fuel) native system path code (r.fuel + more) stacklen heaplen p
            r.result (report_on (decimal 5 (fib n))) given made (r.runs more) printed,
    )
