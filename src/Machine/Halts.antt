-- ===== src/Machine/Halts.antt =====
-- Whole runs of `vm_process_run`: a program runs from its first byte to a `HALT`.
use lilyvm.Base.{ℕ, suc, ◌+◌, ◌≡◌, refl, ap, ◌∙◌, arith, List}
use lilyvm.Base.{zero, ◌<◌, Option, some, none, true}
use mathlib.Core.Path.{subst}
use lilyvm.Outcome.{done}
use lilyvm.Process.{VmProcess, malloc_process}
use lilyvm.Machine.Op.{Op}
use lilyvm.Machine.State.{Machine, start, store_all}
use lilyvm.Machine.Stack.Contents.{contents, rest, IsValid}
use lilyvm.Machine.Assembler.Reads.{plain}
use lilyvm.Machine.Run.{Native, exec, run, vm_process_run}
use lilyvm.Machine.Effects.Moves.{Stands}
use lilyvm.Machine.Trace.{At, others, IsVerified, Leads, run-Reaches, At-IsVerified, step_lem}

-- A process without what is on its stack.
abbrev pub emptied : VmProcess → VmProcess
emptied p = (rest (start p)).process

-- From `p` enough fuel gives a process that differs from `q` only in the stack, which holds `ys`.
pub record RunsTo (native : Native) (code : List ℕ) (p q : VmProcess) (ys : List ℕ) : Type 0 where
  pub result : VmProcess
  pub fuel : ℕ
  pub runs : (more : ℕ) → vm_process_run native code (fuel + more) p ≡ done result
  pub holds : contents (start result) ≡ ys
  pub valid : IsValid (start result)
  pub frame : emptied result ≡ emptied q

pub others-start : (p : VmProcess) → (others (start p)).process ≡ emptied p
unfolding others store_all
others-start p = refl

module _ (native : Native) (code : List ℕ) where
  halt_lem :
      {base : Machine} {pc : ℕ} {xs : List ℕ} (s : Machine)
      → At base pc xs s
      → IsVerified base
      → Stands (plain Op.halt) pc code
      → (more : ℕ) → run native code (suc more) s ≡ done (store_all s).process
  unfolding run exec
  halt_lem s h v reads more =
      rw (step_lem native code s Op.halt (At-IsVerified h v) (reads s h.at) refl) refl

  pub Leads-RunsTo :
      (p q : VmProcess) (base : Machine) {pc : ℕ} {ys : List ℕ}
      → (others base).process ≡ emptied q
      → IsValid (start p)
      → IsVerified base
      → Stands (plain Op.halt) pc code
      → Leads native code (start p) 0 (contents (start p)) base pc ys
      → RunsTo native code p q ys
  unfolding vm_process_run others store_all
  Leads-RunsTo p q base e valid v reads leads =
      let (s, r, h) =
        leads.goes (start p) (record { valid = valid; at = refl; holds = refl; frame = refl }) in
      let (k, goes_on) = run-Reaches native code r in
      record {
        result = (store_all s).process;
        fuel = k + 1;
        runs = λ more.
            let more_fuel : k + 1 + more ≡ k + suc more = omega arith in
            rw more_fuel (goes_on (suc more) ∙ halt_lem s h v reads more);
        holds = h.holds;
        valid = record { full = h.valid.full; within = h.valid.within; narrow = h.valid.narrow };
        frame = ap (λ t. t.process) h.frame ∙ e;
      }

abbrev AllVerified : Option VmProcess → Type 0
AllVerified none = Unit
AllVerified (some p) = IsVerified (start p)

-- The process of `malloc_process` passes the test of the dispatch.
pub malloc_process-IsVerified :
    (stacklen numheapwords : ℕ) (p : VmProcess)
    → 0 < numheapwords
    → malloc_process true true stacklen numheapwords ≡ some p
    → IsVerified (start p)
unfolding malloc_process
malloc_process-IsVerified stacklen zero p some_words e = absurd (omega arith)
malloc_process-IsVerified stacklen (suc n) p some_words e = subst AllVerified e refl
