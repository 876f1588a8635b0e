-- ===== src/Writer/Tests.antt =====
-- `bytecode_load_and_run` on the file of the naive Fibonacci program for 16.
use lilyvm.Base.{
  to_word, ℕ, ◌+◌, ◌≡◌, refl, sym, ap, ◌∙◌, arith, List, [], ◌∷◌, ◌++◌, replicate, some, true,
}
use mathlib.Core.Path.{subst}
use lilyvm.Outcome.{Outcome, done}
use lilyvm.Value.{fix}
use lilyvm.Command.{Text, decimal}
use lilyvm.Machine.Assembler.{Program}
use lilyvm.Machine.Assembler.Reads.{assemble_all, assemble_all-Placed, Placed}
use lilyvm.Machine.Tests.{no_native}
use lilyvm.Machine.Fib.{naive_program}
use lilyvm.Machine.Fib.Naive.{naive_program-AreInstructions}
use lilyvm.Writer.Process.{System, mapped, text_loading, text_dots, bytecode_load_and_run}
use lilyvm.Writer.Reports.{Provides, report_on, bytecode_load_and_run-naive_program}

abbrev code_of : Outcome Program → List ℕ
code_of (done program) = program.code
code_of o = []

-- The bytes of the program.
abbrev pub file : List ℕ
file =
    14 ∷ 135 ∷ 0 ∷ 85 ∷ 3 ∷ 255 ∷ 17 ∷ 100 ∷ 23 ∷ 0 ∷ 14 ∷ 25 ∷ 18 ∷ 85 ∷ 249 ∷ 17 ∷ 25 ∷ 85 ∷ 245
    ∷ 30 ∷ 88 ∷ 15 ∷ 87 ∷ 15 ∷ 0 ∷ []

assembled_file :
    code_of (assemble_all (naive_program 16) (record { code = replicate 25 0; pc = 0 })) ≡ file
unfolding assemble_all fix to_word
assembled_file = refl

pub file-Placed : Placed (naive_program 16) 0 file
file-Placed =
    let (code, assembled, placed, _, _) =
      assemble_all-Placed (naive_program 16) (replicate 25 0) 0 (naive_program-AreInstructions 16)
        (omega arith) in
    subst (λ c. Placed (naive_program 16) 0 c) (sym (ap code_of assembled) ∙ assembled_file) placed

abbrev pub path : Text
path = b'f' ∷ b'i' ∷ b'b' ∷ []

abbrev pub system : System
system = record {
  open_file = λ name. some 3;
  fstat = λ fd. some 25;
  mmap = λ fd size. mapped file;
  areas_given = true;
  process_given = true;
}

pub provided : Provides system path file
provided = record {
  fd = 3;
  length_of_file = 25;
  opens = refl;
  stats = refl;
  maps = refl;
  areas = refl;
  process = refl;
}

bytecode_load_and_run-naive_program_example :
    (rounds : ℕ) × ((more : ℕ)
      → bytecode_load_and_run (done tt) 1 no_native system (rounds + more) path 200 28
        ≡ done (text_loading ++ path ++ text_dots ++ report_on (decimal 5 1597), true))
bytecode_load_and_run-naive_program_example =
    bytecode_load_and_run-naive_program (done tt) 0 no_native system path file 16 200 28 provided
      file-Placed (omega arith) (omega arith) (omega arith) (omega arith) (omega arith)
