-- ===== src/Command/Main.antt =====
-- `main` of lilyvm.c: the options are read, and the files are run in order, each of them by
-- `bytecode_load_and_run` in a process of its own. The text that `help` prints is left out.
use lilyvm.Base.{ℕ, suc, Bool, false, List, [], ◌∷◌, ◌++◌, if◌then◌else◌}
use lilyvm.Outcome.{Outcome, done, fault, ◌>>=◌}
use lilyvm.Machine.Run.{Native}
use lilyvm.Writer.Process.{System, bytecode_load_and_run}
use lilyvm.Command.{Text, Parsed, parsed, helps, undefined, Settings, parse_args, defaults}

-- The end of the program: the files that were run, what their runs printed, and the exit code.
pub record Exit : Type 0 where
  pub ran : List Text
  pub printed : Text
  pub code : ℕ

-- `systems` is what the operating system and `malloc` do in the run of each file, counted from 0.
module _ (on_break : Outcome (Unit {0})) (fuel : ℕ) (native : Native) (systems : ℕ → System)
    (rounds : ℕ) where
  -- The run of the file with this number.
  abbrev pub load_file : ℕ → Text → ℕ → ℕ → Outcome (Text × Bool)
  load_file i path stacklen heaplen =
      bytecode_load_and_run on_break fuel native (systems i) rounds path stacklen heaplen

  unfoldable pub run_files : ℕ → Settings → List Text → Outcome Exit
  unfolding bytecode_load_and_run
  run_files i s [] = done (record { ran = []; printed = []; code = 0 })
  run_files i s (path ∷ paths) = do
    let rest : Outcome Exit = run_files (suc i) s paths
    (text, success) ← load_file i path s.stacklen s.heaplen
    if success
        then (do e ← rest; done (record e { ran = path ∷ e.ran; printed = text ++ e.printed }))
        else done (record { ran = path ∷ []; printed = text; code = 1 })

  -- A value that `atoi` gives no defined result for is undefined in C.
  unfoldable pub exit_with : Parsed Settings → Outcome Exit
  unfolding run_files
  exit_with (parsed s) = run_files 0 s s.paths
  exit_with undefined = fault
  exit_with _ = done (record { ran = []; printed = []; code = 1 })

  -- `main` on the arguments behind the program's name.
  unfoldable pub main : List Text → Outcome Exit
  unfolding parse_args exit_with
  main [] = exit_with helps
  main (arg ∷ args) = exit_with (parse_args false defaults (arg ∷ args))
