-- ===== src/Command/Tests.antt =====
-- Option values, and two files of which the first is the naive Fibonacci program for 16 and the second
-- cannot be opened.
use lilyvm.Base.{ℕ, zero, ◌+◌, ◌^◌, ◌<◌, ◌≡◌, ◌↔◌, arith, List, [], ◌∷◌, ◌++◌, none, some}
use lilyvm.Outcome.{done}
use lilyvm.Machine.Tests.{no_native}
use lilyvm.Writer.Process.{System, text_loading, text_dots}
use lilyvm.Writer.Reports.{report_on}
use lilyvm.Writer.Tests.{file, path, system, provided, file-Placed}
use lilyvm.Command.{Text, parsed, parse_uint16, print_uint16, decimal, defaults}
use lilyvm.Command.Number.{parse_uint16_iff}
use lilyvm.Command.Options.{Setting, short_stack, long_heap, arguments, apply_all}
use lilyvm.Command.Main.{main}
use lilyvm.Command.Runs.{IsRun, loaded, main-IsRun, main-naive_program}

parse_uint16_iff_example :
    (parse_uint16 (b'2' ∷ b'5' ∷ b'6' ∷ []) ≡ parsed (some 256))
    ↔ ((256 < 2 ^ 16) × (b'2' ∷ b'5' ∷ b'6' ∷ [] ≡ print_uint16 256))
parse_uint16_iff_example = parse_uint16_iff (b'2' ∷ b'5' ∷ b'6' ∷ []) 256

-- The first file can be opened, no other.
abbrev systems : ℕ → System
systems zero = system
systems _ = record system { open_file = λ name. none }

abbrev settings : List Setting
settings = short_stack 300 ∷ long_heap 4096 ∷ short_stack 256 ∷ []

abbrev files : List Text
files = path ∷ (b'b' ∷ b'b' ∷ []) ∷ (b'c' ∷ []) ∷ []

main-IsRun_example :
    IsRun
      (loaded (done tt) 1 no_native systems 200000 (apply_all settings defaults))
      0
      files
      (main (done tt) 1 no_native systems 200000 (arguments settings files))
main-IsRun_example =
    main-IsRun (done tt) 1 no_native systems 200000 settings files
      (omega arith, (omega arith, (omega arith, tt)))

main-naive_program_example :
    (rounds : ℕ) × ((more : ℕ)
      → main (done tt) 1 no_native systems (rounds + more) (arguments settings (path ∷ []))
        ≡ done (record {
          ran = path ∷ [];
          printed = text_loading ++ path ++ text_dots ++ report_on (decimal 5 1597);
          code = 0;
        }))
main-naive_program_example =
    main-naive_program (done tt) 0 no_native systems settings path file 16
      (omega arith, (omega arith, (omega arith, tt))) provided file-Placed (omega arith)
      (omega arith) (omega arith) (omega arith)
