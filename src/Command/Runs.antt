-- ===== src/Command/Runs.antt =====
-- The files that `main` runs, and how it ends.
use lilyvm.Base.{
  ℕ, suc, ◌+◌, ◌*◌, ◌^◌, ◌≤◌, ◌<◌, ◌≡◌, refl, sym, ap, ◌∙◌, ◌⊎◌, inl, inr, arith, Bool, true, false,
  List, [], ◌∷◌, ◌++◌, length, if◌then◌else◌,
}
use mathlib.Core.Path.{subst}
use mathlib.Core.List.{append-nil, append_assoc}
use lilyvm.Outcome.{Outcome, done, dies, fault, hangs, ◌>>=◌}
use lilyvm.Machine.Run.{Native}
use lilyvm.Machine.Assembler.Reads.{Placed}
use lilyvm.Machine.Fib.{fib, naive_program}
use lilyvm.Writer.Process.{System, text_loading, text_dots}
use lilyvm.Writer.Reports.{Provides, report_on, bytecode_load_and_run-naive_program}
use lilyvm.Command.{Text, decimal, Settings, parse_args, parsed, defaults}
use lilyvm.Command.Main.{Exit, load_file, run_files, exit_with, main}
use lilyvm.Command.Options.{
  Setting, arguments, AreShort, apply_all, parse_args-arguments, apply_all-paths,
  apply_all-stacklen,
}

-- The texts one behind the other.
abbrev pub all_texts : List Text → Text
all_texts [] = []
all_texts (t ∷ ts) = t ++ all_texts ts

-- The program ends as the run of a file does that gives no result.
abbrev pub StopsAs : Outcome (Text × Bool) → Outcome Exit → Type 0
StopsAs (done r) o = ⊥
StopsAs (dies e) o = o ≡ dies e
StopsAs fault o = o ≡ fault
StopsAs hangs o = o ≡ hangs

-- After the files `before`, which printed `texts`, the run of `p` ends the program: it has no success,
-- and the code is 1, or it gives no result.
abbrev pub EndsAt : Outcome (Text × Bool) → List Text → Text → List Text → Outcome Exit → Type 0
EndsAt r before p texts o =
    ((text : Text) × (r ≡ done (text, false))
      × (o ≡ done (record { ran = before ++ p ∷ []; printed = all_texts texts ++ text; code = 1 })))
    ⊎ StopsAs r o

-- The program's end, with one more file in front.
abbrev ahead : Text → Text → Outcome Exit → Outcome Exit
ahead p t o = do e ← o; done (record e { ran = p ∷ e.ran; printed = t ++ e.printed })

-- What `run_files` does behind the run of a file.
abbrev follow : Text → Outcome (Text × Bool) → Outcome Exit → Outcome Exit
follow p r rest = do
  (t, success) ← r
  if success then ahead p t rest else done (record { ran = p ∷ []; printed = t; code = 1 })

StopsAs-ahead :
    (p t : Text) (r : Outcome (Text × Bool)) (o : Outcome Exit)
    → StopsAs r o
    → StopsAs r (ahead p t o)
StopsAs-ahead p t (done r) o h = absurd h
StopsAs-ahead p t (dies e) o h = ap (ahead p t) h
StopsAs-ahead p t fault o h = ap (ahead p t) h
StopsAs-ahead p t hangs o h = ap (ahead p t) h

EndsAt-ahead :
    (p t : Text) (r : Outcome (Text × Bool)) (before : List Text) (q : Text) (texts : List Text)
    (o : Outcome Exit)
    → EndsAt r before q texts o
    → EndsAt r (p ∷ before) q (t ∷ texts) (ahead p t o)
EndsAt-ahead p t r before q texts o (inl (text, fails, e)) =
    let all : Text → Outcome Exit =
      (λ l. done (record { ran = p ∷ before ++ q ∷ []; printed = l; code = 1 })) in
    inl (text, fails, ap (ahead p t) e ∙ ap all (sym (append_assoc t (all_texts texts) text)))
EndsAt-ahead p t r before q texts o (inr h) = inr (StopsAs-ahead p t r o h)

module _ (run : ℕ → Text → Outcome (Text × Bool)) where
  -- The files, counted from `i`, run one after the other with success, and print these texts.
  abbrev pub AllRun : ℕ → List Text → List Text → Type 0
  AllRun i [] [] = Unit
  AllRun i (p ∷ ps) (t ∷ ts) = (run i p ≡ done (t, true)) × AllRun (suc i) ps ts
  AllRun i [] (t ∷ ts) = ⊥
  AllRun i (p ∷ ps) [] = ⊥

  -- All of the files have run, or those before one that ends the program.
  abbrev pub IsRun : ℕ → List Text → Outcome Exit → Type 0
  IsRun i paths o =
      ((texts : List Text) × AllRun i paths texts
        × (o ≡ done (record { ran = paths; printed = all_texts texts; code = 0 })))
      ⊎ ((before : List Text) × (p : Text) × (after : List Text) × (texts : List Text) × (paths
            ≡ before ++ p ∷ after)
          × AllRun i before texts
          × EndsAt (run (i + length before) p) before p texts o)

  IsRun-ahead :
      (i : ℕ) (p t : Text) (ps : List Text) (o : Outcome Exit)
      → run i p ≡ done (t, true)
      → IsRun (suc i) ps o
      → IsRun i (p ∷ ps) (ahead p t o)
  IsRun-ahead i p t ps o h (inl (texts, all, e)) = inl (t ∷ texts, (h, all), ap (ahead p t) e)
  IsRun-ahead i p t ps o h (inr (before, q, after, texts, split, all, ends)) =
      let place : suc i + length before ≡ i + length (p ∷ before) = omega arith in
      inr (
        p ∷ before,
        q,
        after,
        t ∷ texts,
        ap (λ l. p ∷ l) split,
        (h, all),
        subst (λ k. EndsAt (run k q) (p ∷ before) q (t ∷ texts) (ahead p t o)) place
            (EndsAt-ahead p t (run (suc i + length before) q) before q texts o ends),
      )

  -- The first file ends the program.
  ends_first :
      (i : ℕ) (p : Text) (ps : List Text) (o : Outcome Exit)
      → EndsAt (run i p) [] p [] o
      → IsRun i (p ∷ ps) o
  ends_first i p ps o h =
      let place : i ≡ i + 0 = omega arith in
      inr ([], p, ps, [], refl, tt, subst (λ k. EndsAt (run k p) [] p [] o) place h)

  follow-IsRun :
      (i : ℕ) (p : Text) (ps : List Text) (r : Outcome (Text × Bool)) (rest : Outcome Exit)
      → run i p ≡ r
      → IsRun (suc i) ps rest
      → IsRun i (p ∷ ps) (follow p r rest)
  follow-IsRun i p ps (done (t, true)) rest e h = IsRun-ahead i p t ps rest e h
  follow-IsRun i p ps (done (t, false)) rest e h = ends_first i p ps _ (inl (t, e, refl))
  follow-IsRun i p ps (dies f) rest e h =
      ends_first i p ps _ (inr (subst (λ r. StopsAs r (dies f)) (sym e) refl))
  follow-IsRun i p ps fault rest e h =
      ends_first i p ps _ (inr (subst (λ r. StopsAs r fault) (sym e) refl))
  follow-IsRun i p ps hangs rest e h =
      ends_first i p ps _ (inr (subst (λ r. StopsAs r hangs) (sym e) refl))

module _ (on_break : Outcome (Unit {0})) (fuel : ℕ) (native : Native) (systems : ℕ → System)
    (rounds : ℕ) where
  -- The run of a file with these lengths.
  abbrev pub loaded : Settings → ℕ → Text → Outcome (Text × Bool)
  loaded s i path = load_file on_break fuel native systems rounds i path s.stacklen s.heaplen

  run_files-IsRun :
      (s : Settings) (i : ℕ) (paths : List Text)
      → IsRun (loaded s) i paths (run_files on_break fuel native systems rounds i s paths)
  unfolding run_files
  run_files-IsRun s i [] = inl ([], tt, refl)
  run_files-IsRun s i (p ∷ paths) =
      follow-IsRun (loaded s) i p paths (loaded s i p)
        (run_files on_break fuel native systems rounds (suc i) s paths) refl
        (run_files-IsRun s (suc i) paths)

  main_lem :
      (xs : List Setting) (paths : List Text) (s : Settings)
      → parse_args false defaults (arguments xs paths) ≡ parsed s
      → main on_break fuel native systems rounds (arguments xs paths)
        ≡ run_files on_break fuel native systems rounds 0 s s.paths
  unfolding main exit_with
  main_lem [] paths s h = rw h refl
  main_lem (x ∷ xs) paths s h = rw h refl

  -- The arguments are read.
  main-arguments :
      (xs : List Setting) (paths : List Text)
      → AreShort xs
      → main on_break fuel native systems rounds (arguments xs paths)
        ≡ run_files on_break fuel native systems rounds 0
            (record (apply_all xs defaults) { paths = paths })
            paths
  main-arguments xs paths short =
      let s = apply_all xs defaults in
      let same : s.paths ++ paths ≡ paths = rw (apply_all-paths xs defaults) refl in
      main_lem xs paths (record s { paths = s.paths ++ paths })
        (parse_args-arguments xs paths defaults short)
      ∙ ap (λ l. run_files on_break fuel native systems rounds 0 (record s { paths = l }) l) same

  -- Given settings below 2 ^ 16 in any spelling and order, `--`, and any paths behind it, `main`
  -- runs the files with the stack length and the heap length that the settings come to, the last
  -- of a kind, or the default. All of them run with success, in order, what they print is printed,
  -- and the code is 0; or those before one whose run has no success, at which the program ends
  -- with the code 1, or before one whose run dies, faults or uses up its rounds, at which the
  -- program does so too.
  pub main-IsRun :
      (xs : List Setting) (paths : List Text)
      → AreShort xs
      → IsRun
          (loaded (apply_all xs defaults))
          0
          paths
          (main on_break fuel native systems rounds (arguments xs paths))
  main-IsRun xs paths short =
      let s = record (apply_all xs defaults) { paths = paths } in
      subst (IsRun (loaded s) 0 paths) (sym (main-arguments xs paths short))
        (run_files-IsRun s 0 paths)

-- Given settings below 2 ^ 16 in any spelling and order, `--`, and the path of a file that begins with
-- the naive program for `n`, if the system opens and maps the file and gives memory, `main` prints
-- the Fibonacci number of `n` as the only value on the stack, between the lines on the loading, the
-- collections (none) and the registers (all fresh), and exits with 0, with all rounds from some number
-- on: if the number is a fixnum, if the stack length that the settings come to is 2 * n + 2 or more,
-- and the heap length from 1 to 32768.
pub main-naive_program :
    (on_break : Outcome (Unit {0})) (fuel : ℕ) (native : Native) (systems : ℕ → System)
    (xs : List Setting) (path : Text) (code : List ℕ) (n : ℕ)
    → AreShort xs
    → Provides (systems 0) path code
    → Placed (naive_program n) 0 code
    → fib n ≤ 4095
    → 2 * n + 2 ≤ (apply_all xs defaults).stacklen
    → 0 < (apply_all xs defaults).heaplen
    → (apply_all xs defaults).heaplen ≤ 2 ^ 15
    → (rounds : ℕ) × ((more : ℕ)
        → main on_break (suc fuel) native systems (rounds + more) (arguments xs (path ∷ []))
          ≡ done (record {
            ran = path ∷ [];
            printed = text_loading ++ path ++ text_dots ++ report_on (decimal 5 (fib n));
            code = 0;
          }))
unfolding run_files
main-naive_program on_break fuel native systems xs path code n short given placed in_range deep
      some_words small =
    let s = apply_all xs defaults in
    let narrow : s.stacklen < 2 ^ 16 = apply_all-stacklen xs defaults short (omega arith) in
    let text = text_loading ++ path ++ text_dots ++ report_on (decimal 5 (fib n)) in
    let (rounds, runs) =
      bytecode_load_and_run-naive_program on_break fuel native (systems 0) path code n s.stacklen
        s.heaplen given placed in_range deep narrow some_words small in
    (
      rounds,
      λ more.
          main-arguments on_break (suc fuel) native systems (rounds + more) xs (path ∷ []) short
          ∙ rw (runs more) (
              ap (λ l. done (record { ran = path ∷ []; printed = l; code = 0 })) (append-nil text)),
    )
