-- ===== src/Machine/Stack.antt =====
-- The stack macros of vm.c, and `stack_swap` and `stack_dup`. `stacksize_t` has 16 bits.
pub mod Bounded
pub mod Contents
pub mod Refinement
pub mod Exchange
pub mod Known
mod Clear
pub mod Tests
use lilyvm.Base.{ℕ, ◌+◌, ◌-◌, ◌%◌, ◌^◌, List, get_elem?, set, length, ltb, leb, ◌==◌, if◌then◌else◌}
use lilyvm.Outcome.{Outcome, done, dies, fault, ◌>>=◌, ◌>>◌, defined, inside, ensure}
use lilyvm.Outcome.{stack_push, stack_pop, stack_ref, stack_last, stack_set, stack_drop1}
use lilyvm.Outcome.{stack_swap, stack_dup, stack_ensure_has, stack_ensure_free, stack_alloc}
use lilyvm.Machine.State.{Machine, store_sp, restore_sp}

abbrev pub vals_of : Machine → List ℕ
vals_of s = s.process.stack.vals

abbrev pub with_vals : List ℕ → Machine → Machine
with_vals vals s = record s {
  process = record s.process { stack = record s.process.stack { vals = vals } };
}

-- A read and a write of `process->stack.vals[i]`.
abbrev pub read_val : Machine → ℕ → Outcome ℕ
read_val s i = defined (get_elem? (vals_of s) i)

abbrev pub write_val : Machine → ℕ → ℕ → Outcome Machine
write_val s i v =
    if ltb i (length (vals_of s)) then done (with_vals (set (vals_of s) i v) s) else fault

-- `SP += n`, `SP -= n`
abbrev pub sp_add : ℕ → Machine → Machine
sp_add n s = record s { sp = (s.sp + n) % 2 ^ 16 }

abbrev pub sp_sub : ℕ → Machine → Machine
sp_sub n s = record s { sp = (s.sp + 2 ^ 16 - n) % 2 ^ 16 }

unfoldable pub push : ℕ → Machine → Outcome Machine
push x s =
    if ltb s.sp s.process.stack.len
    then (do s' ← write_val s s.sp x; done (sp_add 1 s'))
    else dies stack_push

-- `LET_POP`
unfoldable pub pop : Machine → Outcome (ℕ × Machine)
pop s =
    if s.sp == 0
    then dies stack_pop
    else (do let s' = sp_sub 1 s; x ← read_val s' s'.sp; done (x, s'))

-- `LET_STACK_REF`
unfoldable pub let_stack_ref : Machine → ℕ → Outcome ℕ
let_stack_ref s i = if ltb i s.sp then read_val s (s.sp - 1 - i) else dies stack_ref

-- `LET_STACK_LAST`
unfoldable pub let_stack_last : Machine → Outcome ℕ
let_stack_last s = if s.sp == 0 then dies stack_last else read_val s (s.sp - 1)

-- `STACK_SET`
unfoldable pub stack_set_at : ℕ → ℕ → Machine → Outcome Machine
stack_set_at i v s = if ltb i s.sp then write_val s (s.sp - 1 - i) v else dies stack_set

-- `STACK_DROP1`
unfoldable pub drop1 : Machine → Outcome Machine
drop1 s = if s.sp == 0 then dies stack_drop1 else done (sp_sub 1 s)

-- `stack_swap` in `STACK_SWAP`, on the stack pointer of the process.
unfoldable pub swap : Machine → Outcome Machine
swap s0 =
    let s = store_sp s0 in
    let i = s.process.stack.sp - 2 in
    if leb 2 s.process.stack.sp
    then (do
      tmp ← read_val s i
      x ← read_val s (i + 1)
      s1 ← write_val s i x
      s2 ← write_val s1 (i + 1) tmp
      done (restore_sp s2))
    else dies stack_swap

-- `stack_dup` in `STACK_DUP`
unfoldable pub dup : Machine → Outcome Machine
dup s0 =
    let s = store_sp s0 in
    let sp = s.process.stack.sp in
    if sp == 0
    then dies stack_dup
    else (if ltb sp s.process.stack.len
        then (do
          x ← read_val s (sp - 1)
          s1 ← write_val s sp x
          let stack = record s1.process.stack { sp = (sp + 1) % 2 ^ 16 }
          done (restore_sp (record s1 { process = record s1.process { stack = stack } })))
        else dies stack_dup)

-- `STACK_ENSURE_HAS`
abbrev pub ensure_has : ℕ → Machine → Outcome (Unit {0})
ensure_has n s = ensure (leb n s.sp) stack_ensure_has

-- `STACK_ENSURE_FREE`: the test does not look at its argument. (`len - 1` is an `int`: with `len` 0
-- no `SP` is below it.)
unfoldable pub ensure_free : ℕ → Machine → Outcome (Unit {0})
ensure_free n s = ensure (ltb (s.sp + 1) s.process.stack.len) stack_ensure_free

-- `STACK_ALLOC`
unfoldable pub alloc : ℕ → Machine → Outcome Machine
alloc n s =
    let s' = sp_add n s in if leb s'.sp s'.process.stack.len then done s' else dies stack_alloc

-- `STACK_UNSAFE_REF`, `STACK_UNSAFE_SET`: an index below 0 is outside the array.
unfoldable pub unsafe_ref : Machine → ℕ → Outcome ℕ
unsafe_ref s i = do inside (ltb i s.sp); read_val s (s.sp - 1 - i)

unfoldable pub unsafe_set : ℕ → ℕ → Machine → Outcome Machine
unsafe_set i v s = do inside (ltb i s.sp); write_val s (s.sp - 1 - i) v

-- `STACK_UNSAFE_REMOVE`
abbrev pub unsafe_remove : ℕ → Machine → Machine
unsafe_remove n s = sp_sub n s
