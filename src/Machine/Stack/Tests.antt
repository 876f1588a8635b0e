-- ===== src/Machine/Stack/Tests.antt =====
-- The stack operations on a stack of two values with room for two more.
use lilyvm.Base.{[], ◌∷◌, ◌≡◌, refl, arith}
use lilyvm.Machine.State.{Machine, start}
use lilyvm.Machine.Stack.{push, pop, let_stack_ref, stack_set_at, swap, dup}
use lilyvm.Machine.Stack.Bounded.{put, take_top, look, replace, exchange, copy_top}
use lilyvm.Machine.Stack.Contents.{contents, IsValid, IsAfter, Refines}
use lilyvm.Machine.Stack.Refinement.{
  IsAfterWith, push-Refines, pop-Refines, let_stack_ref-Refines, stack_set_at-Refines,
}
use lilyvm.Machine.Stack.Exchange.{swap-Refines, dup-Refines}

abbrev pub two_values : Machine
two_values = start (record {
  a = 41;
  b = 41;
  c = 41;
  d = 41;
  alloc_size = 0;
  alloc_area = 0;
  alloc_area_fresh = 0;
  alloc_ptr = 0;
  gc_count = 0;
  gc_moves = 0;
  val_roots = [];
  ptr_roots = [];
  stack = record { sp = 2; len = 4; vals = 15 ∷ 23 ∷ 0 ∷ 0 ∷ [] };
  heap = [];
})

pub two_values-IsValid : IsValid two_values
two_values-IsValid = record { full = refl; within = omega arith; narrow = omega arith }

push-Refines_example :
    Refines (IsAfter two_values) (push 31 two_values) (put 4 31 (contents two_values))
push-Refines_example = push-Refines two_values two_values-IsValid 31

pop-Refines_example :
    Refines (IsAfterWith two_values) (pop two_values) (take_top (contents two_values))
pop-Refines_example = pop-Refines two_values two_values-IsValid

let_stack_ref-Refines_example :
    Refines ◌≡◌ (let_stack_ref two_values 1) (look (contents two_values) 1)
let_stack_ref-Refines_example = let_stack_ref-Refines two_values two_values-IsValid 1

stack_set_at-Refines_example :
    Refines (IsAfter two_values) (stack_set_at 1 39 two_values) (replace 1 39 (contents two_values))
stack_set_at-Refines_example = stack_set_at-Refines two_values two_values-IsValid 1 39

swap-Refines_example :
    Refines (IsAfter two_values) (swap two_values) (exchange (contents two_values))
swap-Refines_example = swap-Refines two_values two_values-IsValid

dup-Refines_example :
    Refines (IsAfter two_values) (dup two_values) (copy_top 4 (contents two_values))
dup-Refines_example = dup-Refines two_values two_values-IsValid
