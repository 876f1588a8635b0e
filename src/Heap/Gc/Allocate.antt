-- ===== src/Heap/Gc/Allocate.antt =====
-- `vm_process_alloc` on a process whose objects are bignums: with room, with a collection, and
-- without memory.
use lilyvm.Base.{ℕ, ◌+◌, ◌-◌, ◌/◌, ◌≤◌, ◌<◌, ◌≡◌, refl, ◌∙◌, ◌⊎◌, inl, inr, arith}
use lilyvm.Base.{List, length, leb, true, Bool-cases, leb→le}
use lilyvm.Outcome.{Outcome, done, dies, out_of_memory}
use lilyvm.Process.{VmProcess}
use lilyvm.Heap.Alloc.{bump, vm_process_alloc, vm_process_alloc_slow}
use lilyvm.Heap.Fresh.{IsLaidOut, HasRoom, allocated, bump_lem, allocated-IsFresh}
use lilyvm.Heap.Memory.{length-written}
use lilyvm.Base.{replicate}
use lilyvm.Heap.Gc.Same.{SameRoots-trans}
use lilyvm.Heap.Gc.{vm_mem_gc}
use lilyvm.Heap.Gc.Tiles.{Obj, Spaced-le}
use lilyvm.Heap.Gc.Promise.{IsNumberHeap, HasRoots, SameRoots, IsCollected}
use lilyvm.Heap.Gc.Collect.{vm_mem_gc-IsCollected}
use lilyvm.Heap.Gc.Lower.{lowered-IsNumberHeap, lowered-HasRoots, lowered-SameRoots}

-- The heap is laid out for an allocation.
pub IsNumberHeap-IsLaidOut : (p : VmProcess) (os : List Obj) → IsNumberHeap p os → IsLaidOut p
IsNumberHeap-IsLaidOut p os sound = record {
  small = sound.narrow;
  inside = sound.from_in;
  above = omega (arith, sound.guard);
  below = Spaced-le p.alloc_ptr os (p.alloc_area + p.alloc_size / 2) sound.spaced;
}

-- The process with `n` words from `alloc_ptr` on left out again.
abbrev pub behind : VmProcess → ℕ → VmProcess
behind p n = record p { alloc_ptr = p.alloc_ptr + n }

-- `n` words from `alloc_ptr` on are free: the objects `os` lie behind them and the area's first word
-- before them; all that a collection starts from is as it was in `p`.
pub record IsAllocated (p : VmProcess) (n : ℕ) (p' : VmProcess) (os : List Obj) : Type 0 where
  pub guard : p'.alloc_area < p'.alloc_ptr
  pub sound : IsNumberHeap (behind p' n) os
  pub roots : HasRoots (behind p' n) os
  pub same : SameRoots p (behind p' n)
  pub size_same : p'.alloc_size ≡ p.alloc_size

module _ (p : VmProcess) (os : List Obj) (sound : IsNumberHeap p os) (roots : HasRoots p os) (n : ℕ)
    (room : HasRoom p n) where
  laid : IsLaidOut p
  laid = IsNumberHeap-IsLaidOut p os sound

  -- The words are taken, with or without a collection before.
  bump-IsAllocated : IsAllocated p n (allocated p n) os
  bump-IsAllocated =
      let fresh = allocated-IsFresh p n laid room in
      let heap = (allocated p n).heap in
      let size : length heap ≡ length p.heap =
        length-written p.heap (p.alloc_ptr - n) (replicate n 0x9999) in
      let agree = λ (j : ℕ) (h : p.alloc_ptr ≤ j). fresh.others j (inr h) in
      let top = p.alloc_ptr - n + n in
      let guard : p.alloc_area < top = omega arith in
      let down : top ≤ p.alloc_ptr = omega arith in
      record {
        guard = fresh.above_guard;
        sound = lowered-IsNumberHeap p os sound top heap guard down size agree;
        roots = lowered-HasRoots p os sound top heap guard down size agree roots;
        same = lowered-SameRoots p os sound top heap guard down size agree roots;
        size_same = refl;
      }

bump_refused :
    (p : VmProcess) (n : ℕ) (refused : Outcome (ℕ × VmProcess))
    → leb p.alloc_ptr (p.alloc_area + n) ≡ true
    → bump p n refused ≡ refused
unfolding bump
bump_refused p n refused h = rw h refl

-- On a process whose objects are bignums of fewer than 30 words, `vm_process_alloc` either returns
-- words that are free, with all that a collection starts from as it was; or it collects, finds no
-- room before the objects that are left, and ends the program.
pub vm_process_alloc-IsAllocated :
    (p : VmProcess) (os : List Obj) (n : ℕ)
    → IsNumberHeap p os
    → HasRoots p os
    → ((p' : VmProcess) × (os' : List Obj) × (vm_process_alloc p n ≡ done (p'.alloc_ptr, p'))
        × IsAllocated p n p' os')
      ⊎ ((p1 : VmProcess) × (os1 : List Obj) × (vm_mem_gc p ≡ done p1)
          × IsCollected p p1 os1
          × (p1.alloc_ptr ≤ p1.alloc_area + n)
          × (vm_process_alloc p n ≡ dies out_of_memory))
unfolding vm_process_alloc vm_process_alloc_slow
vm_process_alloc-IsAllocated p os n sound roots =
    elim (Bool-cases (leb p.alloc_ptr (p.alloc_area + n))) [
      | inr h ↦
          let room : p.alloc_area + n < p.alloc_ptr = ground arith in
          inl (
            allocated p n,
            os,
            bump_lem p n (laid p os sound roots n room) room (vm_process_alloc_slow p n),
            bump-IsAllocated p os sound roots n room,
          )
      | inl h ↦
          let (p1, os1, runs, c) = vm_mem_gc-IsCollected p os sound roots in
          let slow = bump_refused p n (vm_process_alloc_slow p n) h in
          elim (Bool-cases (leb p1.alloc_ptr (p1.alloc_area + n))) [
            | inr h1 ↦
                let room : p1.alloc_area + n < p1.alloc_ptr = ground arith in
                let got = bump-IsAllocated p1 os1 c.sound c.roots n room in
                inl (
                  allocated p1 n,
                  os1,
                  slow
                      ∙ rw runs (
                          bump_lem p1 n (laid p1 os1 c.sound c.roots n room) room
                            (dies out_of_memory)),
                  record {
                    guard = got.guard;
                    sound = got.sound;
                    roots = got.roots;
                    same = SameRoots-trans c.same got.same;
                    size_same = got.size_same ∙ c.size_same;
                  },
                )
            | inl h1 ↦ inr (
              p1,
              os1,
              runs,
              c,
              leb→le p1.alloc_ptr (p1.alloc_area + n) h1,
              slow ∙ rw runs (bump_refused p1 n (dies out_of_memory) h1),
            )
          ]
    ]
