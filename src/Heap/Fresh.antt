-- ===== src/Heap/Fresh.antt =====
-- `vm_process_alloc` where the area has room: the fast path.
use lilyvm.Base.{ℕ, ◌+◌, ◌-◌, ◌*◌, ◌%◌, ◌^◌, ◌≤◌, ◌<◌, ◌≡◌, refl, arith}
use lilyvm.Base.{length, get_elem?, replicate, length-replicate, leb, false, ltb, ◌==◌}
use lilyvm.Base.{◌⊎◌, inl, inr, ◌/◌, ◌&&◌, true, lt→ltb}
use lilyvm.Outcome.{Outcome, done}
use lilyvm.Process.{VmProcess}
use lilyvm.Heap.{store_words}
use lilyvm.Heap.{checked_offset, offset_from}
use lilyvm.Heap.Alloc.{bump}
use lilyvm.Heap.Memory.{written, length-written, store_words_lem, get_elem?-written_ne}

-- The shape of the two areas: the one in use lies in the block, its words are counted in bytes by
-- 16 bits, and the pointer is inside it.
pub record IsLaidOut (p : VmProcess) : Type 0 where
  pub small : p.alloc_size ≤ 2 ^ 16
  pub inside : p.alloc_area + p.alloc_size / 2 ≤ length p.heap
  pub above : p.alloc_area ≤ p.alloc_ptr
  pub below : p.alloc_ptr ≤ p.alloc_area + p.alloc_size / 2

-- There is room for `n` words, and the word at the area's start stays free.
abbrev pub HasRoom : VmProcess → ℕ → Type 0
HasRoom p n = p.alloc_area + n < p.alloc_ptr

-- What an allocation of `n` words at `ptr` does: all other words stay.
pub record IsFresh (p : VmProcess) (n ptr : ℕ) (p' : VmProcess) : Type 0 where
  pub place : ptr + n ≡ p.alloc_ptr
  pub above_guard : p.alloc_area < ptr
  pub laid_out : IsLaidOut p'
  pub others : (j : ℕ) → (j < ptr) ⊎ (p.alloc_ptr ≤ j) → get_elem? p'.heap j ≡ get_elem? p.heap j
  pub frame : p' ≡ record p { alloc_ptr = ptr; heap = p'.heap }

-- The process after an allocation of `n` words.
abbrev pub allocated : VmProcess → ℕ → VmProcess
allocated p n = record p {
  alloc_ptr = p.alloc_ptr - n;
  heap = written p.heap (p.alloc_ptr - n) (replicate n 0x9999);
}

module _ (p : VmProcess) (n : ℕ) (laid : IsLaidOut p) (room : HasRoom p n) where
  pub fill_lem :
      store_words p.heap (p.alloc_ptr - n) (replicate n 0x9999) ≡ done (allocated p n).heap
  fill_lem =
      store_words_lem p.heap (p.alloc_ptr - n) (replicate n 0x9999)
        (omega (arith, laid.inside, laid.below, length-replicate {A = ℕ} n 0x9999))

  pub bump_lem :
      (refused : Outcome (ℕ × VmProcess)) → bump p n refused ≡ done (p.alloc_ptr - n, allocated p n)
  unfolding bump
  bump_lem refused =
      let fits : leb p.alloc_ptr (p.alloc_area + n) ≡ false = ground arith in
      rw (fits, fill_lem) refl

  pub allocated-IsFresh : IsFresh p n (p.alloc_ptr - n) (allocated p n)
  allocated-IsFresh = record {
    place = omega arith;
    above_guard = omega arith;
    laid_out = record {
      small = laid.small;
      inside =
          omega (arith, laid.inside, length-written p.heap (p.alloc_ptr - n) (replicate n 0x9999));
      above = omega arith;
      below = omega (arith, laid.below);
    };
    others = λ j h.
        get_elem?-written_ne p.heap (p.alloc_ptr - n) (replicate n 0x9999) j (elim h [
          | inl a ↦ inl a
          | inr b ↦ inr (omega (arith, length-replicate {A = ℕ} n 0x9999))
        ]);
    frame = refl;
  }

-- The value that stands for a pointer above the area's start.
pub offset_from_lem :
    (base size ptr : ℕ)
    → base < ptr
    → 2 * (ptr - base) < size
    → size ≤ 2 ^ 16
    → offset_from base size ptr ≡ done (2 * (ptr - base))
unfolding offset_from
offset_from_lem base size ptr h b s =
    let tests : leb base ptr && ltb (2 * (ptr - base)) size ≡ true = ground arith in
    let not_zero : (2 * (ptr - base) == 0) ≡ false = ground arith in
    let small : 2 * (ptr - base) % 2 ^ 16 ≡ 2 * (ptr - base) = omega arith in
    rw (tests, not_zero, small) refl

-- And back.
pub checked_offset_lem :
    (base size ptr : ℕ)
    → base < ptr
    → 2 * (ptr - base) < size
    → checked_offset base size (2 * (ptr - base)) ≡ done ptr
unfolding checked_offset
checked_offset_lem base size ptr h b =
    let not_zero : (2 * (ptr - base) == 0) ≡ false = ground arith in
    let even : (2 * (ptr - base) % 2 == 0) ≡ true = ground arith in
    let back : base + 2 * (ptr - base) / 2 ≡ ptr = omega arith in
    rw (not_zero, even, lt→ltb (2 * (ptr - base)) size b, back) refl
