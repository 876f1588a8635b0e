-- ===== src/Number/Bignums/Operands.antt =====
-- The operands of `bignum_add`: read, registered, and found again after an allocation.
use lilyvm.Base.{ℕ, zero, suc, ◌+◌, ◌-◌, ◌*◌, ◌<◌, ◌≡◌, refl, sym, ap, arith}
use lilyvm.Base.{List, [], ◌∷◌, ◌++◌, length, lt→ltb}
use mathlib.Core.List.{append-nil}
use lilyvm.Outcome.{done}
use lilyvm.Bignum.{top_word}
use lilyvm.Bignum.Length.{get_elem?-top_word}
use lilyvm.Process.{VmProcess, register_ptr_root, unregister_ptr_roots}
use lilyvm.Heap.Object.{HasObject, HasObject-IsOne}
use lilyvm.Heap.Gc.Tiles.{Obj, Has, head_of}
use lilyvm.Heap.Gc.Ptrs.{with_ptrs, HasObject-with}
use lilyvm.Heap.Gc.Pairwise.{Pairwise}
use lilyvm.Heap.Gc.Roots.{AllPtrRoots}
use lilyvm.Heap.Gc.Promise.{areas, SameBody}
use lilyvm.Number.Bignums.{
  Operand, body, local, operand_top, operand_words, register_operand, read_operands, registered,
  unregister_operands,
}

-- The operand `a` of `len` words holds the words `ws`.
abbrev pub IsOperand : VmProcess → List Obj → Operand → ℕ → List ℕ → Type 0
IsOperand p os (body b) len ws =
    (o : Obj) × Has o os
    × (b ≡ o.at + 1)
    × (len ≡ o.len)
    × (0 < len)
    × HasObject p (2 * (o.at - p.alloc_area)) o.at (head_of o) ws
IsOperand p os (local w) len ws = (len ≡ 1) × (ws ≡ w ∷ [])

pub IsOperand-length :
    (p : VmProcess) (os : List Obj) (a : Operand) (len : ℕ) (ws : List ℕ)
    → IsOperand p os a len ws
    → (length ws ≡ len) × (0 < len)
IsOperand-length p os (body b) len ws (o, has, e, el, some_words, h) =
    (omega (arith, h.sized), some_words)
IsOperand-length p os (local w) len ws (el, e) = (rw e (omega arith), omega arith)

pub operand_top_lem :
    (p : VmProcess) (os : List Obj) (a : Operand) (len : ℕ) (ws : List ℕ)
    → IsOperand p os a len ws
    → operand_top p a len ≡ done (top_word ws)
unfolding operand_top
operand_top_lem p os (body b) zero ws (o, has, e, el, some_words, h) = elim some_words [ ]
operand_top_lem p os (body b) (suc i) ws (o, has, e, el, some_words, h) =
    let size : length ws ≡ suc i = omega (arith, h.sized) in
    let found = h.word_at (b + i) i (omega arith) (omega arith) in
    rw (found, get_elem?-top_word ws i size) refl
operand_top_lem p os (local w) zero ws (el, e) = absurd (omega arith)
operand_top_lem p os (local w) (suc i) ws (el, e) =
    let first : i ≡ 0 = omega arith in rw (first, e) refl

-- The pointer roots that an operand needs.
abbrev pub ptrs : Operand → List ℕ
ptrs (body b) = b ∷ []
ptrs (local w) = []

pub register_operand_lem :
    (p : VmProcess) (a : Operand)
    → length p.ptr_roots < 3
    → register_operand p a ≡ done (with_ptrs (p.ptr_roots ++ ptrs a) p)
unfolding register_operand register_ptr_root
register_operand_lem p (body b) h = rw (lt→ltb (length p.ptr_roots) 3 h) refl
register_operand_lem p (local w) h = rw (append-nil p.ptr_roots) refl

-- An operand after an allocation: a variable as it was, a body at its new place.
abbrev pub SameOperand : VmProcess → VmProcess → Operand → Operand → Type 0
SameOperand p r (body b) (body b') = SameBody p r b b'
SameOperand p r (local w) (local w') = w' ≡ w
SameOperand p r (body b) (local w') = ⊥
SameOperand p r (local w) (body b') = ⊥

one_root :
    (r : ℕ → ℕ → Type 0) (x : ℕ) (ys : List ℕ)
    → Pairwise r (x ∷ []) ys
    → (y : ℕ) × (ys ≡ y ∷ []) × r x y
one_root r x [] h = absurd h
one_root r x (y ∷ []) h = (y, refl, h.0)
one_root r x (y ∷ z ∷ ys) h = absurd h.1

two_roots :
    (r : ℕ → ℕ → Type 0) (x x' : ℕ) (ys : List ℕ)
    → Pairwise r (x ∷ x' ∷ []) ys
    → (y : ℕ) × (y' : ℕ) × (ys ≡ y ∷ y' ∷ []) × r x y × r x' y'
two_roots r x x' [] h = absurd h
two_roots r x x' (y ∷ ys) h =
    let (y', e, k) = one_root r x' ys h.1 in (y, y', ap (λ l. y ∷ l) e, h.0, k)

pub no_roots : (r : ℕ → ℕ → Type 0) (ys : List ℕ) → Pairwise r [] ys → ys ≡ []
no_roots r [] h = refl
no_roots r (y ∷ ys) h = absurd h

-- Both operands are found again, and their roots dropped.
pub record IsFound (p r q : VmProcess) (a b a' b' : Operand) : Type 0 where
  pub reads : read_operands q a b ≡ done (a', b')
  pub drops : unregister_operands q (registered a b) ≡ done (with_ptrs [] q)
  pub a_same : SameOperand p r a a'
  pub b_same : SameOperand p r b b'

pub read_operands-IsFound :
    (p r q : VmProcess) (a b : Operand)
    → Pairwise (SameBody p r) (ptrs a ++ ptrs b) q.ptr_roots
    → (a' : Operand) × (b' : Operand) × IsFound p r q a b a' b'
unfolding read_operands unregister_operands unregister_ptr_roots
read_operands-IsFound p r q (local v) (local w) h =
    let none = no_roots (SameBody p r) q.ptr_roots h in
    (
      local v,
      local w,
      record {
        reads = refl;
        drops = ap (λ ps. done (with_ptrs ps q)) none;
        a_same = refl;
        b_same = refl;
      },
    )
read_operands-IsFound p r q (body b) (local w) h =
    let (b', e, same) = one_root (SameBody p r) b q.ptr_roots h in
    (
      body b',
      local w,
      record { reads = rw e refl; drops = rw e refl; a_same = same; b_same = refl },
    )
read_operands-IsFound p r q (local v) (body b) h =
    let (b', e, same) = one_root (SameBody p r) b q.ptr_roots h in
    (
      local v,
      body b',
      record { reads = rw e refl; drops = rw e refl; a_same = refl; b_same = same },
    )
read_operands-IsFound p r q (body b) (body c) h =
    let (b', c', e, same, same') = two_roots (SameBody p r) b c q.ptr_roots h in
    (
      body b',
      body c',
      record { reads = rw e refl; drops = rw e refl; a_same = same; b_same = same' },
    )

-- The words are read at the new place, by any process with the same block.
pub operand_words_lem :
    (p r q : VmProcess) (os : List Obj) (a a' : Operand) (len : ℕ) (ws : List ℕ)
    → q.heap ≡ r.heap
    → IsOperand p os a len ws
    → SameOperand p r a a'
    → operand_words q a' len ≡ done ws
unfolding operand_words
operand_words_lem p r q os (body b) (body b') len ws heap (o, has, e, el, some_words, h)
      (v, v', ptr, ptr', head, ws', before, after, e1, e2) =
    let here : ptr ≡ o.at = omega arith in
    let one = HasObject-IsOne here h before in
    let next : ptr' + 1 ≡ suc ptr' = omega arith in
    let size : length ws ≡ len = omega (arith, h.sized) in
    rw (heap, e2, next, sym size, sym one.one_body) after.body_at
operand_words_lem p r q os (local w) (local w') len ws heap (el, e) same = rw (el, same, e) refl
operand_words_lem p r q os (body b) (local w') len ws heap h same = absurd same
operand_words_lem p r q os (local w) (body b') len ws heap h same = absurd same

-- And at the old one, where nothing has moved.
pub operand_words-here :
    (p : VmProcess) (os : List Obj) (a : Operand) (len : ℕ) (ws : List ℕ)
    → IsOperand p os a len ws
    → operand_words p a len ≡ done ws
unfolding operand_words
operand_words-here p os (body b) len ws (o, has, e, el, some_words, h) =
    let next : o.at + 1 ≡ suc o.at = omega arith in
    let size : length ws ≡ len = omega (arith, h.sized) in rw (e, next, sym size) h.body_at
operand_words-here p os (local w) len ws (el, e) = rw (el, e) refl

-- Pointer roots do not matter for it.
pub IsOperand-with :
    (p : VmProcess) (os : List Obj) (ps : List ℕ) (a : Operand) (len : ℕ) (ws : List ℕ)
    → IsOperand p os a len ws
    → IsOperand (with_ptrs ps p) os a len ws
IsOperand-with p os ps (body b) len ws (o, has, e, el, some_words, h) =
    (o, has, e, el, some_words, HasObject-with ps h)
IsOperand-with p os ps (local w) len ws h = h

pub IsOperand-roots :
    (p : VmProcess) (os : List Obj) (a b : Operand) (lena lenb : ℕ) (wa wb : List ℕ)
    → IsOperand p os a lena wa
    → IsOperand p os b lenb wb
    → AllPtrRoots (areas p os) (ptrs a ++ ptrs b)
IsOperand-roots p os (body x) (body y) lena lenb wa wb ha hb =
    ((ha.0, ha.1, ha.2), ((hb.0, hb.1, hb.2), tt))
IsOperand-roots p os (body x) (local w) lena lenb wa wb ha hb = ((ha.0, ha.1, ha.2), tt)
IsOperand-roots p os (local w) (body y) lena lenb wa wb ha hb = ((hb.0, hb.1, hb.2), tt)
IsOperand-roots p os (local v) (local w) lena lenb wa wb ha hb = tt
