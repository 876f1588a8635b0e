-- ===== src/Number/Bignums/Sum.antt =====
-- `bignum_add` on a heap of bignums: with room, with a collection, and without memory.
use lilyvm.Base.{ℕ, suc, ◌+◌, ◌≤◌, ◌<◌, ◌≡◌, refl, ◌∙◌, ◌⊎◌, inl, inr, arith}
use lilyvm.Base.{List, [], ◌∷◌, ◌++◌, length, ltb, true, Bool-cases, if◌then◌else◌, ◌+ℤ◌}
use lilyvm.Outcome.{done, dies, out_of_memory}
use lilyvm.Bignum.{top_word, shorter, add_loops, add_words, finish, numwords}
use lilyvm.Bignum.Meaning.{value, IsWords, IsNonempty}
use lilyvm.Bignum.Loops.{length-add_loops}
use lilyvm.Bignum.Length.{finish-IsSized}
use lilyvm.Bignum.Add.{add_words-StandsFor}
use lilyvm.Bignum.Words.{add_words-IsWritten}
use lilyvm.Process.{VmProcess}
use lilyvm.Heap.Gc.{vm_mem_gc}
use lilyvm.Heap.Gc.Tiles.{Obj}
use lilyvm.Heap.Gc.Promise.{IsNumberHeap, HasRoots}
use lilyvm.Heap.Gc.Ptrs.{with_ptrs, HasRoots-ptrs, SameRoots-ptrs}
use lilyvm.Heap.Gc.Allocate.{behind, vm_process_alloc-IsAllocated}
use lilyvm.Number.Bignums.{Operand, body, local, operand_top, register_operand, bignum_add}
use lilyvm.Number.Bignums.Operands.{
  IsOperand, IsOperand-length, IsOperand-with, IsOperand-roots, operand_top_lem, ptrs,
  register_operand_lem, read_operands-IsFound, operand_words_lem,
}
use lilyvm.Number.Bignums.Result.{IsResult, bignum_result-IsResult}

length-IsNonempty : (ws : List ℕ) → 0 < length ws → IsNonempty ws
length-IsNonempty [] h = elim h [ ]
length-IsNonempty (w ∷ ws) h = tt

few_ptrs : (a : Operand) → length (ptrs a) < 3
few_ptrs (body p) = omega arith
few_ptrs (local w) = omega arith

module _ (p : VmProcess) (os : List Obj) (a b : Operand) (lena lenb : ℕ) (wa wb : List ℕ)
    (none : p.ptr_roots ≡ []) (ha : IsOperand p os a lena wa) (hb : IsOperand p os b lenb wb) where
  top_lem :
      (if ltb lena lenb then operand_top p a lena else operand_top p b lenb)
      ≡ done (top_word (shorter wa wb))
  unfolding shorter
  top_lem =
      let (la, na) = IsOperand-length p os a lena wa ha in
      let (lb, nb) = IsOperand-length p os b lenb wb hb in
      elim (Bool-cases (ltb lena lenb)) [
        | inl h ↦ rw (la, lb, h) (operand_top_lem p os a lena wa ha)
        | inr h ↦ rw (la, lb, h) (operand_top_lem p os b lenb wb hb)
      ]

  register_a : register_operand p a ≡ done (with_ptrs (ptrs a) p)
  register_a =
      let few : length p.ptr_roots < 3 = rw none (omega arith) in
      register_operand_lem p a few ∙ rw none refl

  register_b : register_operand (with_ptrs (ptrs a) p) b ≡ done (with_ptrs (ptrs a ++ ptrs b) p)
  register_b = register_operand_lem (with_ptrs (ptrs a) p) b (few_ptrs a)

-- The words that `bignum_add` asks for.
abbrev pub words_needed : ℕ → ℕ → ℕ
words_needed lena lenb = numwords (1 + (if ltb lena lenb then lenb else lena) + 1)

-- On a process whose objects are bignums of fewer than 30 words and that has no pointer roots,
-- `bignum_add` of two numbers of fewer than `limit` words, for a limit below 30, each an object of
-- the heap or a word of the caller, returns the fixnum or the bignum that stands for the sum of the
-- two integers, whether or not it had to collect; the heap's objects are bignums again, and all that
-- a collection starts from stands for what it stood for. Or a collection leaves no more words than
-- it needs, and the program ends.
pub bignum_add-IsResult :
    (p : VmProcess) (os : List Obj) (a b : Operand) (lena lenb : ℕ) (wa wb : List ℕ) (limit : ℕ)
    → IsNumberHeap p os
    → HasRoots p os
    → p.ptr_roots ≡ []
    → IsOperand p os a lena wa
    → IsOperand p os b lenb wb
    → IsWords wa
    → IsWords wb
    → lena < limit
    → lenb < limit
    → limit < 30
    → ((v : ℕ) × (p' : VmProcess) × (os' : List Obj) × (bignum_add p a lena b lenb ≡ done (v, p'))
        × (p'.ptr_roots ≡ [])
        × IsResult p p' os' (suc limit) v (value wa +ℤ value wb))
      ⊎ ((p1 : VmProcess) × (vm_mem_gc (with_ptrs (ptrs a ++ ptrs b) p) ≡ done p1)
          × (p1.alloc_ptr ≤ p1.alloc_area + words_needed lena lenb)
          × (bignum_add p a lena b lenb ≡ dies out_of_memory))
unfolding bignum_add add_words add_loops
bignum_add-IsResult p os a b lena lenb wa wb limit sound roots none ha hb words_a words_b small_a
      small_b small =
    let ps = ptrs a ++ ptrs b in
    let p2 = with_ptrs ps p in
    let k = words_needed lena lenb in
    let (la, na) = IsOperand-length p os a lena wa ha in
    let (lb, nb) = IsOperand-length p os b lenb wb hb in
    let top = top_lem p os a b lena lenb wa wb none ha hb in
    let ra = register_a p os a b lena lenb wa wb none ha hb in
    let rb = register_b p os a b lena lenb wa wb none ha hb in
    let s = add_loops wa wb in
    let longer = length-add_loops wa wb in
    let sized = finish-IsSized s (omega arith) (omega arith) in
    let std =
      add_words-StandsFor wa wb (length-IsNonempty wa (omega arith))
        (length-IsNonempty wb (omega arith)) words_a words_b (omega arith) (omega arith) in
    let written =
      add_words-IsWritten wa wb (length-IsNonempty wa (omega arith))
        (length-IsNonempty wb (omega arith)) words_a words_b in
    let live : ltb 0 (if ltb lena lenb then lena else lenb) ≡ true = ground arith in
    elim (vm_process_alloc-IsAllocated p2 os k sound
      (HasRoots-ptrs ps roots (IsOperand-roots p os a b lena lenb wa wb ha hb))) [
        | inl (r, os1, run, al) ↦
            let q = with_ptrs [] r in
            let (a', b', found) = read_operands-IsFound p2 (behind r k) r a b al.same.ptrs_same in
            let read_a =
              operand_words_lem p2 (behind r k) q os a a' lena wa refl
                (IsOperand-with p os ps a lena wa ha) found.a_same in
            let read_b =
              operand_words_lem p2 (behind r k) q os b b' lenb wb refl
                (IsOperand-with p os ps b lenb wb hb) found.b_same in
            let enough : length (finish s).body + 1 ≤ k = ground (arith, sized.small, longer) in
            let (v, p', os', res, no_ptrs, is) =
              bignum_result-IsResult q os1 k al.sound al.guard (finish s).body enough p
                (HasRoots-ptrs [] al.roots tt) (SameRoots-ptrs ps none al.same)
                (value wa +ℤ value wb) (suc limit) (finish s).len sized.some_words sized.stored
                (omega (arith, sized.stored, sized.small))
                (omega (arith, sized.stored, sized.small)) (finish s).fixnum std written.are_words
                written.code in
            inl (
              v,
              p',
              os',
              rw (top, ra, rb, run, found.reads, found.drops, live, read_a, read_b) res,
              no_ptrs,
              is,
            )
        | inr (p1, os1, runs, c, full, died) ↦ inr (p1, runs, full, rw (top, ra, rb, died) refl)
      ]
