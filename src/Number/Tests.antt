-- ===== src/Number/Tests.antt =====
-- The operations on numbers: `scm_add` and `scm_cons` on a process with room, and the arithmetic of
-- a bignum and a fixnum.
use lilyvm.Base.{
  ℕ, ◌≡◌, ◌≤◌, ◌+◌, ◌⊎◌, inl, inr, refl, ◌↔◌, arith, get_elem?, true, pos, negsuc, ◌+ℤ◌, List, [],
  ◌∷◌, signed16,
}
use lilyvm.Outcome.{done, dies, out_of_memory}
use lilyvm.Value.{fix, tru}
use lilyvm.Value.Fixnum.{fix-lt, is_fixnum-fix, int-fix}
use lilyvm.Bignum.Meaning.{value}
use lilyvm.Bignum.Order.{order_val}
use lilyvm.Process.{VmProcess}
use lilyvm.Heap.{allocated_slot}
use lilyvm.Heap.Tests.{eight_words, eight_words-IsLaidOut}
use lilyvm.Number.Dispatch.{is_pair}
use lilyvm.Number.Scm.{scm_add, scm_cons, scm_number_cmp, scm_number_equal, scm_inc, scm_dec}
use lilyvm.Number.Value.{IsNumber}
use lilyvm.Heap.Gc.{vm_mem_gc}
use lilyvm.Heap.Gc.Tiles.{Obj}
use lilyvm.Heap.Gc.Ptrs.{with_ptrs}
use lilyvm.Heap.Gc.Tests.{
  one_bignum, the_bignum, one_bignum-IsNumberHeap, one_bignum-HasRoots, one_bignum-HasObject,
}
use lilyvm.Number.Bignums.{body, local, bignum_add}
use lilyvm.Number.Bignums.Result.{IsResult}
use lilyvm.Number.Bignums.Sum.{bignum_add-IsResult}
use lilyvm.Number.Sum.{IsSum, scm_add-IsSum}
use lilyvm.Number.Step.{scm_inc-scm_dec}
use lilyvm.Number.Compare.{scm_number_cmp_lem, scm_number_equal_iff}
use lilyvm.Number.Cons.{scm_cons-slots}

-- 4000 + 4000 is no fixnum.

scm_cons-slots_example :
    (v : ℕ) × (p' : VmProcess) × (scm_cons eight_words 15 23 ≡ done (v, p'))
    × (is_pair p' v ≡ done true)
    × (allocated_slot p' v 1 ≡ done 15)
    × (allocated_slot p' v 2 ≡ done 23)
    × ((j : ℕ) → 8 ≤ j → get_elem? p'.heap j ≡ get_elem? eight_words.heap j)
scm_cons-slots_example = scm_cons-slots eight_words 15 23 eight_words-IsLaidOut (omega arith)

-- The bignum 5000 of the heap, and the fixnum 23.
abbrev five_thousand : ℕ
five_thousand = 12

five_thousand-IsNumber : IsNumber one_bignum (the_bignum ∷ []) 29 five_thousand (pos 5000)
unfolding value signed16
five_thousand-IsNumber = inr (record {
  object = the_bignum;
  listed = inl refl;
  words = 5000 ∷ [];
  few = omega arith;
  place = refl;
  some_words = omega arith;
  found = one_bignum-HasObject;
  are_words = (omega arith, tt);
  normal = refl;
  stands = refl;
})

small-IsNumber : IsNumber one_bignum (the_bignum ∷ []) 29 (fix (pos 23)) (pos 23)
small-IsNumber =
    inl (is_fixnum-fix (pos 23), fix-lt (pos 23), int-fix (pos 23) (omega arith, omega arith))

-- The sum needs three words, which are there after a collection.
scm_add-IsSum_example :
    IsSum one_bignum 30 (scm_add one_bignum five_thousand (fix (pos 23))) (pos 5000 +ℤ pos 23)
scm_add-IsSum_example =
    scm_add-IsSum one_bignum (the_bignum ∷ []) one_bignum-IsNumberHeap one_bignum-HasRoots refl 29
      (omega arith) (omega arith) five_thousand (fix (pos 23)) (pos 5000) (pos 23)
      five_thousand-IsNumber small-IsNumber

scm_number_cmp_example :
    scm_number_cmp one_bignum five_thousand (fix (pos 23))
    ≡ done (order_val (pos 5000) (pos 23), one_bignum)
scm_number_cmp_example =
    scm_number_cmp_lem one_bignum (the_bignum ∷ []) 29 (omega arith) five_thousand (fix (pos 23))
      (pos 5000) (pos 23) five_thousand-IsNumber small-IsNumber

scm_number_equal_example :
    (v : ℕ) × (scm_number_equal one_bignum five_thousand (fix (pos 23)) ≡ done (v, one_bignum))
    × ((v ≡ tru) ↔ (pos 5000 ≡ pos 23))
scm_number_equal_example =
    scm_number_equal_iff one_bignum (the_bignum ∷ []) 29 (omega arith) five_thousand (fix (pos 23))
      (pos 5000) (pos 23) five_thousand-IsNumber small-IsNumber

-- The bignum of the heap, and a word of the caller.
bignum_add-IsResult_example :
    ((v : ℕ) × (p' : VmProcess) × (os' : List Obj) × (bignum_add one_bignum (body 7) 1 (local 23) 1
        ≡ done (v, p'))
      × (p'.ptr_roots ≡ [])
      × IsResult one_bignum p' os' 30 v (value (5000 ∷ []) +ℤ value (23 ∷ [])))
    ⊎ ((p1 : VmProcess) × (vm_mem_gc (with_ptrs (7 ∷ []) one_bignum) ≡ done p1)
        × (p1.alloc_ptr ≤ p1.alloc_area + 3)
        × (bignum_add one_bignum (body 7) 1 (local 23) 1 ≡ dies out_of_memory))
bignum_add-IsResult_example =
    bignum_add-IsResult one_bignum (the_bignum ∷ []) (body 7) (local 23) 1 1 (5000 ∷ []) (23 ∷ [])
      29 one_bignum-IsNumberHeap one_bignum-HasRoots refl
      (the_bignum, inl refl, refl, refl, omega arith, one_bignum-HasObject) (refl, refl)
      (omega arith, tt) (omega arith, tt) (omega arith) (omega arith) (omega arith)

-- The largest fixnum.
scm_inc-scm_dec_example :
    IsSum one_bignum 3 (scm_inc one_bignum (fix (pos 4095))) (pos 4095 +ℤ pos 1)
    × IsSum one_bignum 3 (scm_dec one_bignum (fix (pos 4095))) (pos 4095 +ℤ negsuc 0)
scm_inc-scm_dec_example =
    scm_inc-scm_dec one_bignum (the_bignum ∷ []) one_bignum-IsNumberHeap one_bignum-HasRoots refl 29
      (fix (pos 4095)) (pos 4095)
      (inl (
        is_fixnum-fix (pos 4095),
        fix-lt (pos 4095),
        int-fix (pos 4095) (omega arith, omega arith),
      ))
