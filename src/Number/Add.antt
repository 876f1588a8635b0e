-- ===== src/Number/Add.antt =====
-- `scm_add` on two fixnums and `scm_cons`, where the area has room.
use lilyvm.Base.{ℕ, suc, ◌+◌, ◌-◌, ◌≤◌, ◌≡◌, refl, ap, ◌∙◌, arith}
use lilyvm.Base.{[], ◌∷◌, get_elem?, leb, true, false, Bool-cases, inl, inr}
use lilyvm.Base.{set, +ℤ_parts, ℤ, pos, negsuc, ◌+ℤ◌, ◌≤ℤ◌, to_word, signed16}
use lilyvm.Outcome.{done}
use lilyvm.Value.{fix, is_fixnum, is_in_fix_range, is_allocated}
use lilyvm.Value.Tags.{is_allocated_lem, is_fixnum_lem, are_fixnums_2_lem}
use lilyvm.Value.Fixnum.{InFixRange, is_in_fix_range_iff, is_fixnum-fix, int-fix}
use lilyvm.Bignum.Meaning.{value_single}
use lilyvm.Process.{VmProcess}
use lilyvm.Heap.{allocated_from_pointer, ptr_numwords}
use lilyvm.Heap.{head_of_len_type}
use lilyvm.Heap.{allocated_body, allocated_numwords}
use lilyvm.Heap.Fresh.{IsLaidOut, HasRoom, fill_lem, offset_from_lem}
use lilyvm.Heap.Memory.{store_lem}
use lilyvm.Number.Value.{number_of}
use lilyvm.Number.Dispatch.{
  do_fixaddint_to_scm, lilyvm_alloc, fixaddint, do_scm_add, number_dispatch, do_fixnum_add,
}
use lilyvm.Heap.Object.{HasObject}
use lilyvm.Number.Objects.{
  ptr, value_at, filled, filled-HasObject, filled-IsFresh, store_head, room_made, body_fits,
  in_area,
}
use lilyvm.Number.Scm.{here, replaced, scm_add}

-- A bignum object of one word stands for that word's number.
number_of-object :
    (p : VmProcess) (v ptr w : ℕ)
    → HasObject p v ptr 384 (w ∷ [])
    → number_of p v ≡ done (signed16 w)
unfolding number_of allocated_body allocated_numwords ptr_numwords is_allocated
number_of-object p v ptr w o =
    let not_fixnum : is_fixnum v ≡ false =
      ground (arith, is_fixnum_lem v, is_allocated_lem v, o.tagged) in
    let next : ptr + 1 ≡ suc ptr = omega arith in
    rw (not_fixnum, o.stands, o.head_at, next, o.body_at) (ap done (value_single w))

-- The sum of two fixnums is far from the ends of `fixaddint_t`.
number_of-fix : (p : VmProcess) (n : ℤ) → InFixRange n → number_of p (fix n) ≡ done n
unfolding number_of
number_of-fix p n h = rw (is_fixnum-fix n) (ap done (int-fix n h))

pub fixaddint-small : (x : ℤ) → (negsuc 32767 ≤ℤ x) × (x ≤ℤ pos 32767) → fixaddint x ≡ x
unfolding to_word signed16
fixaddint-small (pos k) h = ground arith
fixaddint-small (negsuc k) h = ground arith

pub fixaddint-sum : (m n : ℤ) → InFixRange m → InFixRange n → fixaddint (m +ℤ n) ≡ m +ℤ n
fixaddint-sum m n hm hn = fixaddint-small (m +ℤ n) (ground (arith, +ℤ_parts m n))

-- A number of the fixnum range takes no memory, whatever is saved around an allocation.
pub do_fixaddint_to_scm_small :
    {S : Type 0} (process : S → VmProcess) (with_process : VmProcess → S → S)
    (save_regs restore_regs : S → S) (s : S) (x : ℤ)
    → InFixRange x
    → do_fixaddint_to_scm process with_process save_regs restore_regs s x ≡ done (fix x, s)
unfolding do_fixaddint_to_scm
do_fixaddint_to_scm_small process with_process save_regs restore_regs s x h =
    let same : fixaddint x ≡ x = fixaddint-small x (ground arith) in
    rw (same, (is_in_fix_range_iff x).1 h) refl

module _ (p : VmProcess) where
  pub small_lem :
      (x : ℤ)
      → is_in_fix_range x ≡ true
      → fixaddint x ≡ x
      → do_fixaddint_to_scm here replaced here here p x ≡ done (fix x, p)
  unfolding do_fixaddint_to_scm
  small_lem x h e = rw (e, h) refl

module _ (p : VmProcess) (laid : IsLaidOut p) (room : HasRoom p 2) where
  -- `DO_FIXADDINT_TO_SCM` of a number that fits its type and is no fixnum.
  big_lem :
      (x : ℤ)
      → is_in_fix_range x ≡ false
      → fixaddint x ≡ x
      → do_fixaddint_to_scm here replaced here here p x
        ≡ done (
          value_at p 384 (to_word x ∷ []) laid room refl refl,
          filled p 384 (to_word x ∷ []) laid room refl refl,
        )
  unfolding do_fixaddint_to_scm lilyvm_alloc head_of_len_type allocated_from_pointer
  big_lem x h e =
      let fits : leb p.alloc_ptr (p.alloc_area + 2) ≡ false = ground arith in
      let next : p.alloc_ptr - 2 + 1 ≡ suc (p.alloc_ptr - 2) = omega arith in
      let head = store_head p 384 (to_word x ∷ []) laid room refl refl in
      let word =
        store_lem (set (room_made p 384 (to_word x ∷ []) laid room refl refl) (p.alloc_ptr - 2) 384)
          (suc (p.alloc_ptr - 2)) (to_word x)
          (omega (arith, body_fits p 384 (to_word x ∷ []) laid room refl refl)) in
      rw
        (
          e,
          h,
          fits,
          fill_lem p 2 laid room,
          head,
          next,
          word,
          offset_from_lem p.alloc_area p.alloc_size (p.alloc_ptr - 2) (omega (arith, room))
              (in_area p 384 (to_word x ∷ []) laid room refl refl) laid.small,
        )
        refl

  module _ (m n : ℤ) (hm : InFixRange m) (hn : InFixRange n) where
    to_fixaddint :
        scm_add p (fix m) (fix n) ≡ do_fixaddint_to_scm here replaced here here p (m +ℤ n)
    unfolding scm_add do_scm_add number_dispatch do_fixnum_add
    to_fixaddint =
        rw
          (
            are_fixnums_2_lem (fix m) (fix n),
            is_fixnum-fix m,
            is_fixnum-fix n,
            int-fix m hm,
            int-fix n hn,
          )
          refl

    -- With room for two words, `scm_add` of two fixnums returns a value that stands for their sum,
    -- and changes no word of the objects already there.
    scm_add-fixnums :
        (v : ℕ) × (p' : VmProcess) × (scm_add p (fix m) (fix n) ≡ done (v, p'))
        × (number_of p' v ≡ done (m +ℤ n))
        × ((j : ℕ) → p.alloc_ptr ≤ j → get_elem? p'.heap j ≡ get_elem? p.heap j)
    scm_add-fixnums = elim (Bool-cases (is_in_fix_range (m +ℤ n))) [
      | inl h ↦ (
        fix (m +ℤ n),
        p,
        to_fixaddint ∙ small_lem p (m +ℤ n) h (fixaddint-sum m n hm hn),
        number_of-fix p (m +ℤ n) ((is_in_fix_range_iff (m +ℤ n)).0 h),
        λ j le. refl,
      )
      | inr h ↦
          let w = to_word (m +ℤ n) in
          let fresh = filled-IsFresh p 384 (w ∷ []) laid room refl refl in
          (
            value_at p 384 (w ∷ []) laid room refl refl,
            filled p 384 (w ∷ []) laid room refl refl,
            to_fixaddint ∙ big_lem (m +ℤ n) h (fixaddint-sum m n hm hn),
            number_of-object (filled p 384 (w ∷ []) laid room refl refl)
                  (value_at p 384 (w ∷ []) laid room refl refl) (p.alloc_ptr - 2) w
                  (filled-HasObject p 384 (w ∷ []) laid room refl refl)
                ∙ ap done (fixaddint-sum m n hm hn),
            λ j le. fresh.others j (inr le),
          )
    ]
