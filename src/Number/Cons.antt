-- ===== src/Number/Cons.antt =====
-- `scm_cons` where the area has room.
use lilyvm.Base.{ℕ, inr, ◌+◌, ◌-◌, ◌≤◌, ◌<◌, ◌≡◌, refl, arith, [], ◌∷◌, get_elem?, true, some}
use lilyvm.Outcome.{done}
use lilyvm.Word.{word_byte0}
use lilyvm.Process.{VmProcess}
use lilyvm.Heap.{ptr_type, head_of_len_type, allocated_type, allocated_slot}
use lilyvm.Heap.Fresh.{IsLaidOut, HasRoom}
use lilyvm.Number.Dispatch.{is_pair}
use lilyvm.Heap.Object.{HasObject}
use lilyvm.Number.Objects.{value_at, filled, filled-HasObject, filled-IsFresh, new_object_lem}
use lilyvm.Number.Scm.{scm_cons}

-- The head of a pair.
abbrev pair_head : ℕ
pair_head = 513

module _ (p : VmProcess) (v ptr a b : ℕ) (o : HasObject p v ptr pair_head (a ∷ b ∷ [])) where
  is_pair-object : is_pair p v ≡ done true
  unfolding is_pair allocated_type ptr_type word_byte0
  is_pair-object = rw (o.tagged, o.stands, o.head_at) refl

  slot_lem :
      (k w : ℕ) → k < 2 → get_elem? (a ∷ b ∷ []) k ≡ some w → allocated_slot p v (k + 1) ≡ done w
  unfolding allocated_slot
  slot_lem k w h e = rw (o.stands, o.word_at (ptr + (k + 1)) k h (omega arith), e) refl

-- With room for three words, `scm_cons` returns a pair with `a` in its first slot and `b` in its
-- second, and changes no word of the objects already there.
pub scm_cons-slots :
    (p : VmProcess) (a b : ℕ)
    → IsLaidOut p
    → HasRoom p 3
    → (v : ℕ) × (p' : VmProcess) × (scm_cons p a b ≡ done (v, p'))
      × (is_pair p' v ≡ done true)
      × (allocated_slot p' v 1 ≡ done a)
      × (allocated_slot p' v 2 ≡ done b)
      × ((j : ℕ) → p.alloc_ptr ≤ j → get_elem? p'.heap j ≡ get_elem? p.heap j)
unfolding scm_cons head_of_len_type
scm_cons-slots p a b laid room =
    let ws = a ∷ b ∷ [] in
    let v = value_at p pair_head ws laid room refl refl in
    let p' = filled p pair_head ws laid room refl refl in
    let at = p.alloc_ptr - 3 in
    let o = filled-HasObject p pair_head ws laid room refl refl in
    let fresh = filled-IsFresh p pair_head ws laid room refl refl in
    (
      v,
      p',
      new_object_lem p pair_head ws laid room refl refl,
      is_pair-object p' v at a b o,
      slot_lem p' v at a b o 0 a (omega arith) refl,
      slot_lem p' v at a b o 1 b (omega arith) refl,
      λ j le. fresh.others j (inr le),
    )
