-- ===== src/Number/Bignums/Result.antt =====
-- The end of `bignum_add`: the new object, or the fixnum in its place, on a heap of bignums.
use lilyvm.Base.{ℕ, suc, ◌+◌, ◌-◌, ◌*◌, ◌/◌, ◌≤◌, ◌<◌, ◌^◌, ◌≡◌, refl, sym, ◌∙◌, inl, inr, arith}
use lilyvm.Base.{List, ◌∷◌, length, get_elem?, set, take, Option, some, none, true, ℤ}
use lilyvm.Base.{length-set, get_elem?-set_self, get_elem?-set_ne}
use lilyvm.Base.Bits.{bit_or_byte}
use lilyvm.Outcome.{done}
use lilyvm.Value.{int, is_fixnum}
use lilyvm.Bignum.Meaning.{value, IsWords}
use lilyvm.Bignum.Add.{StandsFor, IsNormal}
use lilyvm.Bignum.Words.{IsCode}
use lilyvm.Process.{VmProcess}
use lilyvm.Heap.{load_words, store_words, allocated_from_pointer, head_of_len_type, type_bignum}
use lilyvm.Heap.Fresh.{offset_from_lem}
use lilyvm.Heap.Memory.{
  written, length-written, store_lem, store_words_lem, get_elem?-written_ne,
  load_words-written-take, load_words-same,
}
use lilyvm.Heap.Gc.Tiles.{Obj, Spaced-le, head_of}
use lilyvm.Heap.Gc.Invariant.{IsRoot}
use lilyvm.Heap.Gc.Pairwise.{All-map, TopAll-map}
use lilyvm.Heap.Gc.Promise.{areas, IsNumberHeap, HasRoots, SameRoots, object-HasObject}
use lilyvm.Heap.Gc.Same.{SameRoots-trans}
use lilyvm.Heap.Gc.Lower.{Spaced-lower, lowered-IsNumberHeap, lowered-HasRoots, lowered-SameRoots}
use lilyvm.Heap.Gc.Allocate.{behind}
use lilyvm.Number.Bignums.{bignum_result}
use lilyvm.Number.Value.{IsNumber}

-- A number that an operation returns: it stands for `n`, as an object with fewer than `limit` words
-- if it is one; the objects are bignums again, and all that a collection starts from is as it was
-- in `p`.
pub record IsResult (p p' : VmProcess) (os : List Obj) (limit v : ℕ) (n : ℤ) : Type 0 where
  pub sound : IsNumberHeap p' os
  pub roots : HasRoots p' os
  pub same : SameRoots p p'
  pub number : IsNumber p' os limit v n

-- One more object.
module _ (p : VmProcess) (o : Obj) (os : List Obj) where
  IsRoot-more : (v : ℕ) → IsRoot (areas p os) v → IsRoot (areas p (o ∷ os)) v
  IsRoot-more v (inl h) = inl h
  IsRoot-more v (inr (x, has, e)) = inr (x, inr has, e)

  HasRoots-more : HasRoots p os → HasRoots p (o ∷ os)
  HasRoots-more r = record {
    a_root = IsRoot-more p.a r.a_root;
    b_root = IsRoot-more p.b r.b_root;
    c_root = IsRoot-more p.c r.c_root;
    d_root = IsRoot-more p.d r.d_root;
    vals = All-map IsRoot-more p.val_roots r.vals;
    ptrs = All-map (λ b k. (k.0, inr k.1, k.2)) p.ptr_roots r.ptrs;
    stack = TopAll-map IsRoot-more p.stack.sp p.stack.vals r.stack;
  }

module _ (q : VmProcess) (os : List Obj) (n : ℕ) (sound : IsNumberHeap (behind q n) os)
    (guard : q.alloc_area < q.alloc_ptr) (ws : List ℕ) (enough : length ws + 1 ≤ n) where
  abbrev stored : List ℕ
  stored = written q.heap (q.alloc_ptr + 1) ws

  below : q.alloc_ptr + n ≤ q.alloc_area + q.alloc_size / 2
  below = Spaced-le (q.alloc_ptr + n) os (q.alloc_area + q.alloc_size / 2) sound.spaced

  fits : q.alloc_ptr + 1 + length ws ≤ length q.heap
  fits = omega (arith, below, sound.from_in)

  stored_lem : store_words q.heap (q.alloc_ptr + 1) ws ≡ done stored
  stored_lem = store_words_lem q.heap (q.alloc_ptr + 1) ws fits

  stored-same : (j : ℕ) → q.alloc_ptr + n ≤ j → get_elem? stored j ≡ get_elem? q.heap j
  stored-same j h = get_elem?-written_ne q.heap (q.alloc_ptr + 1) ws j (inr (omega arith))

  stored_size : length stored ≡ length q.heap
  stored_size = length-written q.heap (q.alloc_ptr + 1) ws

  down : q.alloc_ptr ≤ q.alloc_ptr + n
  down = omega arith

  module _ (p : VmProcess) (roots : HasRoots (behind q n) os) (same : SameRoots p (behind q n))
      (total : ℤ) (limit : ℕ) where
    fixnum-IsResult :
        (v : ℕ)
        → v < 2 ^ 16
        → (is_fixnum v ≡ true) × (int v ≡ total)
        → IsResult p (record q { heap = stored }) os limit v total
    fixnum-IsResult v code (h, e) = record {
      sound =
          lowered-IsNumberHeap (behind q n) os sound q.alloc_ptr stored guard down stored_size
            stored-same;
      roots =
          lowered-HasRoots (behind q n) os sound q.alloc_ptr stored guard down stored_size
            stored-same roots;
      same = SameRoots-trans same (
          lowered-SameRoots (behind q n) os sound q.alloc_ptr stored guard down stored_size
            stored-same roots);
      number = inl (h, code, e);
    }

    module _ (len : ℕ) (some_words : 0 < len) (le : len ≤ length ws) (small : len < 30)
        (few : len < limit) where
      abbrev object : Obj
      object = record { at = q.alloc_ptr; len = len }

      abbrev headed : List ℕ
      headed = set stored q.alloc_ptr (head_of object)

      abbrev with_object : VmProcess
      with_object = record q { heap = headed }

      abbrev v : ℕ
      v = 2 * (q.alloc_ptr - q.alloc_area)

      head_fits : q.alloc_ptr < length stored
      head_fits = omega (arith, stored_size, fits)

      head_lem : head_of_len_type len type_bignum ≡ head_of object
      unfolding head_of_len_type
      head_lem = bit_or_byte len 128 (omega arith)

      headed_size : length headed ≡ length q.heap
      headed_size = length-set stored q.alloc_ptr (head_of object) ∙ stored_size

      headed-same : (j : ℕ) → q.alloc_ptr + n ≤ j → get_elem? headed j ≡ get_elem? q.heap j
      headed-same j h =
          get_elem?-set_ne stored (head_of object) (λ e. omega arith) ∙ stored-same j h

      lower : IsNumberHeap with_object os
      lower =
          lowered-IsNumberHeap (behind q n) os sound q.alloc_ptr headed guard down headed_size
            headed-same

      heap_sound : IsNumberHeap with_object (object ∷ os)
      heap_sound = record {
        narrow = lower.narrow;
        from_in = lower.from_in;
        to_in = lower.to_in;
        apart = lower.apart;
        guard = lower.guard;
        spaced = (
          omega arith,
          some_words,
          small,
          Spaced-lower (q.alloc_ptr + n) (q.alloc_ptr + (len + 1)) os
              (q.alloc_area + q.alloc_size / 2) (omega arith) sound.spaced,
        );
        heads = λ o h. elim h [
          | inl e ↦ rw (sym e) (get_elem?-set_self stored q.alloc_ptr (head_of object) head_fits)
          | inr k ↦ lower.heads o k
        ];
      }

      value_lem : allocated_from_pointer with_object q.alloc_ptr ≡ done v
      unfolding allocated_from_pointer
      value_lem =
          offset_from_lem q.alloc_area q.alloc_size q.alloc_ptr guard (omega (arith, below))
            sound.narrow

      words_lem : load_words headed (suc q.alloc_ptr) len ≡ done (take len ws)
      words_lem =
          let next : suc q.alloc_ptr ≡ q.alloc_ptr + 1 = omega arith in
          load_words-same stored headed (suc q.alloc_ptr) (suc q.alloc_ptr) len (λ j j' k h e e'.
            let one : j' ≡ j = omega arith in
            rw one (get_elem?-set_ne stored (head_of object) (λ a. omega arith)))
          ∙ rw next (load_words-written-take q.heap (q.alloc_ptr + 1) ws len fits le)

      bignum-IsResult :
          IsWords (take len ws)
          → IsNormal (take len ws)
          → value (take len ws) ≡ total
          → IsResult p with_object (object ∷ os) limit v total
      bignum-IsResult words normal e =
          let (ws', l, o) =
            object-HasObject with_object (object ∷ os) heap_sound object (inl refl) v refl in
          let one : ws' ≡ take len ws = cc (o.body_at, words_lem, l) in
          record {
            sound = heap_sound;
            roots = HasRoots-more with_object object os (
                lowered-HasRoots (behind q n) os sound q.alloc_ptr headed guard down headed_size
                  headed-same roots);
            same = SameRoots-trans same (
                lowered-SameRoots (behind q n) os sound q.alloc_ptr headed guard down headed_size
                  headed-same roots);
            number = inr (record {
              object = object;
              listed = inl refl;
              words = ws';
              few = few;
              place = refl;
              some_words = some_words;
              found = o;
              are_words = rw one words;
              normal = rw one normal;
              stands = rw one e;
            });
          }

      pub bignum_result-IsResult :
          (f : Option ℕ)
          → StandsFor f (take len ws) total
          → IsWords (take len ws)
          → IsCode f
          → (v : ℕ) × (p' : VmProcess) × (os' : List Obj) × (bignum_result q q.alloc_ptr ws f len
              ≡ done (v, p'))
            × (p'.ptr_roots ≡ q.ptr_roots)
            × IsResult p p' os' limit v total
      unfolding bignum_result
      bignum_result-IsResult (some x) h words code =
          (x, record q { heap = stored }, os, rw stored_lem refl, refl, fixnum-IsResult x code h)
      bignum_result-IsResult none h words code = (
        v,
        with_object,
        object ∷ os,
        rw
            (
              stored_lem,
              head_lem,
              store_lem stored q.alloc_ptr (head_of object) head_fits,
              value_lem,
            )
            refl,
        refl,
        bignum-IsResult words h.0 h.1,
      )
