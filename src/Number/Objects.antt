-- ===== src/Number/Objects.antt =====
-- New objects: allocated where there is room, and read again.
use lilyvm.Base.{ℕ, suc, ◌+◌, ◌-◌, ◌*◌, ◌≤◌, ◌<◌, ◌≡◌, refl, ◌∙◌, arith}
use lilyvm.Base.{
  List, length, get_elem?, set, some, length-set, get_elem?-set_self, get_elem?-set_ne,
}
use lilyvm.Base.{false, ◌==◌, inl}
use lilyvm.Outcome.{done}
use lilyvm.Word.{word_byte1}
use lilyvm.Value.Tags.{is_allocated_lem}
use lilyvm.Process.{VmProcess}
use lilyvm.Heap.{store, allocated_from_pointer, allocated_ptr, ptr_numwords}
use lilyvm.Heap.Alloc.{vm_process_alloc, vm_process_alloc_slow}
use lilyvm.Heap.Object.{HasObject}
use lilyvm.Heap.Memory.{
  written, store_lem, length-written, store_words_lem, get_elem?-written_ne, load_words-written,
  get_elem?-written,
}
use lilyvm.Heap.Fresh.{
  IsLaidOut, HasRoom, allocated, bump_lem, allocated-IsFresh, IsFresh, offset_from_lem,
  checked_offset_lem,
}
use lilyvm.Number.Scm.{new_object}

module _ (p : VmProcess) (head : ℕ) (ws : List ℕ) (laid : IsLaidOut p)
    (room : HasRoom p (suc (length ws))) (alive : (word_byte1 head == 0) ≡ false)
    (sized : word_byte1 head ≡ length ws) where
  abbrev pub ptr : ℕ
  ptr = p.alloc_ptr - suc (length ws)

  abbrev pub value_at : ℕ
  value_at = 2 * (ptr - p.alloc_area)

  -- The block once the words are allocated.
  abbrev pub room_made : List ℕ
  room_made = (allocated p (suc (length ws))).heap

  -- The process with the new object.
  abbrev pub filled : VmProcess
  filled = record p { alloc_ptr = ptr; heap = written (set room_made ptr head) (suc ptr) ws }

  pub fresh : IsFresh p (suc (length ws)) ptr (allocated p (suc (length ws)))
  fresh = allocated-IsFresh p (suc (length ws)) laid room

  fits : ptr + suc (length ws) ≤ length room_made
  fits = omega (arith, fresh.place, fresh.laid_out.inside, laid.below)

  pub body_fits : suc ptr + length ws ≤ length (set room_made ptr head)
  body_fits = omega (arith, fits, length-set room_made ptr head)

  pub in_area : value_at < p.alloc_size
  in_area = omega (arith, fresh.above_guard, fresh.place, laid.below)

  head_there : get_elem? filled.heap ptr ≡ some head
  head_there =
      get_elem?-written_ne (set room_made ptr head) (suc ptr) ws ptr (inl (omega arith))
      ∙ get_elem?-set_self room_made ptr head (omega (arith, fits))

  pub filled-HasObject : HasObject filled value_at ptr head ws
  unfolding allocated_ptr ptr_numwords
  filled-HasObject = record {
    tagged = ground (arith, is_allocated_lem value_at);
    stands =
        rw
          (
            checked_offset_lem p.alloc_area p.alloc_size ptr fresh.above_guard in_area,
            head_there,
            alive,
          )
          refl;
    head_at = head_there;
    sized = sized;
    word_at = λ j k h e. get_elem?-written (set room_made ptr head) (suc ptr) ws j k body_fits h e;
    body_at = load_words-written (set room_made ptr head) (suc ptr) ws body_fits;
  }

  pub filled-IsFresh : IsFresh p (suc (length ws)) ptr filled
  filled-IsFresh =
      let blank = set room_made ptr head in
      record {
        place = fresh.place;
        above_guard = fresh.above_guard;
        laid_out = record {
          small = laid.small;
          inside = omega (
            arith,
            fresh.laid_out.inside,
            length-written blank (suc ptr) ws,
            length-set room_made ptr head,
          );
          above = fresh.laid_out.above;
          below = fresh.laid_out.below;
        };
        others = λ j h.
            get_elem?-written_ne blank (suc ptr) ws j (ground (arith, fresh.place))
            ∙ get_elem?-set_ne room_made head (λ e. ground (arith, fresh.place))
            ∙ fresh.others j h;
        frame = refl;
      }

  -- The two stores and the value of the pointer, on a process with the words allocated.
  pub store_head : store room_made ptr head ≡ done (set room_made ptr head)
  store_head = store_lem room_made ptr head (omega (arith, fits))

  pub new_object_lem : new_object p head ws (suc (length ws)) ≡ done (value_at, filled)
  unfolding new_object vm_process_alloc allocated_from_pointer
  new_object_lem =
      let next : ptr + 1 ≡ suc ptr = omega arith in
      rw
        (
          bump_lem p (suc (length ws)) laid room (vm_process_alloc_slow p (suc (length ws))),
          store_head,
          next,
          store_words_lem (set room_made ptr head) (suc ptr) ws body_fits,
          offset_from_lem p.alloc_area p.alloc_size ptr fresh.above_guard in_area laid.small,
        )
        refl
