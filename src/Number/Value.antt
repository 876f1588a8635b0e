-- ===== src/Number/Value.antt =====
-- Which integer a value of the guest language stands for.
use lilyvm.Base.{ℕ, suc, ◌+◌, ◌-◌, ◌*◌, ◌^◌, ◌<◌, ◌≡◌, refl, ap, ◌∙◌, ◌⊎◌, inl, inr, arith}
use lilyvm.Base.{List, ℤ, if◌then◌else◌, true, false}
use lilyvm.Outcome.{Outcome, done, ◌>>=◌}
use lilyvm.Value.{int, is_fixnum}
use lilyvm.Value.Tags.{is_fixnum_lem, is_allocated_lem}
use lilyvm.Bignum.Meaning.{value, IsWords}
use lilyvm.Bignum.Add.{IsNormal}
use lilyvm.Process.{VmProcess}
use lilyvm.Heap.{load_words, allocated_body, allocated_numwords, ptr_numwords}
use lilyvm.Heap.Object.{HasObject}
use lilyvm.Heap.Gc.Tiles.{Obj, Has, head_of}

-- The integer that a value stands for.
unfoldable pub number_of : VmProcess → ℕ → Outcome ℤ
unfolding allocated_body allocated_numwords load_words value
number_of p v = if is_fixnum v then done (int v) else (do
  at ← allocated_body p v
  n ← allocated_numwords p v
  ws ← load_words p.heap at n
  done (value ws))

pub number_of-fixnum : (p : VmProcess) (v : ℕ) → is_fixnum v ≡ true → number_of p v ≡ done (int v)
unfolding number_of
number_of-fixnum p v h = rw h refl

-- An object stands for the number of its words.
pub number_of-HasObject :
    (p : VmProcess) (v ptr head : ℕ) (ws : List ℕ)
    → HasObject p v ptr head ws
    → number_of p v ≡ done (value ws)
unfolding number_of allocated_body allocated_numwords ptr_numwords
number_of-HasObject p v ptr head ws o =
    let not_fixnum : is_fixnum v ≡ false =
      ground (arith, is_fixnum_lem v, is_allocated_lem v, o.tagged) in
    let next : ptr + 1 ≡ suc ptr = omega arith in
    rw (not_fixnum, o.stands, o.head_at, o.sized, next, o.body_at) refl

-- A number of the guest program: a fixnum, or an object of the heap with fewer than `limit` words,
-- in the one form that the program makes of it.
abbrev pub IsFixnum : ℕ → ℤ → Type 0
IsFixnum v n = (is_fixnum v ≡ true) × (v < 2 ^ 16) × (int v ≡ n)

pub record IsBignum (p : VmProcess) (os : List Obj) (limit v : ℕ) (n : ℤ) : Type 0 where
  pub object : Obj
  pub listed : Has object os
  pub words : List ℕ
  pub few : object.len < limit
  pub place : v ≡ 2 * (object.at - p.alloc_area)
  pub some_words : 0 < object.len
  pub found : HasObject p v object.at (head_of object) words
  pub are_words : IsWords words
  pub normal : IsNormal words
  pub stands : value words ≡ n

abbrev pub IsNumber : VmProcess → List Obj → ℕ → ℕ → ℤ → Type 0
IsNumber p os limit v n = IsFixnum v n ⊎ IsBignum p os limit v n

pub number_of-IsNumber :
    (p : VmProcess) (os : List Obj) (limit v : ℕ) (n : ℤ)
    → IsNumber p os limit v n
    → number_of p v ≡ done n
number_of-IsNumber p os limit v n (inl (h, small, e)) = number_of-fixnum p v h ∙ ap done e
number_of-IsNumber p os limit v n (inr b) =
    number_of-HasObject p v b.object.at (head_of b.object) b.words b.found ∙ ap done b.stands
