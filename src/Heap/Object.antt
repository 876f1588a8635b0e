-- ===== src/Heap/Object.antt =====
-- An object as the guest program meets it: a value, and what is read through it.
use lilyvm.Base.{ℕ, suc, ◌+◌, ◌<◌, ◌≡◌, List, length, get_elem?, some, true}
use lilyvm.Outcome.{done}
use lilyvm.Word.{word_byte1}
use lilyvm.Value.{is_allocated}
use lilyvm.Process.{VmProcess}
use lilyvm.Heap.{allocated_ptr, load_words}

-- An object in the area in use: `v` stands for `ptr`, where its head and its body lie.
pub record HasObject (p : VmProcess) (v ptr head : ℕ) (ws : List ℕ) : Type 0 where
  pub tagged : is_allocated v ≡ true
  pub stands : allocated_ptr p v ≡ done ptr
  pub head_at : get_elem? p.heap ptr ≡ some head
  pub sized : word_byte1 head ≡ length ws
  pub word_at : (j k : ℕ) → k < length ws → j ≡ suc ptr + k → get_elem? p.heap j ≡ get_elem? ws k
  pub body_at : load_words p.heap (suc ptr) (length ws) ≡ done ws

-- What lies at a pointer is one object.
pub record IsOne (head head' : ℕ) (ws ws' : List ℕ) : Type 0 where
  pub one_head : head' ≡ head
  pub one_body : ws' ≡ ws

pub HasObject-IsOne :
    {p : VmProcess} {v v' ptr ptr' head head' : ℕ} {ws ws' : List ℕ}
    → ptr' ≡ ptr
    → HasObject p v ptr head ws
    → HasObject p v' ptr' head' ws'
    → IsOne head head' ws ws'
HasObject-IsOne {ptr = ptr} {ptr' = ptr'} {head = head} {head' = head'} {ws = ws} {ws' = ws'} e x
      y =
    let one_head : head' ≡ head = cc (x.head_at, y.head_at, e) in
    let one_length : length ws' ≡ length ws = cc (x.sized, y.sized, one_head) in
    record { one_head = one_head; one_body = cc (x.body_at, y.body_at, e, one_length) }

-- And a value stands for one pointer.
pub HasObject-ptr :
    {p : VmProcess} {v ptr ptr' head head' : ℕ} {ws ws' : List ℕ}
    → HasObject p v ptr head ws
    → HasObject p v ptr' head' ws'
    → ptr' ≡ ptr
HasObject-ptr x y = cc (x.stands, y.stands)
