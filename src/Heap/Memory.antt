-- ===== src/Heap/Memory.antt =====
-- Reads and writes of the block, one word or several at a time.
use lilyvm.Base.{ℕ, zero, suc, ◌+◌, ◌≤◌, ◌<◌, ◌≡◌, refl, sym, ap, ◌∙◌, ◌⊎◌, inl, arith}
use lilyvm.Base.{List, [], ◌∷◌, length, get_elem?, set, take, lt→ltb, some, length-set}
use lilyvm.Base.{get_elem?-set_self, get_elem?-set_ne}
use lilyvm.Outcome.{done}
use lilyvm.Heap.{store, load_words, store_words}

-- The block after `ws` have been written from `i` on.
abbrev pub written : List ℕ → ℕ → List ℕ → List ℕ
written heap i [] = heap
written heap i (w ∷ ws) = written (set heap i w) (suc i) ws

pub store_lem : (heap : List ℕ) (i w : ℕ) → i < length heap → store heap i w ≡ done (set heap i w)
store_lem heap i w h = rw (lt→ltb i (length heap) h) refl

pub length-written :
    (heap : List ℕ) (i : ℕ) (ws : List ℕ) → length (written heap i ws) ≡ length heap
length-written heap i [] = refl
length-written heap i (w ∷ ws) = length-written (set heap i w) (suc i) ws ∙ length-set heap i w

pub store_words_lem :
    (heap : List ℕ) (i : ℕ) (ws : List ℕ)
    → i + length ws ≤ length heap
    → store_words heap i ws ≡ done (written heap i ws)
unfolding store_words
store_words_lem heap i [] h = refl
store_words_lem heap i (w ∷ ws) h =
    rw (store_lem heap i w (omega arith))
      (store_words_lem (set heap i w) (suc i) ws (omega (arith, length-set heap i w)))

-- A read outside the words that are written.
pub get_elem?-written_ne :
    (heap : List ℕ) (i : ℕ) (ws : List ℕ) (j : ℕ)
    → (j < i) ⊎ (i + length ws ≤ j)
    → get_elem? (written heap i ws) j ≡ get_elem? heap j
get_elem?-written_ne heap i [] j h = refl
get_elem?-written_ne heap i (w ∷ ws) j h =
    get_elem?-written_ne (set heap i w) (suc i) ws j (ground arith)
    ∙ get_elem?-set_ne heap w (λ e. ground arith)

-- A read of one of them.
pub load_words-written :
    (heap : List ℕ) (i : ℕ) (ws : List ℕ)
    → i + length ws ≤ length heap
    → load_words (written heap i ws) i (length ws) ≡ done ws
unfolding load_words
load_words-written heap i [] h = refl
load_words-written heap i (w ∷ ws) h =
    let first : get_elem? (written (set heap i w) (suc i) ws) i ≡ some w =
      get_elem?-written_ne (set heap i w) (suc i) ws i (inl (omega arith))
      ∙ get_elem?-set_self heap i w (omega arith) in
    rw (first, load_words-written (set heap i w) (suc i) ws (omega (arith, length-set heap i w)))
      refl

-- A read of the first of them.
pub load_words-written-take :
    (heap : List ℕ) (i : ℕ) (ws : List ℕ) (n : ℕ)
    → i + length ws ≤ length heap
    → n ≤ length ws
    → load_words (written heap i ws) i n ≡ done (take n ws)
unfolding load_words
load_words-written-take heap i ws zero h le = refl
load_words-written-take heap i [] (suc n) h le = absurd (omega arith)
load_words-written-take heap i (w ∷ ws) (suc n) h le =
    let first : get_elem? (written (set heap i w) (suc i) ws) i ≡ some w =
      get_elem?-written_ne (set heap i w) (suc i) ws i (inl (omega arith))
      ∙ get_elem?-set_self heap i w (omega arith) in
    let rest =
      load_words-written-take (set heap i w) (suc i) ws n (omega (arith, length-set heap i w))
        (omega arith) in
    rw (first, rest) refl

pub get_elem?-written :
    (heap : List ℕ) (i : ℕ) (ws : List ℕ) (j k : ℕ)
    → i + length ws ≤ length heap
    → k < length ws
    → j ≡ i + k
    → get_elem? (written heap i ws) j ≡ get_elem? ws k
get_elem?-written heap i [] j k h lt e = absurd (omega arith)
get_elem?-written heap i (w ∷ ws) j zero h lt e =
    let here : j ≡ i = omega arith in
    rw here (
      get_elem?-written_ne (set heap i w) (suc i) ws i (inl (omega arith))
      ∙ get_elem?-set_self heap i w (omega arith))
get_elem?-written heap i (w ∷ ws) j (suc k) h lt e =
    get_elem?-written (set heap i w) (suc i) ws j k (omega (arith, length-set heap i w))
      (omega arith) (omega arith)

pub get_elem?-some :
    (heap : List ℕ) (i : ℕ) → i < length heap → (w : ℕ) × (get_elem? heap i ≡ some w)
get_elem?-some [] i h = elim h [ ]
get_elem?-some (x ∷ heap) zero h = (x, refl)
get_elem?-some (x ∷ heap) (suc i) h = get_elem?-some heap i (omega arith)

-- Words that lie in the block can be read.
pub record Loads (heap : List ℕ) (i n : ℕ) (ws : List ℕ) : Type 0 where
  pub loads : load_words heap i n ≡ done ws
  pub size : length ws ≡ n
  pub each : (j k : ℕ) → k < n → j ≡ i + k → get_elem? ws k ≡ get_elem? heap j

pub load_words-Loads :
    (heap : List ℕ) (i n : ℕ) → i + n ≤ length heap → (ws : List ℕ) × Loads heap i n ws
unfolding load_words
load_words-Loads heap i zero h =
    ([], record { loads = refl; size = refl; each = λ j k lt e. elim lt [ ] })
load_words-Loads heap i (suc n) h =
    let (ws, l) = load_words-Loads heap (suc i) n (omega arith) in
    let (w, first) = get_elem?-some heap i (omega arith) in
    (
      w ∷ ws,
      record {
        loads = rw (first, l.loads) refl;
        size = ap suc l.size;
        each = each_word w ws l.each first;
      },
    )
  where
    each_word :
        (w : ℕ) (ws : List ℕ)
        → ((j k : ℕ) → k < n → j ≡ suc i + k → get_elem? ws k ≡ get_elem? heap j)
        → get_elem? heap i ≡ some w
        → (j k : ℕ) → k < suc n
        → j ≡ i + k
        → get_elem? (w ∷ ws) k ≡ get_elem? heap j
    each_word w ws rest first j zero lt e = let here : j ≡ i = omega arith in rw here (sym first)
    each_word w ws rest first j (suc k) lt e = rest j k (omega arith) (omega arith)

-- Equal words are read as equal lists.
pub load_words-same :
    (heap heap' : List ℕ) (i i' n : ℕ)
    → ((j j' k : ℕ) → k < n → j ≡ i + k → j' ≡ i' + k → get_elem? heap' j' ≡ get_elem? heap j)
    → load_words heap' i' n ≡ load_words heap i n
unfolding load_words
load_words-same heap heap' i i' zero same = refl
load_words-same heap heap' i i' (suc n) same =
    rw
      (
        same i i' 0 (omega arith) (omega arith) (omega arith),
        load_words-same heap heap' (suc i) (suc i') n
            (λ j j' k h e e'. same j j' (suc k) (omega arith) (omega arith) (omega arith)),
      )
      refl
