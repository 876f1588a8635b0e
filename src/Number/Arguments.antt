-- ===== src/Number/Arguments.antt =====
-- `_NUMBER_DISPATCH` on a heap of bignums: the arguments of an operation, and the branch it takes.
use lilyvm.Base.{ℕ, ◌+◌, ◌/◌, ◌^◌, ◌<◌, ◌≡◌, refl, sym, ◌∙◌, ◌⊎◌, inl, inr, arith}
use lilyvm.Base.{List, [], ◌∷◌, true, false, ℤ, pos, negsuc, to_word, signed16}
use lilyvm.Outcome.{Outcome, done, dies, fault, hangs, ◌>>=◌}
use lilyvm.Word.{word_byte0, word_byte0_lem}
use lilyvm.Value.{int, is_fixnum}
use lilyvm.Value.Tags.{is_fixnum_lem, is_allocated_lem, are_fixnums_2_lem}
use lilyvm.Value.Fixnum.{int-InFixRange}
use lilyvm.Bignum.Meaning.{value, value_single, IsWords, IsMinimal}
use lilyvm.Bignum.Add.{IsNormal}
use lilyvm.Number.Value.{IsFixnum, IsBignum, IsNumber}
use lilyvm.Process.{VmProcess}
use lilyvm.Heap.{allocated_type, allocated_body, allocated_numwords, ptr_type, ptr_numwords}
use lilyvm.Heap.Gc.Tiles.{Obj, head_of}
use lilyvm.Number.Bignums.{Operand, body, local}
use lilyvm.Number.Bignums.Operands.{IsOperand}
use lilyvm.Number.Dispatch.{BignumOp, is_bignum, bignum_operand, call_bignum_op, number_dispatch}
use lilyvm.Number.Add.{fixaddint-small}
use lilyvm.Number.Scm.{here, replaced}

-- An argument of a bignum operation that stands for `n`.
pub record IsArgument (p : VmProcess) (os : List Obj) (limit : ℕ) (a : Operand) (len : ℕ) (n : ℤ)
    : Type 0 where
  pub words : List ℕ
  pub operand : IsOperand p os a len words
  pub are_words : IsWords words
  pub minimal : IsMinimal words
  pub few : len < limit
  pub stands : value words ≡ n

pub bind-done : {A : Type 0} (m : Outcome A) → (m >>= (λ a. done a)) ≡ m
bind-done (done a) = refl
bind-done (dies e) = refl
bind-done fault = refl
bind-done hangs = refl

IsNormal-IsMinimal : (ws : List ℕ) → IsNormal ws → IsMinimal ws
IsNormal-IsMinimal [] h = absurd h
IsNormal-IsMinimal (w ∷ []) h = tt
IsNormal-IsMinimal (w ∷ v ∷ ws) h = h

fixnum-IsArgument :
    (p : VmProcess) (os : List Obj) (limit v : ℕ) (n : ℤ)
    → 1 < limit
    → IsFixnum v n
    → IsArgument p os limit (local (to_word (int v))) 1 n
unfolding to_word
fixnum-IsArgument p os limit v n some_words (h, small, e) =
    let range = int-InFixRange v small in
    let same : signed16 (to_word (int v)) ≡ int v =
      fixaddint-small (int v) (ground (arith, range)) in
    record {
      words = to_word (int v) ∷ [];
      operand = (refl, refl);
      are_words = (to_word-lt (int v), tt);
      minimal = tt;
      few = some_words;
      stands = value_single (to_word (int v)) ∙ same ∙ e;
    }
  where
    to_word-lt : (x : ℤ) → to_word x < 2 ^ 16
    to_word-lt (pos k) = omega arith
    to_word-lt (negsuc k) = omega arith

module _ (p : VmProcess) (os : List Obj) (limit v : ℕ) (n : ℤ) (b : IsBignum p os limit v n) where
  bignum-IsArgument : IsArgument p os limit (body (b.object.at + 1)) b.object.len n
  bignum-IsArgument = record {
    words = b.words;
    operand = (b.object, b.listed, refl, refl, b.some_words, rw (sym b.place) b.found);
    are_words = b.are_words;
    minimal = IsNormal-IsMinimal b.words b.normal;
    few = b.few;
    stands = b.stands;
  }

  bignum_operand_lem : bignum_operand p v ≡ done (body (b.object.at + 1), b.object.len)
  unfolding bignum_operand allocated_body allocated_numwords ptr_numwords
  bignum_operand_lem =
      let len : head_of b.object / 256 ≡ b.object.len = omega arith in
      rw (b.found.stands, b.found.head_at, len) refl

  pub is_bignum_lem : is_bignum p v ≡ done true
  unfolding is_bignum allocated_type ptr_type
  is_bignum_lem =
      let type : word_byte0 (head_of b.object) ≡ 128 =
        word_byte0_lem (head_of b.object) ∙ omega arith in
      rw (b.found.tagged, b.found.stands, b.found.head_at, type) refl

  pub no_fixnum : is_fixnum v ≡ false
  no_fixnum = ground (arith, is_fixnum_lem v, is_allocated_lem v, b.found.tagged)

-- The branch that is taken: the operation on fixnums, or the one on two arguments.
abbrev pub IsDispatched :
    (VmProcess → ℕ → ℕ → Outcome (ℕ × VmProcess))
    → BignumOp
    → VmProcess
    → List Obj
    → ℕ
    → ℕ
    → ℕ
    → ℤ
    → ℤ
    → Type 0
IsDispatched fixnum_op bignum_op p os limit x y m n =
    (IsFixnum x m
      × IsFixnum y n
      × (number_dispatch here replaced here here fixnum_op bignum_op p x y ≡ fixnum_op p x y))
    ⊎ ((a : Operand) × (lena : ℕ) × (b : Operand) × (lenb : ℕ) × IsArgument p os limit a lena m
        × IsArgument p os limit b lenb n
        × (number_dispatch here replaced here here fixnum_op bignum_op p x y
            ≡ bignum_op p a lena b lenb))

pub number_dispatch-IsDispatched :
    (fixnum_op : VmProcess → ℕ → ℕ → Outcome (ℕ × VmProcess)) (bignum_op : BignumOp) (p : VmProcess)
    (os : List Obj) (limit x y : ℕ) (m n : ℤ)
    → 1 < limit
    → IsNumber p os limit x m
    → IsNumber p os limit y n
    → IsDispatched fixnum_op bignum_op p os limit x y m n
unfolding number_dispatch call_bignum_op
number_dispatch-IsDispatched f g p os limit x y m n some_words (inl hx) (inl hy) =
    inl (hx, hy, rw (are_fixnums_2_lem x y, hx.0, hy.0) refl)
number_dispatch-IsDispatched f g p os limit x y m n some_words (inl hx) (inr by) = inr (
  local (to_word (int x)),
  1,
  body (by.object.at + 1),
  by.object.len,
  fixnum-IsArgument p os limit x m some_words hx,
  bignum-IsArgument p os limit y n by,
  rw
      (
        are_fixnums_2_lem x y,
        hx.0,
        no_fixnum p os limit y n by,
        is_bignum_lem p os limit y n by,
        bignum_operand_lem p os limit y n by,
      )
      (bind-done (g p (local (to_word (int x))) 1 (body (by.object.at + 1)) by.object.len)),
)
number_dispatch-IsDispatched f g p os limit x y m n some_words (inr bx) (inl hy) = inr (
  body (bx.object.at + 1),
  bx.object.len,
  local (to_word (int y)),
  1,
  bignum-IsArgument p os limit x m bx,
  fixnum-IsArgument p os limit y n some_words hy,
  rw
      (
        are_fixnums_2_lem x y,
        hy.0,
        no_fixnum p os limit x m bx,
        is_bignum_lem p os limit x m bx,
        bignum_operand_lem p os limit x m bx,
      )
      (bind-done (g p (body (bx.object.at + 1)) bx.object.len (local (to_word (int y))) 1)),
)
number_dispatch-IsDispatched f g p os limit x y m n some_words (inr bx) (inr by) = inr (
  body (bx.object.at + 1),
  bx.object.len,
  body (by.object.at + 1),
  by.object.len,
  bignum-IsArgument p os limit x m bx,
  bignum-IsArgument p os limit y n by,
  rw
      (
        are_fixnums_2_lem x y,
        no_fixnum p os limit x m bx,
        no_fixnum p os limit y n by,
        is_bignum_lem p os limit x m bx,
        is_bignum_lem p os limit y n by,
        bignum_operand_lem p os limit x m bx,
        bignum_operand_lem p os limit y n by,
      )
      (bind-done
        (g p (body (bx.object.at + 1)) bx.object.len (body (by.object.at + 1)) by.object.len)),
)
