-- ===== src/Number/Compare.antt =====
-- `scm_number_cmp` and `scm_number_equal` on any two numbers of the guest program.
use lilyvm.Base.{ℕ, ◌≡◌, ◌<◌, refl, sym, ap, ◌∙◌, inl, inr, ◌↔◌, arith, List, ℤ, ◌==◌}
use lilyvm.Outcome.{done}
use lilyvm.Value.{int, fix, bool, tru}
use lilyvm.Value.Fixnum.{fix-int}
use lilyvm.Bignum.Order.{order_val, cmp_words_lem}
use lilyvm.Bignum.Equal.{equal_words_iff}
use lilyvm.Bignum.{equal_words}
use lilyvm.Process.{VmProcess}
use lilyvm.Heap.Gc.Tiles.{Obj}
use lilyvm.Number.Bignums.{bignum_equal, bignum_cmp}
use lilyvm.Number.Bignums.Operands.{operand_words-here}
use lilyvm.Number.Value.{IsFixnum, IsNumber}
use lilyvm.Number.Arguments.{number_dispatch-IsDispatched}
use lilyvm.Number.Scm.{fixnum_equal, fixnum_cmp, scm_number_equal, scm_number_cmp}

fixnum_cmp_lem :
    (p : VmProcess) (x y : ℕ) (m n : ℤ)
    → IsFixnum x m
    → IsFixnum y n
    → fixnum_cmp p x y ≡ done (order_val m n, p)
unfolding fixnum_cmp
fixnum_cmp_lem p x y m n hx hy = rw (hx.2, hy.2) refl

fixnum_equal_lem :
    (p : VmProcess) (x y : ℕ) (m n : ℤ)
    → IsFixnum x m
    → IsFixnum y n
    → (v : ℕ) × (fixnum_equal p x y ≡ done (v, p)) × ((v ≡ tru) ↔ (m ≡ n))
unfolding fixnum_equal bool
fixnum_equal_lem p x y m n (fx, sx, ex) (fy, sy, ey) = (
  bool (x == y),
  refl,
  (
    λ h. let same : x ≡ y = ground arith in sym ex ∙ ap int same ∙ ey,
    λ h.
        let same : x ≡ y = sym (fix-int x sx fx) ∙ ap fix (ex ∙ h ∙ sym ey) ∙ fix-int y sy fy in
        ground arith,
  ),
)

module _ (p : VmProcess) (os : List Obj) (limit : ℕ) (some_words : 1 < limit) (x y : ℕ) (m n : ℤ)
    (hx : IsNumber p os limit x m) (hy : IsNumber p os limit y n) where
  -- On any two numbers of fewer than `limit` words, for a limit above 1, `scm_number_cmp` returns
  -- `LT`, `EQ` or `GT` as the one integer is below, equal to or above the other, and changes nothing.
  pub scm_number_cmp_lem : scm_number_cmp p x y ≡ done (order_val m n, p)
  unfolding scm_number_cmp bignum_cmp
  scm_number_cmp_lem =
      elim (number_dispatch-IsDispatched fixnum_cmp bignum_cmp p os limit x y m n some_words hx
        hy) [
          | inl (fx, fy, e) ↦ e ∙ fixnum_cmp_lem p x y m n fx fy
          | inr (a, lena, b, lenb, ha, hb, e) ↦
              e
              ∙ rw
                  (
                    operand_words-here p os a lena ha.words ha.operand,
                    operand_words-here p os b lenb hb.words hb.operand,
                    cmp_words_lem ha.words hb.words ha.are_words hb.are_words ha.minimal hb.minimal,
                    ha.stands,
                    hb.stands,
                  )
                  refl
        ]

  -- On any two numbers of fewer than `limit` words, for a limit above 1, `scm_number_equal` returns
  -- true exactly for equal integers, and changes nothing.
  pub scm_number_equal_iff :
      (v : ℕ) × (scm_number_equal p x y ≡ done (v, p)) × ((v ≡ tru) ↔ (m ≡ n))
  unfolding scm_number_equal bignum_equal
  scm_number_equal_iff =
      elim (number_dispatch-IsDispatched fixnum_equal bignum_equal p os limit x y m n some_words hx
        hy) [
          | inl (fx, fy, e) ↦
              let (v, runs, iff) = fixnum_equal_lem p x y m n fx fy in (v, e ∙ runs, iff)
          | inr (a, lena, b, lenb, ha, hb, e) ↦
              let iff =
                equal_words_iff ha.words hb.words ha.are_words hb.are_words ha.minimal hb.minimal in
              (
                equal_words ha.words hb.words,
                e
                    ∙ rw
                        (
                          operand_words-here p os a lena ha.words ha.operand,
                          operand_words-here p os b lenb hb.words hb.operand,
                        )
                        refl,
                (
                  λ h. sym ha.stands ∙ iff.0 h ∙ hb.stands,
                  λ h. iff.1 (ha.stands ∙ h ∙ sym hb.stands),
                ),
              )
        ]
