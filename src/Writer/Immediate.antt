-- ===== src/Writer/Immediate.antt =====
-- What `scm_write` prints of numbers and of the value of a fresh register.
use lilyvm.Base.{ℕ, suc, ◌+◌, ◌*◌, ◌≤◌, ◌≡◌, refl, ap, arith, pos, false, ◌==◌}
use lilyvm.Outcome.{Outcome, done}
use lilyvm.Value.{fix, uninitialized, is_allocated}
use lilyvm.Value.Tags.{fix_lem, is_allocated_lem}
use lilyvm.Value.Fixnum.{is_fixnum-fix, int-fix}
use lilyvm.Process.{VmProcess}
use lilyvm.Command.{decimal}
use lilyvm.Writer.{write_immediate, scm_write, print_int, text_uninitialized}

-- A fixnum is no special value.
module _ (m : ℕ) where
  no_special : (k : ℕ) → (fix (pos m) == k * 8 + 1) ≡ false
  no_special k = ground (arith, fix_lem (pos m))

pub write_immediate-fix : (m : ℕ) → m ≤ 4095 → write_immediate (fix (pos m)) ≡ decimal 5 m
unfolding write_immediate print_int
write_immediate-fix m h =
    rw
      (
        no_special m 2,
        no_special m 0,
        no_special m 1,
        no_special m 3,
        no_special m 4,
        no_special m 5,
        is_fixnum-fix (pos m),
        int-fix (pos m) (ground arith),
      )
      refl

module _ (on_break : Outcome (Unit {0})) (fuel : ℕ) (p : VmProcess) where
  pub scm_write-fix :
      (m : ℕ) → m ≤ 4095 → scm_write on_break (suc fuel) p (fix (pos m)) ≡ done (decimal 5 m)
  unfolding scm_write
  scm_write-fix m h =
      let immediate : is_allocated (fix (pos m)) ≡ false =
        ground (arith, is_allocated_lem (fix (pos m)), fix_lem (pos m)) in
      rw immediate (ap done (write_immediate-fix m h))

  pub scm_write-uninitialized :
      scm_write on_break (suc fuel) p uninitialized ≡ done text_uninitialized
  unfolding scm_write write_immediate is_allocated
  scm_write-uninitialized = refl
