-- ===== src/Prelude/Range.antt =====
-- Facts about small numbers, by evaluation of a test at each of them.
use open_asd.Prelude.{ℕ, zero, suc, ◌<◌, ◌≡◌, Bool, true, false, arith, if◌then◌else◌}
use native.Mathlib.Decide.{dec_lt}

unfoldable pub check_below : (ℕ → Bool) → ℕ → Bool
check_below test zero = true
check_below test (suc top) = if test top then check_below test top else false

pub check_below-at :
    (test : ℕ → Bool) {x : ℕ} (top : ℕ) → x < top → check_below test top ≡ true → test x ≡ true
unfolding check_below
check_below-at test zero below passed = absurd (omega arith)
check_below-at test {x} (suc top) below passed = elim (dec_lt x top) [
  | yes lower ↦ check_below-at test top lower (ground arith)
  | no at_top ↦ rw (last at_top) (ground arith)
]
  where
    last : ¬ (x < top) → x ≡ top
    last at_top = omega arith
