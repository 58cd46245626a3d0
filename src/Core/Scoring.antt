-- ===== src/Core/Scoring.antt =====
-- src/stakeroute/core/scoring.py
use stakeroute.Prelude.{not, ◌||◌, ℤ, pos, eqb_ℤ, Result, ok, raise_if, ◌>>◌, invalid_outcome}
use stakeroute.Float.{Float}

module _ {F : Type 0} ⦃f : Float F⦄ where
  unfoldable pub brier_score : F → ℤ → Result F
  brier_score probability outcome = do
    raise_if (not (eqb_ℤ outcome (pos 0) || eqb_ℤ outcome (pos 1))) invalid_outcome
    ok (f.square (f.minus probability (f.of_int outcome)))
