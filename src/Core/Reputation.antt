-- ===== src/Core/Reputation.antt =====
-- src/stakeroute/core/reputation.py
pub mod Bounds
use stakeroute.Prelude.{◌≡◌, ◌≤◌, true, false, Bool-cases, inl, inr, arith, if◌then◌else◌}
use stakeroute.Float.{Float, one_f, le, IsNumber}
use stakeroute.Float.Order.{IsOrdered, IsMonotone, le_trans, le_refl, le_numbers, le_of_not_lt}

module _ {F : Type 0} ⦃f : Float F⦄ where
  abbrev pub reputation_floor : F
  reputation_floor = f.literal 1 1

  abbrev pub reputation_ceil : F
  reputation_ceil = f.literal 10 1

  -- the default of `decay`
  abbrev pub default_decay : F
  default_decay = f.literal 3 1

  abbrev pub blended : F → F → F → F
  blended current improvement decay =
      f.plus (f.times (f.minus one_f decay) current) (f.times decay (f.plus current improvement))

  unfoldable pub bounded : F → F
  bounded x =
      if f.lt x reputation_floor
      then reputation_floor
      else if f.lt reputation_ceil x
      then reputation_ceil
      else x

  -- `brier_score` is deleted at once.
  unfoldable pub update_reputation : (current brier_score improvement decay : F) → F
  unfolding bounded
  update_reputation current _ improvement decay = bounded (blended current improvement decay)
