-- ===== src/Core/Types/Clamp.antt =====
-- What `clamp_probability` gives.
use stakeroute.Prelude.{◌≡◌, true, arith}
use stakeroute.Float.{Float, le, IsNumber}
use stakeroute.Float.Order.{IsOrdered, le_refl, le_of_not_lt, le_numbers}
use stakeroute.Core.Types.{probability_floor, probability_ceil, clamp_probability}

module _ {F : Type 0} ⦃f : Float F⦄ (o : IsOrdered F) where
  pub floor-le-ceil : le (probability_floor {F = F}) probability_ceil ≡ true
  floor-le-ceil = o.literal_lt 1 99 2 (omega arith)

  -- A number is clamped into [0.01, 0.99].
  pub clamp_probability_bounds :
      (p : F)
      → IsNumber p
      → (le probability_floor (clamp_probability p) ≡ true)
        × (le (clamp_probability p) probability_ceil ≡ true)
  unfolding clamp_probability
  clamp_probability_bounds p n =
      let ends = le_numbers o probability_floor probability_ceil floor-le-ceil in
      let whole = floor-le-ceil in
      (
        ground (
          arith,
          le_of_not_lt o probability_floor p ends.0 n,
          le_refl o probability_floor ends.0,
        ),
        ground
            (arith, le_of_not_lt o p probability_ceil n ends.1, le_refl o probability_ceil ends.1),
      )
