-- ===== src/Core/Reputation/Bounds.antt =====
-- What `update_reputation` guarantees.
use stakeroute.Prelude.{◌≡◌, true, false, Bool-cases, inl, inr, arith}
use stakeroute.Float.{Float, zero_f, one_f, le, IsNumber}
use stakeroute.Float.Order.{IsOrdered, IsMonotone, le_refl, le_numbers, le_of_not_lt}
use stakeroute.Core.Reputation.{
  reputation_floor, reputation_ceil, blended, bounded, update_reputation,
}

module _ {F : Type 0} ⦃f : Float F⦄ (o : IsOrdered F) where
  floor-le-ceil : le (reputation_floor {F = F}) reputation_ceil ≡ true
  floor-le-ceil = o.literal_lt 1 10 1 (omega arith)

  bounded_bounds :
      (x : F)
      → IsNumber x
      → (le reputation_floor (bounded x) ≡ true) × (le (bounded x) reputation_ceil ≡ true)
  unfolding bounded
  bounded_bounds x n =
      let ends = le_numbers o reputation_floor reputation_ceil floor-le-ceil in
      let whole = floor-le-ceil in
      (
        ground
            (arith, le_of_not_lt o reputation_floor x ends.0 n, le_refl o reputation_floor ends.0),
        ground (arith, le_of_not_lt o x reputation_ceil n ends.1, le_refl o reputation_ceil ends.1),
      )

  -- The new reputation lies in [0.1, 1.0], whatever the scores and the decay, unless the blend of
  -- the old reputation and the target is a NaN.
  pub update_reputation_bounds :
      (current brier improvement decay : F)
      → IsNumber (blended current improvement decay)
      → let r = update_reputation current brier improvement decay in
        (le reputation_floor r ≡ true) × (le r reputation_ceil ≡ true)
  unfolding update_reputation
  update_reputation_bounds current brier improvement decay n =
      bounded_bounds (blended current improvement decay) n

  lt_of_lt_le : (a b c : F) → f.lt a b ≡ true → le b c ≡ true → f.lt a c ≡ true
  lt_of_lt_le a b c h k = ground (arith, o.lt_trans a b c, o.lt_of_lt_eq a b c)

  lt_of_le_lt : (a b c : F) → le a b ≡ true → f.lt b c ≡ true → f.lt a c ≡ true
  lt_of_le_lt a b c h k = ground (arith, o.lt_trans a b c, o.lt_of_eq_lt a b c)

  bounded_low : (z : F) → f.lt z reputation_floor ≡ true → bounded z ≡ reputation_floor
  unfolding bounded
  bounded_low z low = ground arith

  bounded_mid :
      (z : F) → f.lt z reputation_floor ≡ false → f.lt reputation_ceil z ≡ false → bounded z ≡ z
  unfolding bounded
  bounded_mid z low high = ground arith

  bounded_top : (z : F) → f.lt reputation_ceil z ≡ true → bounded z ≡ reputation_ceil
  unfolding bounded
  bounded_top z top = ground (
    arith,
    o.lt_asymm reputation_floor z,
    lt_of_le_lt reputation_floor reputation_ceil z floor-le-ceil top,
  )

  below_bounded :
      (x y : F)
      → IsNumber x
      → IsNumber y
      → le x y ≡ true
      → f.lt x reputation_floor ≡ false
      → f.lt reputation_ceil x ≡ false
      → le x (bounded y) ≡ true
  unfolding bounded
  below_bounded x y p q h low high =
      let ends = le_numbers o reputation_floor reputation_ceil floor-le-ceil in
      ground
        (arith, lt_of_le_lt x y reputation_floor h, le_of_not_lt o x reputation_ceil p ends.1 high)

  bounded_mono : (x y : F) → le x y ≡ true → le (bounded x) (bounded y) ≡ true
  bounded_mono x y h =
      let (p, q) = le_numbers o x y h in
      let ends = le_numbers o reputation_floor reputation_ceil floor-le-ceil in
      elim (Bool-cases (f.lt x reputation_floor)) [
        | inl low ↦ rw (bounded_low x low) (bounded_bounds y q).0
        | inr high ↦ elim (Bool-cases (f.lt reputation_ceil x)) [
          | inl top ↦
              rw (bounded_top y (lt_of_lt_le reputation_ceil x y top h)) (bounded_bounds x p).1
          | inr mid ↦ rw (bounded_mid x high mid) (below_bounded x y p q h high mid)
        ]
      ]

  module _ (m : IsMonotone F) where
    -- A better improvement over the prior never gives a lower reputation, for a decay that is not
    -- negative and as long as no step gives a NaN.
    pub update_reputation_mono :
        (current brier brier' low high decay : F)
        → le zero_f decay ≡ true
        → le low high ≡ true
        → IsNumber (f.plus current low)
        → IsNumber (f.plus current high)
        → IsNumber (f.times decay (f.plus current low))
        → IsNumber (f.times decay (f.plus current high))
        → IsNumber (blended current low decay)
        → IsNumber (blended current high decay)
        → le
            (update_reputation current brier low decay)
            (update_reputation current brier' high decay)
          ≡ true
    unfolding update_reputation
    update_reputation_mono current brier brier' low high decay d h a b a' b' p q =
        bounded_mono (blended current low decay) (blended current high decay) (
          m.plus_mono _ _ (f.times (f.minus one_f decay) current)
            (m.times_mono _ _ decay d (m.plus_mono low high current h a b) a' b') p q)
