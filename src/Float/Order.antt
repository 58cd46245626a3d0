-- ===== src/Float/Order.antt =====
-- What IEEE 754 says of comparison and of rounding, as hypotheses. Every law holds of binary64,
-- NaNs, infinities and both zeros included.
use stakeroute.Prelude.{ℕ, ◌≤◌, ◌≡◌, ◌⊎◌, true, false, arith}
use stakeroute.Float.{Float, zero_f, le, IsNumber}

-- Comparison is a strict weak order on the values that are not NaN.
pub record IsOrdered (F : Type 0) ⦃f : Float F⦄ : Type 0 where
  pub lt_asymm : (a b : F) → f.lt a b ≡ true → f.lt b a ≡ false
  pub lt_trans : (a b c : F) → f.lt a b ≡ true → f.lt b c ≡ true → f.lt a c ≡ true
  pub eq_symm : (a b : F) → f.eq a b ≡ true → f.eq b a ≡ true
  pub eq_trans : (a b c : F) → f.eq a b ≡ true → f.eq b c ≡ true → f.eq a c ≡ true
  pub lt_of_eq_lt : (a b c : F) → f.eq a b ≡ true → f.lt b c ≡ true → f.lt a c ≡ true
  pub lt_of_lt_eq : (a b c : F) → f.lt a b ≡ true → f.eq b c ≡ true → f.lt a c ≡ true
  pub lt_not_eq : (a b : F) → f.lt a b ≡ true → f.eq a b ≡ false
  pub lt_numbers : (a b : F) → f.lt a b ≡ true → IsNumber a × IsNumber b
  pub compare : (a b : F) → IsNumber a → IsNumber b → (le a b ≡ true) ⊎ (f.lt b a ≡ true)
  -- decimal literals compare as the numbers that they stand for, once on a common denominator
  pub literal_lt : (m n k : ℕ) → m ≤ n → le (f.literal m k) (f.literal n k) ≡ true

-- Rounding is monotone: each operation keeps an order that the exact result has, unless a NaN
-- comes out.
pub record IsMonotone (F : Type 0) ⦃f : Float F⦄ : Type 0 where
  pub plus_mono :
      (a b c : F)
      → le a b ≡ true
      → IsNumber (f.plus c a)
      → IsNumber (f.plus c b)
      → le (f.plus c a) (f.plus c b) ≡ true
  pub times_mono :
      (a b c : F)
      → le zero_f c ≡ true
      → le a b ≡ true
      → IsNumber (f.times c a)
      → IsNumber (f.times c b)
      → le (f.times c a) (f.times c b) ≡ true
  -- negation is exact
  pub opposite_lt : (a b : F) → f.lt (f.opposite a) (f.opposite b) ≡ f.lt b a
  pub opposite_eq : (a b : F) → f.eq (f.opposite a) (f.opposite b) ≡ f.eq a b

module _ {F : Type 0} ⦃f : Float F⦄ (o : IsOrdered F) where
  pub le_trans : (a b c : F) → le a b ≡ true → le b c ≡ true → le a c ≡ true
  le_trans a b c h k =
      ground (arith, o.lt_trans a b c, o.lt_of_eq_lt a b c, o.lt_of_lt_eq a b c, o.eq_trans a b c)

  pub le_numbers : (a b : F) → le a b ≡ true → IsNumber a × IsNumber b
  le_numbers a b h =
      ground (arith, o.lt_numbers a b, o.eq_symm a b, o.eq_trans a b a, o.eq_trans b a b)

  pub le_refl : (a : F) → IsNumber a → le a a ≡ true
  le_refl a h = ground arith

  pub le_of_not_lt : (a b : F) → IsNumber a → IsNumber b → f.lt b a ≡ false → le a b ≡ true
  le_of_not_lt a b p q h = ground (arith, o.compare a b p q)
