-- ===== src/Float.antt =====
-- Python's `float` as the program uses it: an interface, since the arithmetic is the platform's
-- IEEE 754 binary64 and no part of the repository.
pub mod Order
pub mod Fixed
use stakeroute.Prelude.{
  ℕ, ◌≡◌, Bool, true, false, ◌||◌, Option, List, ℤ, Result, ok, err, raise_if, ◌>>=◌, ◌>>◌, Error,
  value_error, zero_division,
}

pub record Float (F : Type 0) : Type 0 where
  -- `literal m k` is the literal that stands for m / 10 ^ k, such as 0.01 for `literal 1 2`
  pub literal : ℕ → ℕ → F
  pub of_int : ℤ → F
  pub infinity : F
  pub plus : F → F → F
  pub minus : F → F → F
  pub times : F → F → F
  pub over : F → F → F
  pub opposite : F → F
  -- `x ** 2`
  pub square : F → F
  pub root : F → F
  -- true division of two ints, `m / n`
  pub ratio : ℤ → ℤ → F
  -- `sum` of floats, which compensates rounding errors since Python 3.12
  pub total : List F → F
  pub lt : F → F → Bool
  pub eq : F → F → Bool
  -- `math.ceil` and `math.floor`, which raise on what is not finite
  pub ceil : F → Result ℤ
  pub floor : F → Result ℤ
  -- `Decimal(str(x))` as a coefficient and a number of decimal places, if `x` is finite
  pub decimal : F → Option (ℤ × ℕ)

module _ {F : Type 0} ⦃f : Float F⦄ where
  abbrev pub zero_f : F
  zero_f = f.literal 0 0

  abbrev pub one_f : F
  one_f = f.literal 1 0

  -- `a <= b` is `a < b or a == b`; on a NaN both are false.
  abbrev pub le : F → F → Bool
  le a b = f.lt a b || f.eq a b

  -- Not a NaN: a NaN is the value that does not equal itself.
  abbrev pub IsNumber : F → Type 0
  IsNumber a = f.eq a a ≡ true

  -- `a / b` raises on a zero divisor.
  abbrev pub divide : F → F → Result F
  divide a b = do raise_if (f.eq b zero_f) zero_division; ok (f.over a b)

  -- `math.sqrt` raises below zero.
  abbrev pub sqrt : F → Result F
  sqrt a = do raise_if (f.lt a zero_f) value_error; ok (f.root a)
