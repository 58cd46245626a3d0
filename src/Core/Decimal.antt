-- ===== src/Core/Decimal.antt =====
-- What src/stakeroute/core/settlement.py uses of the standard library's `decimal`: the rounding of a
-- product to the 28 digits of the default context, and `quantize` to a number of decimal places; both
-- with ROUND_HALF_EVEN. A decimal is
-- a coefficient with its number of places.
pub mod Rounding
pub mod Context
use stakeroute.Prelude.{
  ℕ, ◌+◌, ◌-◌, ◌*◌, ◌/◌, ◌%◌, ◌^◌, ltb, leb, ◌==◌, if◌then◌else◌, ℤ, pos, negsuc, neg, pos_part,
  neg_part, ◌*ℤ◌, Result, ok, raise_if, ◌>>=◌, ◌>>◌, decimal_error, Bool, true, false, zero, suc,
}

-- n / d, to the nearest number, and to the even one of two that are as near.
unfoldable pub half_even : ℕ → ℕ → ℕ
half_even n d =
    let q = n / d in
    let r = n % d in
    if ltb (2 * r) d then q else if ltb d (2 * r) then q + 1 else if q % 2 == 0 then q else q + 1

-- Decimals carry their sign apart, and `ROUND_HALF_EVEN` does not look at it.
unfoldable pub half_even_ℤ : ℤ → ℕ → ℤ
unfolding half_even
half_even_ℤ (pos n) d = pos (half_even n d)
half_even_ℤ (negsuc n) d = neg (pos (half_even (suc n) d))

-- How many digits a coefficient has over the 28 of the context. The coefficient itself is fuel enough.
unfoldable pub excess : (fuel n : ℕ) → ℕ
excess zero n = 0
excess (suc fuel) n = elim (ltb n (10 ^ 28)) [ true ↦ 0 | false ↦ suc (excess fuel (n / 10)) ]

unfoldable pub to_context : ℕ → ℕ
to_context n = let e = excess n n in half_even n (10 ^ e) * 10 ^ e

-- The result of an operation of `decimal` with the exact coefficient `c`: what the context's 28
-- digits leave of it, on the same number of places.
unfoldable pub in_context : ℤ → ℤ
in_context (pos n) = pos (to_context n)
in_context (negsuc n) = neg (pos (to_context (suc n)))

-- `x.quantize(Decimal(10) ** -places, rounding=ROUND_HALF_EVEN)` as its coefficient. It raises when
-- the coefficient has more than 28 digits.
unfoldable pub quantize : ℤ × ℕ → ℕ → Result ℤ
unfolding half_even_ℤ
quantize (c, k) places =
    let q =
      if ltb places k then half_even_ℤ c (10 ^ (k - places)) else c *ℤ pos (10 ^ (places - k)) in
    raise_if (leb (10 ^ 28) (pos_part q + neg_part q)) decimal_error >> ok q
