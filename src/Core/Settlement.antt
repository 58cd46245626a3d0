-- ===== src/Core/Settlement.antt =====
-- src/stakeroute/core/settlement.py. The scale is a power of ten, 10 ^ `places`: the code's callers
-- leave it at its default, 100.
pub mod Delta
pub mod Nearest
pub mod Forecast
use stakeroute.Prelude.{
  ℕ, ◌≡◌, Option, none, some, ℤ, neg, ◌*ℤ◌, max_ℤ, Result, ok, err, ◌>>=◌, decimal_error, Text,
}
use stakeroute.Float.{Float}
use stakeroute.Core.Types.{Settlement}
use stakeroute.Core.Scoring.{brier_score}
use stakeroute.Core.Decimal.{in_context, quantize}

-- A NaN or an infinity does not get through `quantize` and `int`.
abbrev pub finite {ℓ} : {A : Type ℓ} → Option A → Result A
finite none = err decimal_error
finite (some x) = ok x

-- The product, the second rounding and the bound: `improvement` counts units of 1 / 10 ^ places.
unfoldable pub credit_delta : ℤ → ℤ → ℕ → Result ℤ
credit_delta stake improvement places = do
  delta ← quantize (in_context (stake *ℤ improvement), places) 0
  ok (max_ℤ delta (neg stake))

abbrev pub default_places : ℕ
default_places = 2

module _ {F : Type 0} ⦃f : Float F⦄ where
  unfoldable pub settle_forecast : Text → ℤ → F → F → ℤ → ℕ → Result (Settlement F)
  settle_forecast forecast_id stake prior_probability probability outcome places = do
    prior_brier ← brier_score prior_probability outcome
    forecast_brier ← brier_score probability outcome
    let improvement = f.minus prior_brier forecast_brier
    improvement_decimal ← finite (f.decimal improvement)
    rounded ← quantize improvement_decimal places
    delta ← credit_delta stake rounded places
    ok (record {
      forecast_id = forecast_id;
      brier_score = forecast_brier;
      prior_brier_score = prior_brier;
      improvement = improvement;
      credit_delta = delta;
    })
