-- ===== src/Core/Settlement/Forecast.antt =====
-- `settle_forecast` as a whole.
use stakeroute.Prelude.{
  ℕ, ◌≡◌, refl, ◌≢◌, subst, ℤ, pos, neg, ◌≤ℤ◌, max_ℤ, ok, err, invalid_outcome, bind-eq-ok, Text,
  arith,
}
use stakeroute.Float.{Float}
use stakeroute.Core.Types.{Settlement}
use stakeroute.Core.Scoring.{brier_score}
use stakeroute.Core.Decimal.{quantize}
use stakeroute.Core.Settlement.{finite, credit_delta, settle_forecast}

max_ℤ-right_le : (a b : ℤ) → b ≤ℤ max_ℤ a b
max_ℤ-right_le a b = ground arith

-- No settlement takes more than the stake.
credit_delta-ge :
    (stake i : ℤ) (places : ℕ) (d : ℤ) → credit_delta stake i places ≡ ok d → neg stake ≤ℤ d
unfolding credit_delta
credit_delta-ge stake i places d h = ground (arith)

module _ {F : Type 0} ⦃f : Float F⦄ where
  -- What a settlement reports: the two scores, their difference, and the delta that follows from
  -- the difference rounded to the scale, which takes at most the stake.
  pub record IsSettled (forecast_id : Text) (stake : ℤ) (prior probability : F) (outcome : ℤ)
      (places : ℕ) (s : Settlement F) : Type 0 where
    pub id : s.forecast_id ≡ forecast_id
    pub score : brier_score probability outcome ≡ ok s.brier_score
    pub prior_score : brier_score prior outcome ≡ ok s.prior_brier_score
    pub difference : s.improvement ≡ f.minus s.prior_brier_score s.brier_score
    pub rounded : ℤ
    pub rounding :
        (x : ℤ × ℕ) × (finite (f.decimal s.improvement) ≡ ok x) × (quantize x places ≡ ok rounded)
    pub delta : credit_delta stake rounded places ≡ ok s.credit_delta
    pub bound : neg stake ≤ℤ s.credit_delta

  -- A settlement that goes through reports what `IsSettled` lists.
  pub settle_forecast-IsSettled :
      (forecast_id : Text) (stake : ℤ) (prior probability : F) (outcome : ℤ) (places : ℕ)
      (s : Settlement F)
      → settle_forecast forecast_id stake prior probability outcome places ≡ ok s
      → IsSettled forecast_id stake prior probability outcome places s
  unfolding settle_forecast
  settle_forecast-IsSettled forecast_id stake prior probability outcome places s h =
      let (a, ha, h1) = bind-eq-ok (brier_score prior outcome) _ h in
      let (b, hb, h2) = bind-eq-ok (brier_score probability outcome) _ h1 in
      let (x, hx, h3) = bind-eq-ok (finite (f.decimal (f.minus a b))) _ h2 in
      let (r, hr, h4) = bind-eq-ok (quantize x places) _ h3 in
      let (d, hd, e) = bind-eq-ok (credit_delta stake r places) _ h4 in
      let made : Settlement F = record {
        forecast_id = forecast_id;
        brier_score = b;
        prior_brier_score = a;
        improvement = f.minus a b;
        credit_delta = d;
      } in
      let same : made ≡ s = cc in
      subst (IsSettled forecast_id stake prior probability outcome places) same (record {
        id = refl;
        score = hb;
        prior_score = ha;
        difference = refl;
        rounded = r;
        rounding = (x, hx, hr);
        delta = hd;
        bound = credit_delta-ge stake r places d hd;
      })

  -- An outcome other than 0 and 1 is refused before anything is scored.
  pub settle_invalid_outcome :
      (forecast_id : Text) (stake : ℤ) (prior probability : F) (outcome : ℤ) (places : ℕ)
      → outcome ≢ pos 0
      → outcome ≢ pos 1
      → settle_forecast forecast_id stake prior probability outcome places ≡ err invalid_outcome
  unfolding settle_forecast brier_score
  settle_invalid_outcome forecast_id stake prior probability outcome places a b = ground arith
