-- ===== src/Simulator/World.antt =====
-- `generate_world` of src/stakeroute/simulator/scenarios.py, and `forecast_probability` of agents.py.
use stakeroute.Prelude.{
  ℕ, zero, suc, ◌+◌, ◌*◌, Bool, List, [], ◌∷◌, ◌++◌, ℤ, pos, ◌+ℤ◌, eqb_ℤ, not, codes,
}
use stakeroute.Float.{Float}
use stakeroute.Core.Types.{clamp_probability}
use stakeroute.Simulator.{
  Random, SignalSpec, HypothesisSpec, ForecastSpec, AgentProfile, ScenarioWorld, show,
  noise_sources, honest_profiles, minor_profile, base_probability,
}

module _ {F : Type 0} ⦃f : Float F⦄ where
  abbrev pub payment_hypothesis : (reference_ms : ℤ) → HypothesisSpec F
  payment_hypothesis reference_ms = record {
    id = codes "h-payment-failure";
    statement = codes "payment_gateway_failure";
    prior_probability = f.literal 30 2;
    impact_minor_units = pos 800000000;
    urgency = f.literal 10 1;
    review_cost = f.literal 10 1;
    deadline_ms = reference_ms +ℤ pos 3600000;
    created_at_ms = reference_ms;
    ground_truth = pos 1;
  }

  abbrev pub database_hypothesis : (reference_ms : ℤ) → HypothesisSpec F
  database_hypothesis reference_ms = record {
    id = codes "h-database-saturation";
    statement = codes "database_saturation";
    prior_probability = f.literal 30 2;
    impact_minor_units = pos 150000000;
    urgency = f.literal 8 1;
    review_cost = f.literal 10 1;
    deadline_ms = reference_ms +ℤ pos 3600000;
    created_at_ms = reference_ms;
    ground_truth = pos 0;
  }

  abbrev pub minor_hypothesis : (reference_ms : ℤ) → ℕ → HypothesisSpec F
  minor_hypothesis reference_ms i = record {
    id = codes "h-minor-" ++ show i;
    statement = codes "minor_anomaly_" ++ show i;
    prior_probability = f.literal 15 2;
    impact_minor_units = pos 5000000;
    urgency = f.literal 3 1;
    review_cost = f.literal 10 1;
    deadline_ms = reference_ms +ℤ pos 3600000;
    created_at_ms = reference_ms;
    ground_truth = pos 0;
  }

  -- from the index `i` on
  unfoldable pub minor_hypotheses : (reference_ms : ℤ) (count i : ℕ) → List (HypothesisSpec F)
  minor_hypotheses reference_ms zero i = []
  minor_hypotheses reference_ms (suc n) i =
      minor_hypothesis reference_ms i ∷ minor_hypotheses reference_ms n (i + 1)

  module _ {R : Type 0} (rng : Random R F) where
    unfoldable pub forecast_probability : (ground_truth : Bool) → AgentProfile F → R → F × R
    forecast_probability ground_truth p r =
        let (noise, r1) = rng.uniform (f.opposite (f.literal 5 2)) (f.literal 5 2) r in
        (clamp_probability (f.plus (base_probability ground_truth p) noise), r1)

    unfoldable pub noise_signals : (reference_ms : ℤ) (count i : ℕ) → R → List (SignalSpec F) × R
    noise_signals reference_ms zero i r = ([], r)
    noise_signals reference_ms (suc n) i r =
        let (source, r1) = rng.choice noise_sources r in
        let (value, r2) = rng.uniform (f.literal 0 1) (f.literal 10 1) r1 in
        let rest = noise_signals reference_ms n (i + 1) r2 in
        let signal : SignalSpec F = record {
          source = source;
          source_event_id = codes "noise-" ++ show i;
          observed_at_ms = reference_ms +ℤ pos (i * 37);
          metric = source ++ codes "_signal";
          value = rng.round value 3;
        } in
        (signal ∷ rest.0, rest.1)

    abbrev pub forecast_spec : HypothesisSpec F → AgentProfile F → F → ℤ → ForecastSpec F
    forecast_spec h p probability stake = record {
      hypothesis_id = h.id;
      agent_id = p.agent_id;
      probability = probability;
      stake = stake;
      evidence_cluster_id = p.agent_id ++ (codes "-" ++ (h.id ++ codes "-evidence"));
      source_event_id = p.agent_id ++ (codes "-" ++ (h.id ++ codes "-forecast"));
    }

    -- the loop over the two contenders, for one profile
    unfoldable pub contender_forecasts :
        AgentProfile F → List (HypothesisSpec F) → R → List (ForecastSpec F) × R
    contender_forecasts p [] r = ([], r)
    contender_forecasts p (h ∷ hs) r =
        let (probability, r1) = forecast_probability (not (eqb_ℤ h.ground_truth (pos 0))) p r in
        let (stake, r2) = rng.randint (pos 10) (pos 40) r1 in
        let rest = contender_forecasts p hs r2 in
        (forecast_spec h p probability stake ∷ rest.0, rest.1)

    unfoldable pub profile_forecasts :
        List (AgentProfile F) → List (HypothesisSpec F) → R → List (ForecastSpec F) × R
    profile_forecasts [] hs r = ([], r)
    profile_forecasts (p ∷ ps) hs r =
        let mine = contender_forecasts p hs r in
        let rest = profile_forecasts ps hs mine.1 in (mine.0 ++ rest.0, rest.1)

    -- the loop over the minor hypotheses, from the index `i` on
    unfoldable pub minor_forecasts : List (HypothesisSpec F) → (i : ℕ) → R → List (ForecastSpec F)
    minor_forecasts [] i r = []
    minor_forecasts (h ∷ hs) i r =
        let (value, r1) = rng.uniform (f.literal 15 2) (f.literal 35 2) r in
        let (stake, r2) = rng.randint (pos 1) (pos 5) r1 in
        let rest = minor_forecasts hs (i + 1) r2 in
        forecast_spec h (minor_profile i) (rng.round value 3) stake ∷ rest

    unfoldable pub generate_world :
        R → (noise_count minor_hypothesis_count : ℕ) (reference_ms : ℤ) → ScenarioWorld F
    generate_world r noise_count minor_hypothesis_count reference_ms =
        let (signals, r1) = noise_signals reference_ms noise_count 0 r in
        let contenders = payment_hypothesis reference_ms ∷ database_hypothesis reference_ms ∷ [] in
        let minors = minor_hypotheses reference_ms minor_hypothesis_count 0 in
        let honest = profile_forecasts honest_profiles contenders r1 in
        record {
          signals = signals;
          hypotheses = contenders ++ minors;
          agents = honest_profiles;
          forecasts = honest.0 ++ minor_forecasts minors 0 honest.1;
        }
