-- ===== src/Simulator/Stress.antt =====
-- src/stakeroute/simulator/stress.py: the two floods of forecasts on one hypothesis.
use stakeroute.Prelude.{
  ℕ, zero, suc, ◌+◌, Bool, true, false, List, [], ◌∷◌, ◌++◌, ℤ, pos, Text, codes,
}
use stakeroute.Float.{Float}
use stakeroute.Core.Types.{clamp_probability}
use stakeroute.Core.Reputation.{reputation_floor}
use stakeroute.Simulator.{Random, AgentProfile, ForecastSpec, show}

module _ {F R : Type 0} ⦃f : Float F⦄ (rng : Random R F) where
  abbrev pub Flood : Type 0
  Flood = List (AgentProfile F) × List (ForecastSpec F)

  abbrev pub sybil_id : (target : Text) → ℕ → Text
  sybil_id target i = codes "sybil-" ++ (target ++ (codes "-" ++ show i))

  abbrev pub correlated_id : (cluster : Text) → ℕ → Text
  correlated_id cluster i = codes "correlated-" ++ (cluster ++ (codes "-" ++ show i))

  abbrev pub flood_agent :
      (agent_id display_name : Text) (accuracy starting_reputation : F) (attested : Bool)
      → AgentProfile F
  flood_agent agent_id display_name accuracy starting_reputation attested = record {
    agent_id = agent_id;
    display_name = display_name;
    accuracy = accuracy;
    starting_reputation = starting_reputation;
    malicious = false;
    attested = attested;
  }

  abbrev pub flood_forecast :
      (target agent_id : Text) (probability : F) (stake : ℤ) (cluster : Text) → ForecastSpec F
  flood_forecast target agent_id probability stake cluster = record {
    hypothesis_id = target;
    agent_id = agent_id;
    probability = probability;
    stake = stake;
    evidence_cluster_id = cluster;
    source_event_id = agent_id ++ codes "-forecast";
  }

  -- from the index `i` on
  unfoldable pub inject_sybils : (count i : ℕ) (target : Text) (confidence : F) → R → Flood
  inject_sybils zero i target confidence r = ([], [])
  inject_sybils (suc n) i target confidence r =
      let agent_id = sybil_id target i in
      let (noise, r1) = rng.uniform (f.opposite (f.literal 3 2)) (f.literal 3 2) r in
      let (stake, r2) = rng.randint (pos 1) (pos 5) r1 in
      let rest = inject_sybils n (i + 1) target confidence r2 in
      let agent =
        flood_agent agent_id (codes "Sybil " ++ show i) (f.literal 5 1) reputation_floor false in
      let forecast =
        flood_forecast target agent_id (clamp_probability (f.plus confidence noise)) stake
          (agent_id ++ codes "-evidence") in
      (agent ∷ rest.0, forecast ∷ rest.1)

  unfoldable pub inject_correlated :
      (count i : ℕ) (cluster target : Text) (confidence : F) → R → Flood
  inject_correlated zero i cluster target confidence r = ([], [])
  inject_correlated (suc n) i cluster target confidence r =
      let agent_id = correlated_id cluster i in
      let (noise, r1) = rng.uniform (f.opposite (f.literal 3 2)) (f.literal 3 2) r in
      let (stake, r2) = rng.randint (pos 1) (pos 2) r1 in
      let rest = inject_correlated n (i + 1) cluster target confidence r2 in
      let agent =
        flood_agent agent_id (codes "Correlated Reporter " ++ show i) (f.literal 7 1)
          (f.literal 2 1) true in
      let forecast =
        flood_forecast target agent_id (clamp_probability (f.plus confidence noise)) stake
          cluster in
      (agent ∷ rest.0, forecast ∷ rest.1)
