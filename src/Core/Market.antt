-- ===== src/Core/Market.antt =====
-- src/stakeroute/core/market.py
pub mod Explain
pub mod Determinism
use stakeroute.Prelude.{
  ℕ, Bool, true, false, Option, none, some, List, [], ◌∷◌, map, ℤ, count, Result, ok, err, ◌>>=◌,
  key_error, Text, text_eq, text_lt, sorted, if◌then◌else◌,
}
use stakeroute.Float.{Float, zero_f, divide, sqrt}
use stakeroute.Core.Types.{AgentSnapshot, ForecastSnapshot, Contribution, AggregationResult}
use stakeroute.Core.Independence.{independence_factor}

-- A dict of agents by id, without duplicate keys.
abbrev pub Agents : Type 0 → Type 0
Agents F = List (Text × AgentSnapshot F)

-- `agents[agent_id]`
unfoldable pub find_agent : {F : Type 0} → Text → Agents F → Result (AgentSnapshot F)
find_agent k [] = err key_error
find_agent k ((j, a) ∷ rest) = if text_eq j k then ok a else find_agent k rest

-- `cluster_sizes[cluster_id]` of the `Counter`
abbrev pub cluster_size : {F : Type 0} → List (ForecastSnapshot F) → Text → ℕ
cluster_size forecasts c = count (λ g. text_eq g.evidence_cluster_id c) forecasts

abbrev pub agent_before : {F : Type 0} → ForecastSnapshot F → ForecastSnapshot F → Bool
agent_before a b = text_lt a.agent_id b.agent_id

-- An element of `weighted`, with the agent and the cluster size that the second loop looks up again.
pub record Weighted (F : Type 0) : Type 0 where
  pub forecast : ForecastSnapshot F
  pub agent : AgentSnapshot F
  pub size : ℕ
  pub independence : F
  pub weight : F

module _ {F : Type 0} ⦃f : Float F⦄ where
  unfoldable pub influence_weight : F → ℤ → F → Result F
  influence_weight reputation stake independence = do
    root ← sqrt (f.of_int stake)
    ok (f.times (f.times reputation root) independence)

  -- the body of the first loop
  unfoldable pub weigh :
      List (ForecastSnapshot F) → Agents F → ForecastSnapshot F → Result (Weighted F)
  weigh forecasts agents g = do
    agent ← find_agent g.agent_id agents
    let size = cluster_size forecasts g.evidence_cluster_id
    independence ← independence_factor size
    weight ← influence_weight agent.reputation g.stake independence
    ok (record {
      forecast = g;
      agent = agent;
      size = size;
      independence = independence;
      weight = weight;
    })

  unfoldable pub weigh_all :
      List (ForecastSnapshot F) → Agents F → List (ForecastSnapshot F) → Result (List (Weighted F))
  weigh_all forecasts agents [] = ok []
  weigh_all forecasts agents (g ∷ gs) = do
    w ← weigh forecasts agents g
    ws ← weigh_all forecasts agents gs
    ok (w ∷ ws)

  -- the body of the second loop: `alpha` and the contribution
  unfoldable pub contribution : F → Weighted F → Result (Contribution F)
  contribution total_weight w = do
    alpha ← if f.lt zero_f total_weight then divide w.weight total_weight else ok zero_f
    ok (record {
      agent_id = w.forecast.agent_id;
      forecast_id = w.forecast.id;
      probability = w.forecast.probability;
      stake = w.forecast.stake;
      reputation = w.agent.reputation;
      evidence_cluster_id = w.forecast.evidence_cluster_id;
      cluster_size = w.size;
      independence = w.independence;
      weight = w.weight;
      alpha = alpha;
    })

  -- the second loop, with `aggregated` so far
  unfoldable pub combine : F → F → List (Weighted F) → Result (F × List (Contribution F))
  combine total_weight aggregated [] = ok (aggregated, [])
  combine total_weight aggregated (w ∷ ws) = do
    c ← contribution total_weight w
    rest ← combine total_weight (f.plus aggregated (f.times c.alpha c.probability)) ws
    ok (rest.0, c ∷ rest.1)

  unfoldable pub aggregate_sorted :
      Text
      → List (ForecastSnapshot F)
      → Agents F
      → List (ForecastSnapshot F)
      → Result (AggregationResult F)
  aggregate_sorted hypothesis_id forecasts agents ordered = do
    weighted ← weigh_all forecasts agents ordered
    let total_weight = f.total (map (λ w. w.weight) weighted)
    combined ← combine total_weight zero_f weighted
    ok (record {
      hypothesis_id = hypothesis_id;
      probability = combined.0;
      is_prior = false;
      contributions = combined.1;
    })

  unfoldable pub aggregate_probability :
      List (ForecastSnapshot F) → Agents F → F → Result (AggregationResult F)
  unfolding aggregate_sorted
  aggregate_probability [] agents prior_probability = ok (record {
    hypothesis_id = [];
    probability = prior_probability;
    is_prior = true;
    contributions = [];
  })
  aggregate_probability (g ∷ gs) agents prior_probability =
      let forecasts = g ∷ gs in
      aggregate_sorted g.hypothesis_id forecasts agents (sorted agent_before forecasts)
