-- ===== src/Worker/Pipeline.antt =====
-- `run_ranking_pass` of src/stakeroute/worker/pipeline.py. The dicts by hypothesis id are lists of
-- pairs: the ids are a primary key.
pub mod Decisions
pub mod Pass
use stakeroute.Prelude.{
  ℕ, Bool, true, false, List, [], ◌∷◌, map, ℤ, Text, text_eq, Result, ok, err, ◌>>=◌, key_error,
  if◌then◌else◌,
}
use stakeroute.Float.{Float}
use stakeroute.Core.Types.{
  AgentSnapshot, ForecastSnapshot, AggregationResult, RankedHypothesis, AllocationDecision,
  AllocationResult,
}
use stakeroute.Core.Market.{Agents, aggregate_probability}
use stakeroute.Core.Baselines.{majority_vote_probability, highest_confidence_probability}
use stakeroute.Core.Ranking.{priority_score, allocate_attention}
use stakeroute.Storage.Rows.{
  AgentRow, HypothesisRow, ForecastRow, Strategy, market, majority_vote, highest_confidence,
  DecisionRow, Db,
}
use stakeroute.Storage.Repository.{list_agents, list_open_hypotheses, list_forecasts_for_hypothesis}
use stakeroute.Storage.Queries.{insert_attention_decision}

pub record RankingPassResult (F : Type 0) : Type 0 where
  pub allocation : AllocationResult
  pub aggregates : List (Text × AggregationResult F)
  pub ranked : List (RankedHypothesis F)

-- the results of "stakeroute", "majority_vote" and "highest_confidence"
abbrev pub PassResults : Type 0 → Type 0
PassResults F = RankingPassResult F × RankingPassResult F × RankingPassResult F

-- `d[key]`
unfoldable pub find : {A : Type 0} → Text → List (Text × A) → Result A
find k [] = err key_error
find k ((j, a) ∷ rest) = if text_eq j k then ok a else find k rest

abbrev pub is_empty : {A : Type 0} → List A → Bool
is_empty [] = true
is_empty (x ∷ xs) = false

module _ {F : Type 0} where
  abbrev pub agent_snapshot : AgentRow F → AgentSnapshot F
  agent_snapshot row = record {
    id = row.id;
    reputation = row.reputation;
    available_credits = row.available_credits;
    staked_credits = row.staked_credits;
    attested = row.attested;
    created_at_ms = row.created_at_ms;
  }

  unfoldable pub load_agent_snapshots : Text → Db F → Agents F
  load_agent_snapshots t db = map (λ row. (row.id, agent_snapshot row)) (list_agents t db)

  abbrev pub forecast_snapshot : ForecastRow F → ForecastSnapshot F
  forecast_snapshot row = record {
    id = row.id;
    agent_id = row.agent_id;
    hypothesis_id = row.hypothesis_id;
    probability = row.probability;
    stake = row.stake;
    evidence_cluster_id = row.evidence_cluster_id;
  }

  unfoldable pub forecast_snapshots : Text → Db F → List (ForecastSnapshot F)
  forecast_snapshots h db = map forecast_snapshot (list_forecasts_for_hypothesis h db)

  abbrev pub baseline_result : Text → F → List (ForecastSnapshot F) → AggregationResult F
  baseline_result h probability forecasts = record {
    hypothesis_id = h;
    probability = probability;
    is_prior = is_empty forecasts;
    contributions = [];
  }

module _ {F : Type 0} ⦃f : Float F⦄ where
  unfoldable pub strategy_result :
      Strategy
      → Agents F
      → HypothesisRow F
      → List (ForecastSnapshot F)
      → Result (AggregationResult F)
  strategy_result market agents hypothesis forecasts =
      aggregate_probability forecasts agents hypothesis.prior_probability
  strategy_result majority_vote agents hypothesis forecasts = ok (
      baseline_result hypothesis.id
        (majority_vote_probability forecasts hypothesis.prior_probability) forecasts)
  strategy_result highest_confidence agents hypothesis forecasts = ok (
      baseline_result hypothesis.id
        (highest_confidence_probability forecasts hypothesis.prior_probability) forecasts)

  unfoldable pub strategy_priority : Strategy → HypothesisRow F → AggregationResult F → Result F
  strategy_priority market hypothesis result =
      priority_score result.probability hypothesis.impact_minor_units hypothesis.urgency
        hypothesis.review_cost
  strategy_priority _ hypothesis result = ok result.probability

  -- the first loop, over the hypotheses
  unfoldable pub rank_all :
      Strategy
      → Agents F
      → Db F
      → List (HypothesisRow F)
      → Result (List (Text × AggregationResult F) × List (RankedHypothesis F))
  rank_all strategy agents db [] = ok ([], [])
  rank_all strategy agents db (hypothesis ∷ hypotheses) = do
    result ← strategy_result strategy agents hypothesis (forecast_snapshots hypothesis.id db)
    priority ← strategy_priority strategy hypothesis result
    rest ← rank_all strategy agents db hypotheses
    let ranked : RankedHypothesis F = record {
      hypothesis_id = hypothesis.id;
      probability = result.probability;
      priority = priority;
      impact_minor_units = hypothesis.impact_minor_units;
    }
    ok ((hypothesis.id, result) ∷ rest.0, ranked ∷ rest.1)

  module _ (tenant_id : Text) (decided_at_ms : ℤ) (strategy : Strategy) where
    abbrev pub decision_row :
        AllocationDecision → AggregationResult F → RankedHypothesis F → DecisionRow F
    decision_row decision result ranked = record {
      tenant_id = tenant_id;
      hypothesis_id = decision.hypothesis_id;
      strategy = strategy;
      aggregated_probability = result.probability;
      priority = ranked.priority;
      rank = decision.rank;
      routed = decision.routed;
      reason = decision.reason;
      contributions = result.contributions;
      decided_at_ms = decided_at_ms;
    }

    -- the second loop, over the decisions
    unfoldable pub record_all :
        List (Text × AggregationResult F)
        → List (Text × RankedHypothesis F)
        → List AllocationDecision
        → Db F
        → Result (Db F)
    record_all aggregates ranked_by_id [] db = ok db
    record_all aggregates ranked_by_id (decision ∷ decisions) db = do
      result ← find decision.hypothesis_id aggregates
      ranked ← find decision.hypothesis_id ranked_by_id
      db' ← insert_attention_decision (decision_row decision result ranked) db
      record_all aggregates ranked_by_id decisions db'

    unfoldable pub run_one_strategy :
        List (HypothesisRow F)
        → Agents F
        → (budget : ℤ) → Db F
        → Result (RankingPassResult F × Db F)
    run_one_strategy hypotheses agents budget db = do
      ranking ← rank_all strategy agents db hypotheses
      let allocation = allocate_attention ranking.1 budget
      db' ← record_all ranking.0 (map (λ r. (r.hypothesis_id, r)) ranking.1) allocation.decisions db
      ok (record { allocation = allocation; aggregates = ranking.0; ranked = ranking.1 }, db')

  unfoldable pub run_ranking_pass :
      (tenant_id : Text) (budget decided_at_ms : ℤ) → Db F → Result (PassResults F × Db F)
  run_ranking_pass tenant_id budget decided_at_ms db = do
    let hypotheses = list_open_hypotheses tenant_id db
    let agents = load_agent_snapshots tenant_id db
    first ← run_one_strategy tenant_id decided_at_ms market hypotheses agents budget db
    second ← run_one_strategy tenant_id decided_at_ms majority_vote hypotheses agents budget first.1
    third ←
        run_one_strategy tenant_id decided_at_ms highest_confidence hypotheses agents budget
          second.1
    ok ((first.0, second.0, third.0), third.1)
