-- ===== src/Storage/Rows.antt =====
-- The rows of src/stakeroute/storage/schema.sql. A REAL is a float, an INTEGER an integer; JSON
-- columns are texts that the store does not look into. Surrogate ids (INTEGER PRIMARY KEY) are the
-- places in the lists.
use stakeroute.Prelude.{ℕ, Bool, ℤ, List, Text}
use stakeroute.Core.Types.{Reason, Contribution}

pub data Status : Type 0 where
  opened resolved expired : Status

pub record AgentRow (F : Type 0) : Type 0 where
  pub id : Text
  pub tenant_id : Text
  pub display_name : Text
  pub reputation : F
  pub available_credits : ℤ
  pub staked_credits : ℤ
  pub attested : Bool
  pub created_at_ms : ℤ

pub record EventRow : Type 0 where
  pub event_id : Text
  pub tenant_id : Text
  pub source : Text
  pub source_event_id : Text
  pub observed_at_ms : ℤ
  pub ingested_at_ms : ℤ
  pub provenance : Text
  pub payload : Text

pub record ClusterRow : Type 0 where
  pub id : Text
  pub tenant_id : Text
  pub label : Text
  pub member_count : ℕ

pub record HypothesisRow (F : Type 0) : Type 0 where
  pub id : Text
  pub tenant_id : Text
  pub statement : Text
  pub prior_probability : F
  pub impact_minor_units : ℤ
  pub urgency : F
  pub review_cost : F
  pub deadline_ms : ℤ
  pub status : Status
  pub created_at_ms : ℤ

pub record ForecastRow (F : Type 0) : Type 0 where
  pub id : Text
  pub tenant_id : Text
  pub hypothesis_id : Text
  pub agent_id : Text
  pub probability : F
  pub stake : ℤ
  pub evidence_cluster_id : Text
  pub evidence_refs : List Text
  pub source_event_id : Text
  pub created_at_ms : ℤ
  pub expires_at_ms : ℤ

pub record OutcomeRow : Type 0 where
  pub hypothesis_id : Text
  pub tenant_id : Text
  pub outcome : ℤ
  pub resolved_at_ms : ℤ
  pub resolved_by : Text

pub record SettlementRow (F : Type 0) : Type 0 where
  pub tenant_id : Text
  pub forecast_id : Text
  pub brier_score : F
  pub prior_brier_score : F
  pub improvement : F
  pub credit_delta : ℤ
  pub reputation_before : F
  pub reputation_after : F
  pub settled_at_ms : ℤ

-- The three f-strings and the constant of the worker's rejections, by what they are filled with.
pub data Rejection : Type 0 where
  unknown_agent : Rejection
  outside_limits : ℤ → Rejection
  exceeds_available : (stake effective : ℤ) → Rejection

pub record RejectedRow (F : Type 0) : Type 0 where
  pub tenant_id : Text
  pub hypothesis_id : Text
  pub agent_id : Text
  pub stake : ℤ
  pub probability : F
  pub reason : Rejection
  pub rejected_at_ms : ℤ

-- `worker.pipeline.STRATEGIES`; `market` is "stakeroute".
pub data Strategy : Type 0 where
  market majority_vote highest_confidence : Strategy

-- The JSON of the contributions stands as the contributions themselves.
pub record DecisionRow (F : Type 0) : Type 0 where
  pub tenant_id : Text
  pub hypothesis_id : Text
  pub strategy : Strategy
  pub aggregated_probability : F
  pub priority : F
  pub rank : ℕ
  pub routed : Bool
  pub reason : Reason
  pub contributions : List (Contribution F)
  pub decided_at_ms : ℤ

pub record EpochRow : Type 0 where
  pub id : ℕ
  pub tenant_id : Text
  pub started_at_ms : ℤ
  pub grant_per_agent : ℤ
  pub seed : ℤ

pub record Db (F : Type 0) : Type 0 where
  pub tenants : List Text
  pub agents : List (AgentRow F)
  pub events : List EventRow
  pub clusters : List ClusterRow
  pub hypotheses : List (HypothesisRow F)
  pub forecasts : List (ForecastRow F)
  pub outcomes : List OutcomeRow
  pub settlements : List (SettlementRow F)
  pub rejected : List (RejectedRow F)
  pub decisions : List (DecisionRow F)
  pub epochs : List EpochRow
