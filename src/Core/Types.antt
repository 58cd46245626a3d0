-- ===== src/Core/Types.antt =====
-- src/stakeroute/core/types.py: the snapshot types, and `clamp_probability`. Identifiers and other
-- strings are texts, ints are unbounded integers, floats are values of the interface `Float`.
pub mod Clamp
use stakeroute.Prelude.{ℕ, Bool, List, ℤ, Text, if◌then◌else◌}
use stakeroute.Float.{Float}

module _ {F : Type 0} ⦃f : Float F⦄ where
  abbrev pub probability_floor : F
  probability_floor = f.literal 1 2

  abbrev pub probability_ceil : F
  probability_ceil = f.literal 99 2

  unfoldable pub clamp_probability : F → F
  clamp_probability p =
      if f.lt p probability_floor
      then probability_floor
      else if f.lt probability_ceil p
      then probability_ceil
      else p

pub record AgentSnapshot (F : Type 0) : Type 0 where
  pub id : Text
  pub reputation : F
  pub available_credits : ℤ
  pub staked_credits : ℤ
  pub attested : Bool
  pub created_at_ms : ℤ

pub record ForecastSnapshot (F : Type 0) : Type 0 where
  pub id : Text
  pub agent_id : Text
  pub hypothesis_id : Text
  pub probability : F
  pub stake : ℤ
  pub evidence_cluster_id : Text

pub record Contribution (F : Type 0) : Type 0 where
  pub agent_id : Text
  pub forecast_id : Text
  pub probability : F
  pub stake : ℤ
  pub reputation : F
  pub evidence_cluster_id : Text
  pub cluster_size : ℕ
  pub independence : F
  pub weight : F
  pub alpha : F

pub record AggregationResult (F : Type 0) : Type 0 where
  pub hypothesis_id : Text
  pub probability : F
  pub is_prior : Bool
  pub contributions : List (Contribution F)

pub record RankedHypothesis (F : Type 0) : Type 0 where
  pub hypothesis_id : Text
  pub probability : F
  pub priority : F
  pub impact_minor_units : ℤ

-- The two f-strings of `allocate_attention`, by what they are filled with.
pub data Reason : Type 0 where
  within : (rank total : ℕ) (budget : ℤ) → Reason
  withheld : (rank total : ℕ) (budget : ℤ) → Reason

pub record AllocationDecision : Type 0 where
  pub hypothesis_id : Text
  pub rank : ℕ
  pub routed : Bool
  pub reason : Reason

pub record AllocationResult : Type 0 where
  pub decisions : List AllocationDecision
  pub withheld_count : ℕ

pub record Settlement (F : Type 0) : Type 0 where
  pub forecast_id : Text
  pub brier_score : F
  pub prior_brier_score : F
  pub improvement : F
  pub credit_delta : ℤ
