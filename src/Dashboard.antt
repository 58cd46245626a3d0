-- ===== src/Dashboard.antt =====
-- The read endpoints of src/stakeroute/dashboard/main.py: what they return, as records for the
-- dicts. The tenant and the time are arguments.
pub mod Measures
pub mod Queue
use stakeroute.Prelude.{
  ℕ, suc, Bool, true, false, not, Option, none, some, List, [], ◌∷◌, map, count, length, select,
  sorted, ltb, ℤ, pos, ◌-ℤ◌, Text, text_eq, if◌then◌else◌,
}
use stakeroute.Core.Types.{Contribution, Reason}
use stakeroute.Storage.Rows.{
  AgentRow, HypothesisRow, Strategy, market, majority_vote, highest_confidence, DecisionRow, Db,
}
use stakeroute.Storage.Tables.{exists, fetch}
use stakeroute.Storage.Repository.{get_hypothesis, list_agents}
use stakeroute.Storage.Queries.{
  latest_decisions, get_last_forecast_probability, get_last_settlement_delta,
}
use stakeroute.Worker.Process.{attention_budget}

-- What the queue says of the hypothesis is none if its row is missing.
pub record QueueEntry (F : Type 0) : Type 0 where
  pub hypothesis_id : Text
  pub statement : Text
  pub probability : F
  pub impact_minor_units : Option ℤ
  pub priority : F
  pub rank : ℕ
  pub independent_evidence_groups : ℕ
  pub discounted_report_count : ℕ
  pub reason : Reason
  pub age_ms : Option ℤ

pub record QueueView (F : Type 0) : Type 0 where
  pub attention_budget : ℤ
  pub slots_used : ℕ
  pub withheld_count : ℕ
  pub routed : List (QueueEntry F)

pub record Explanation (F : Type 0) : Type 0 where
  pub hypothesis_id : Text
  pub prior_probability : F
  pub aggregated_probability : F
  pub contributions : List (Contribution F)

pub record ComparisonRow (F : Type 0) : Type 0 where
  pub rank : ℕ
  pub hypothesis_id : Text
  pub probability : F

pub record AgentView (F : Type 0) : Type 0 where
  pub id : Text
  pub display_name : Text
  pub reputation : F
  pub available_credits : ℤ
  pub staked_credits : ℤ
  pub attested : Bool
  pub last_forecast : Option F
  pub last_settlement : Option ℤ

-- the number of different texts, each counted at its last place
unfoldable pub distinct_count : List Text → ℕ
distinct_count [] = 0
distinct_count (i ∷ is) =
    let rest = distinct_count is in if exists (text_eq i) is then rest else suc rest

module _ {F : Type 0} where
  abbrev pub by_rank : DecisionRow F → DecisionRow F → Bool
  by_rank a b = ltb a.rank b.rank

  unfoldable pub queue_entry : (now_ms : ℤ) → Db F → DecisionRow F → QueueEntry F
  queue_entry now_ms db row =
      let hypothesis = get_hypothesis row.hypothesis_id db in
      record {
        hypothesis_id = row.hypothesis_id;
        statement = elim hypothesis [ none ↦ row.hypothesis_id | some h ↦ h.statement ];
        probability = row.aggregated_probability;
        impact_minor_units = elim hypothesis [ none ↦ none | some h ↦ some h.impact_minor_units ];
        priority = row.priority;
        rank = row.rank;
        independent_evidence_groups =
            distinct_count (map (λ c. c.evidence_cluster_id) row.contributions);
        discounted_report_count =
            count (λ (c : Contribution F). ltb 1 c.cluster_size) row.contributions;
        reason = row.reason;
        age_ms = elim hypothesis [ none ↦ none | some h ↦ some (now_ms -ℤ h.created_at_ms) ];
      }

  unfoldable pub get_queue : (tenant_id : Text) (now_ms : ℤ) → Db F → QueueView F
  get_queue tenant_id now_ms db =
      let decisions = latest_decisions tenant_id market db in
      let routed =
        map (queue_entry now_ms db) (sorted by_rank (select (λ d. d.routed) decisions)) in
      record {
        attention_budget = attention_budget;
        slots_used = length routed;
        withheld_count = count (λ d. not d.routed) decisions;
        routed = routed;
      }

  -- None stands for the two answers with the status 404.
  unfoldable pub explain : (tenant_id hypothesis_id : Text) → Db F → Option (Explanation F)
  explain tenant_id hypothesis_id db = elim (get_hypothesis hypothesis_id db) [
    | none ↦ none
    | some h ↦
        elim (fetch (λ d. text_eq d.hypothesis_id hypothesis_id)
          (latest_decisions tenant_id market db)) [
            | none ↦ none
            | some row ↦ some (record {
              hypothesis_id = hypothesis_id;
              prior_probability = h.prior_probability;
              aggregated_probability = row.aggregated_probability;
              contributions = row.contributions;
            })
          ]
  ]

  abbrev pub comparison_row : DecisionRow F → ComparisonRow F
  comparison_row row = record {
    rank = row.rank;
    hypothesis_id = row.hypothesis_id;
    probability = row.aggregated_probability;
  }

  unfoldable pub compared : Text → Db F → Strategy → Strategy × List (ComparisonRow F)
  compared tenant_id db strategy =
      (strategy, map comparison_row (sorted by_rank (latest_decisions tenant_id strategy db)))

  -- without the ground truth, which the process holds in memory
  unfoldable pub comparison : (tenant_id : Text) → Db F → List (Strategy × List (ComparisonRow F))
  comparison tenant_id db =
      map (compared tenant_id db) (market ∷ majority_vote ∷ highest_confidence ∷ [])

  abbrev pub agent_view : Db F → AgentRow F → AgentView F
  agent_view db row = record {
    id = row.id;
    display_name = row.display_name;
    reputation = row.reputation;
    available_credits = row.available_credits;
    staked_credits = row.staked_credits;
    attested = row.attested;
    last_forecast = get_last_forecast_probability row.id db;
    last_settlement = get_last_settlement_delta row.id db;
  }

  unfoldable pub agent_views : (tenant_id : Text) → Db F → List (AgentView F)
  agent_views tenant_id db = map (agent_view db) (list_agents tenant_id db)
