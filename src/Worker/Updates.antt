-- ===== src/Worker/Updates.antt =====
-- `publish_hypothesis_updates` of src/stakeroute/worker/pipeline.py: the messages it publishes.
pub mod Named
pub mod Complete
use stakeroute.Prelude.{
  ℕ, Bool, true, false, Option, none, some, List, [], ◌∷◌, map, ℤ, Text, codes, text_eq, text_lt,
  sorted, if◌then◌else◌,
}
use stakeroute.Core.Types.{
  AggregationResult, RankedHypothesis, AllocationDecision, Contribution, Reason,
}
use stakeroute.Storage.Rows.{Strategy, market, majority_vote, highest_confidence}
use stakeroute.Storage.Tables.{exists}
use stakeroute.Worker.Pipeline.{RankingPassResult, PassResults}

pub record StrategyUpdate (F : Type 0) : Type 0 where
  pub probability : F
  pub priority : F
  pub rank : ℕ
  pub routed : Bool

-- The reason is none for the text "".
pub record HypothesisUpdate (F : Type 0) : Type 0 where
  pub tenant_id : Text
  pub event_id : Text
  pub emitted_at_ms : ℤ
  pub hypothesis_id : Text
  pub strategies : List (Strategy × StrategyUpdate F)
  pub contributions : List (Contribution F)
  pub reason : Option Reason
  pub withheld_count : ℕ

-- `{key(x): x for x in xs}.get(k)`: of equal keys the last value
unfoldable pub last_by : {A : Type 0} → (A → Text) → Text → List A → Option A
last_by key k [] = none
last_by key k (x ∷ xs) = elim (last_by key k xs) [
  | none ↦ if text_eq (key x) k then some x else none
  | some y ↦ some y
]

-- `{...}` of texts
unfoldable pub unrepeated : List Text → List Text
unrepeated [] = []
unrepeated (i ∷ is) = let rest = unrepeated is in if exists (text_eq i) is then rest else i ∷ rest

module _ {F : Type 0} where
  abbrev pub decision_of : Text → RankingPassResult F → Option AllocationDecision
  decision_of h result = last_by (λ d. d.hypothesis_id) h result.allocation.decisions

  abbrev pub ranked_of : Text → RankingPassResult F → Option (RankedHypothesis F)
  ranked_of h result = last_by (λ r. r.hypothesis_id) h result.ranked

  abbrev pub strategy_update :
      Option AllocationDecision → Option (RankedHypothesis F) → Option (StrategyUpdate F)
  strategy_update (some decision) (some ranked) = some (record {
    probability = ranked.probability;
    priority = ranked.priority;
    rank = decision.rank;
    routed = decision.routed;
  })
  strategy_update _ _ = none

  -- one strategy's entry of the payload, in front of the others
  abbrev pub put_strategy :
      Text
      → Strategy
      → RankingPassResult F
      → List (Strategy × StrategyUpdate F)
      → List (Strategy × StrategyUpdate F)
  put_strategy h strategy result rest =
      elim (strategy_update (decision_of h result) (ranked_of h result)) [
        | none ↦ rest
        | some entry ↦ (strategy, entry) ∷ rest
      ]

  unfoldable pub strategies_payload : Text → PassResults F → List (Strategy × StrategyUpdate F)
  strategies_payload h (first, second, third) =
      put_strategy h market first
        (put_strategy h majority_vote second (put_strategy h highest_confidence third []))

  -- `event_id` stands for `compute_event_id`, a SHA-256 digest.
  module _ (event_id : (tenant_id source source_event_id : Text) (emitted_at_ms : ℤ) → Text)
      (tenant_id : Text) (decided_at_ms : ℤ) where
    abbrev pub hypothesis_update : PassResults F → Text → HypothesisUpdate F
    hypothesis_update results h = record {
      tenant_id = tenant_id;
      event_id = event_id tenant_id (codes "hypotheses") h decided_at_ms;
      emitted_at_ms = decided_at_ms;
      hypothesis_id = h;
      strategies = strategies_payload h results;
      contributions =
          elim (last_by (λ (a : Text × AggregationResult F). a.0) h results.0.aggregates) [
            | none ↦ []
            | some a ↦ a.1.contributions
          ];
      reason = elim (decision_of h results.0) [ none ↦ none | some d ↦ some d.reason ];
      withheld_count = results.0.allocation.withheld_count;
    }

    unfoldable pub hypothesis_updates : PassResults F → List (HypothesisUpdate F)
    hypothesis_updates results =
        map (hypothesis_update results)
          (sorted text_lt (unrepeated (map (λ r. r.hypothesis_id) results.0.ranked)))
