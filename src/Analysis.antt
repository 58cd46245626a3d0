-- ===== src/Analysis.antt =====
-- `build_report` of src/stakeroute/analysis/cost_of_attack.py.
pub mod Charges
pub mod Report
use stakeroute.Prelude.{
  ℕ, Bool, true, false, ◌==◌, Option, none, some, List, [], ◌∷◌, map, count, length, foldl, ltb, ℤ,
  pos, Text, text_eq, codes, sorted, Result, ok, err, raise_if, ◌>>=◌, ◌>>◌, no_ranking,
  if◌then◌else◌,
}
use stakeroute.Float.{Float, divide}
use stakeroute.Core.Types.{Contribution, probability_ceil}
use stakeroute.Core.Attack.Cost.{
  AttackCost, stakeroute_attack_cost, baseline_attack_cost, attack_frontier,
}
use stakeroute.Storage.Rows.{
  HypothesisRow, ForecastRow, Strategy, market, majority_vote, highest_confidence, DecisionRow, Db,
}
use stakeroute.Storage.Tables.{fetch}
use stakeroute.Storage.Repository.{get_hypothesis, list_forecasts_for_hypothesis}
use stakeroute.Storage.Queries.{latest_decisions}

pub record Side (F : Type 0) : Type 0 where
  pub hypothesis_id : Text
  pub statement : Text
  pub probability : F
  pub priority : F
  pub impact_minor_units : ℤ

-- Without the "assumptions" that do not depend on the run.
pub record AttackReport (F : Type 0) : Type 0 where
  pub defender : Side F
  pub target : Side F
  pub honest_weight : F
  pub honest_forecast_count : ℕ
  pub by_market : AttackCost F
  pub by_majority_vote : AttackCost F
  pub by_highest_confidence : AttackCost F
  pub economic_defence_only : AttackCost F
  pub frontier : List (AttackCost F)
  pub stake_per_identity : ℤ
  pub shared_evidence_cluster : Bool

-- `raise NoRankingRecorded` where there is none
abbrev pub recorded : {A : Type 0} → Option A → Result A
recorded none = err no_ranking
recorded (some a) = ok a

module _ {F : Type 0} where
  abbrev pub by_rank : DecisionRow F → DecisionRow F → Bool
  by_rank a b = ltb a.rank b.rank

  unfoldable pub ranked_decisions : Text → Strategy → Db F → List (DecisionRow F)
  ranked_decisions t s db = sorted by_rank (latest_decisions t s db)

  -- the row to promote, given that of rank 1 and those after it
  unfoldable pub pick_target :
      Option Text → DecisionRow F → DecisionRow F → List (DecisionRow F) → Result (DecisionRow F)
  pick_target none defender second rest = ok second
  pick_target (some h) defender second rest = do
    row ← recorded (fetch (λ d. text_eq d.hypothesis_id h) (defender ∷ second ∷ rest))
    raise_if (text_eq row.hypothesis_id defender.hypothesis_id) no_ranking
    ok row

  -- The defender's and the target's row; at least two decisions are needed.
  unfoldable pub pick_rows :
      Option Text → List (DecisionRow F) → Result (DecisionRow F × DecisionRow F)
  pick_rows wanted [] = err no_ranking
  pick_rows wanted (defender ∷ []) = err no_ranking
  pick_rows wanted (defender ∷ second ∷ rest) = do
    target ← pick_target wanted defender second rest
    ok (defender, target)

  abbrev pub side : DecisionRow F → HypothesisRow F → Side F
  side row h = record {
    hypothesis_id = row.hypothesis_id;
    statement = h.statement;
    probability = row.aggregated_probability;
    priority = row.priority;
    impact_minor_units = h.impact_minor_units;
  }

module _ {F : Type 0} ⦃f : Float F⦄ where
  -- `REPUTATION_SWEEP`
  abbrev pub reputation_sweep : List F
  reputation_sweep =
      f.literal 1 1 ∷ f.literal 25 2 ∷ f.literal 5 1 ∷ f.literal 75 2 ∷ f.literal 10 1 ∷ []

  unfoldable pub honest_weight_of : List (Contribution F) → F
  honest_weight_of contributions = f.total (map (λ c. c.weight) contributions)

  -- `max(..., default=prior)`
  unfoldable pub largest_probability : List (ForecastRow F) → F → F
  largest_probability [] prior = prior
  largest_probability (r ∷ rs) prior =
      foldl (λ best (g : ForecastRow F). if f.lt best g.probability then g.probability else best)
        r.probability rs

  -- `min` by rank is the first row of the least rank, which the query puts first.
  unfoldable pub baseline_defender_probability : Text → Strategy → Db F → Result F
  baseline_defender_probability t s db = elim (latest_decisions t s db) [
    | [] ↦ err no_ranking
    | d ∷ ds ↦
        ok
          (foldl
            (λ (best : DecisionRow F) (g : DecisionRow F). if ltb g.rank best.rank then g else best)
            d ds).aggregated_probability
  ]

  -- the bar without the advantage in impact
  abbrev pub economic_priority : DecisionRow F → HypothesisRow F → Result F
  economic_priority row target =
      divide
        (f.times (f.times row.aggregated_probability (f.of_int target.impact_minor_units))
          target.urgency)
        target.review_cost

  module _ (t : Text) (stake : ℤ) (shared : Bool) where
    -- from the two rows and hypotheses on
    unfoldable pub price_report :
        DecisionRow F
        → DecisionRow F
        → HypothesisRow F
        → HypothesisRow F
        → Db F
        → Result (AttackReport F)
    price_report defender_row target_row defender target db = do
      let weight = honest_weight_of target_row.contributions
      let probability = target_row.aggregated_probability
      let forecasts = list_forecasts_for_hypothesis target.id db
      let votes = count (λ (r : ForecastRow F). f.lt (f.literal 5 1) r.probability) forecasts
      let largest = largest_probability forecasts target.prior_probability
      let floor_reputation = f.literal 1 1
      by_market ←
          stakeroute_attack_cost floor_reputation stake shared probability_ceil
            target.prior_probability defender_row.priority target.impact_minor_units target.urgency
            target.review_cost weight probability
      bar ← economic_priority defender_row target
      economic ←
          stakeroute_attack_cost floor_reputation stake shared probability_ceil
            target.prior_probability bar target.impact_minor_units target.urgency target.review_cost
            weight probability
      majority_bar ← baseline_defender_probability t majority_vote db
      by_majority ←
          baseline_attack_cost (codes "majority_vote") majority_bar (pos (length forecasts))
            (pos votes) largest (pos 0)
      confidence_bar ← baseline_defender_probability t highest_confidence db
      by_confidence ←
          baseline_attack_cost (codes "highest_confidence") confidence_bar (pos (length forecasts))
            (pos votes) largest (pos 0)
      frontier ←
          attack_frontier bar target.impact_minor_units target.urgency target.review_cost weight
            probability reputation_sweep stake shared target.prior_probability
      ok (record {
        defender = side defender_row defender;
        target = side target_row target;
        honest_weight = weight;
        honest_forecast_count = length forecasts;
        by_market = by_market;
        by_majority_vote = by_majority;
        by_highest_confidence = by_confidence;
        economic_defence_only = economic;
        frontier = frontier;
        stake_per_identity = stake;
        shared_evidence_cluster = shared;
      })

    unfoldable pub build_report : Option Text → Db F → Result (AttackReport F)
    build_report wanted db = do
      rows ← pick_rows wanted (ranked_decisions t market db)
      target ← recorded (get_hypothesis rows.1.hypothesis_id db)
      defender ← recorded (get_hypothesis rows.0.hypothesis_id db)
      price_report rows.0 rows.1 defender target db
