-- ===== src/Tests/Core.antt =====
-- The core's functions, on floats in hundredths.
use stakeroute.Prelude.{
  ℤ, ◌+◌, ◌≡◌, ◌≢◌, refl, length, List, [], ◌∷◌, map, min, ◌-◌, pos, neg, ◌≤ℤ◌, ◌+ℤ◌, ◌-ℤ◌, ◌*ℤ◌,
  true, false, ok, codes, Text, arith, Rearranged, swap, All, Pairs,
}
use stakeroute.Float.{le}
use stakeroute.Float.Fixed.{Fixed, fixed_float, floor_div, Fixed-IsOrdered, Fixed-IsMonotone}
use stakeroute.Core.Types.{
  AgentSnapshot, ForecastSnapshot, RankedHypothesis, AggregationResult, probability_floor,
  probability_ceil, clamp_probability,
}
use stakeroute.Core.Types.Clamp.{clamp_probability_bounds}
use stakeroute.Core.Decimal.{half_even, half_even_ℤ, excess, to_context, in_context, quantize}
use stakeroute.Core.Settlement.{credit_delta}
use stakeroute.Core.Settlement.Nearest.{credit_delta_mono}
use stakeroute.Core.Reputation.{reputation_floor, reputation_ceil, update_reputation}
use stakeroute.Core.Reputation.Bounds.{update_reputation_bounds, update_reputation_mono}
use stakeroute.Core.Baselines.{majority_vote_probability, highest_confidence_probability}
use stakeroute.Core.Baselines.Votes.{IsReported, highest_confidence_is_max, majority_is_share}
use stakeroute.Core.Ranking.{allocate_attention}
use stakeroute.Core.Ranking.Budget.{
  routed_count, IsByRank, ranks_from, allocate_spends_budget, allocate-IsByRank,
}
use stakeroute.Core.Ranking.Order.{allocate_deterministic, allocate_by_priority}
use stakeroute.Core.Market.{Agents, aggregate_probability}
use stakeroute.Core.Market.Determinism.{aggregate_deterministic}
use stakeroute.Tests.Data.{returned}

apart : codes "a" ≢ codes "b"
apart e = absurd (ground (arith, e))

apart_back : codes "b" ≢ codes "a"
apart_back e = absurd (ground (arith, e))

abbrev by_ann : ForecastSnapshot Fixed
by_ann = record {
  id = codes "1";
  agent_id = codes "a";
  hypothesis_id = codes "h";
  probability = pos 90;
  stake = pos 4;
  evidence_cluster_id = codes "c";
}

abbrev by_bob : ForecastSnapshot Fixed
by_bob = record by_ann { id = codes "2"; agent_id = codes "b"; probability = pos 30 }

abbrev forecaster : Text → AgentSnapshot Fixed
forecaster a = record {
  id = a;
  reputation = pos 100;
  available_credits = pos 9;
  staked_credits = pos 4;
  attested = true;
  created_at_ms = pos 0;
}

abbrev known : Agents Fixed
known = (codes "a", forecaster (codes "a")) ∷ (codes "b", forecaster (codes "b")) ∷ []

aggregate_deterministic_example :
    aggregate_probability (by_ann ∷ by_bob ∷ []) known (pos 50)
    ≡ aggregate_probability (by_bob ∷ by_ann ∷ []) known (pos 50)
aggregate_deterministic_example =
    aggregate_deterministic known (codes "h") (pos 50) (swap by_ann by_bob [])
      ((apart, tt), (tt, tt)) (refl, (refl, tt))

abbrev explained_result : AggregationResult Fixed
explained_result =
    returned
      (record { hypothesis_id = []; probability = pos 0; is_prior = true; contributions = [] })
      (aggregate_probability (by_ann ∷ by_bob ∷ []) known (pos 50))

abbrev urgent : RankedHypothesis Fixed
urgent = record {
  hypothesis_id = codes "a";
  probability = pos 90;
  priority = pos 500;
  impact_minor_units = pos 10;
}

abbrev minor : RankedHypothesis Fixed
minor = record urgent { hypothesis_id = codes "b"; priority = pos 200 }

allocate_deterministic_example :
    allocate_attention (minor ∷ urgent ∷ []) (pos 1)
    ≡ allocate_attention (urgent ∷ minor ∷ []) (pos 1)
allocate_deterministic_example =
    allocate_deterministic Fixed-IsOrdered Fixed-IsMonotone (pos 1) (swap minor urgent [])
      (((refl, refl, apart_back), tt), (tt, tt))

allocate_by_priority_example :
    (ordered : List (RankedHypothesis Fixed)) × Rearranged ordered (minor ∷ urgent ∷ [])
    × (map (λ d. d.hypothesis_id) (allocate_attention (minor ∷ urgent ∷ []) (pos 1)).decisions
        ≡ map (λ h. h.hypothesis_id) ordered)
    × Pairs (λ a b. fixed_float.lt a.priority b.priority ≡ false) ordered
allocate_by_priority_example =
    allocate_by_priority Fixed-IsOrdered Fixed-IsMonotone (minor ∷ urgent ∷ []) (pos 1)
      (((refl, refl, apart_back), tt), (tt, tt))

allocate_spends_budget_example :
    let r = allocate_attention (minor ∷ urgent ∷ []) (pos 1) in
    (length r.decisions ≡ 2)
    × (routed_count r.decisions ≡ min 1 2)
    × (r.withheld_count ≡ 2 - min 1 2)
allocate_spends_budget_example = allocate_spends_budget (minor ∷ urgent ∷ []) (pos 1)

allocate-IsByRank_example :
    let r = allocate_attention (minor ∷ urgent ∷ []) (pos 1) in
    All (IsByRank (pos 1) 2) r.decisions × (map (λ d. d.rank) r.decisions ≡ ranks_from 1 2)
allocate-IsByRank_example = allocate-IsByRank (minor ∷ urgent ∷ []) (pos 1)

credit_delta_mono_example :
    (d : ℤ) × (e : ℤ) × (credit_delta (pos 10) (pos 24) 2 ≡ ok d)
    × (credit_delta (pos 10) (pos 30) 2 ≡ ok e)
    × (d ≤ℤ e)
credit_delta_mono_example =
    credit_delta_mono 10 (pos 24) (pos 30) 1 (omega arith) (omega arith) (omega arith) (omega arith)

-- a product of 29 digits
delta_in_context_test :
    credit_delta (pos 2215024702994211943922196209) (pos 28) 2
    ≡ ok (pos 620206916838379344298214938)
unfolding credit_delta in_context to_context excess half_even half_even_ℤ quantize neg ◌*ℤ◌
delta_in_context_test = refl

highest_confidence_is_max_example :
    let top = highest_confidence_probability (by_ann ∷ by_bob ∷ []) (pos 50) in
    IsReported top (by_ann ∷ by_bob ∷ [])
    × All (λ (h : ForecastSnapshot Fixed). le h.probability top ≡ true) (by_ann ∷ by_bob ∷ [])
highest_confidence_is_max_example =
    highest_confidence_is_max Fixed-IsOrdered by_ann (by_bob ∷ []) (pos 50) (refl, (refl, tt))

majority_is_share_example :
    majority_vote_probability (by_bob ∷ by_ann ∷ []) (pos 50)
    ≡ fixed_float.ratio (pos 1) (pos (1 + 1))
majority_is_share_example =
    majority_is_share by_bob (by_ann ∷ []) (by_ann ∷ []) (by_bob ∷ []) (pos 50)
      (swap by_bob by_ann []) (refl, tt) (refl, tt)

clamp_probability_bounds_example :
    (le probability_floor (clamp_probability {F = Fixed} (pos 120)) ≡ true)
    × (le (clamp_probability {F = Fixed} (pos 120)) probability_ceil ≡ true)
clamp_probability_bounds_example = clamp_probability_bounds Fixed-IsOrdered (pos 120) refl

update_reputation_mono_example :
    le {F = Fixed}
      (update_reputation (pos 100) (pos 4) (pos 10) (pos 30))
      (update_reputation (pos 100) (pos 4) (pos 20) (pos 30))
    ≡ true
unfolding ◌+ℤ◌ ◌-ℤ◌ ◌*ℤ◌ floor_div
update_reputation_mono_example =
    update_reputation_mono Fixed-IsOrdered Fixed-IsMonotone (pos 100) (pos 4) (pos 4) (pos 10)
      (pos 20) (pos 30) refl refl refl refl refl refl refl refl

update_reputation_bounds_example :
    let r = update_reputation {F = Fixed} (pos 100) (pos 4) (pos 21) (pos 30) in
    (le reputation_floor r ≡ true) × (le r reputation_ceil ≡ true)
unfolding ◌+ℤ◌ ◌-ℤ◌ ◌*ℤ◌ floor_div
update_reputation_bounds_example =
    update_reputation_bounds Fixed-IsOrdered (pos 100) (pos 4) (pos 21) (pos 30) refl
