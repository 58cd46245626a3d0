-- ===== src/Core/Ranking.antt =====
-- src/stakeroute/core/ranking.py
pub mod Budget
pub mod Order
use stakeroute.Prelude.{
  ℕ, suc, ◌+◌, Bool, List, [], ◌∷◌, ℤ, pos, neg, eqb_ℤ, ltb_ℤ, leb_ℤ, length, Result, ok, raise_if,
  ◌>>=◌, ◌>>◌, value_error, Text, text_lt, sorted, if◌then◌else◌,
}
use stakeroute.Float.{Float, zero_f, le, divide}
use stakeroute.Core.Types.{RankedHypothesis, AllocationDecision, AllocationResult, within, withheld}

module _ {F : Type 0} ⦃f : Float F⦄ where
  unfoldable pub priority_score : F → ℤ → F → F → Result F
  priority_score probability impact_minor_units urgency review_cost = do
    raise_if (le review_cost zero_f) value_error
    divide (f.times (f.times probability (f.of_int impact_minor_units)) urgency) review_cost

  -- The order of the sort keys `(-priority, -impact, hypothesis_id)`: as for Python's tuples, the
  -- first place with different values decides.
  unfoldable pub ranks_before : RankedHypothesis F → RankedHypothesis F → Bool
  ranks_before a b =
      if f.eq (f.opposite a.priority) (f.opposite b.priority)
      then (if eqb_ℤ (neg a.impact_minor_units) (neg b.impact_minor_units)
          then text_lt a.hypothesis_id b.hypothesis_id
          else ltb_ℤ (neg a.impact_minor_units) (neg b.impact_minor_units))
      else f.lt (f.opposite a.priority) (f.opposite b.priority)

  abbrev pub decision : ℤ → ℕ → ℕ → RankedHypothesis F → AllocationDecision
  decision budget total rank h =
      let routed = leb_ℤ (pos rank) budget in
      record {
        hypothesis_id = h.hypothesis_id;
        rank = rank;
        routed = routed;
        reason = if routed then within rank total budget else withheld rank total budget;
      }

  -- the `for` over `enumerate(ordered, start=1)`, with the count of withheld hypotheses so far
  unfoldable pub allocate_from :
      (budget : ℤ) (total rank skipped : ℕ) → List (RankedHypothesis F) → AllocationResult
  allocate_from budget total rank skipped [] = record { decisions = []; withheld_count = skipped }
  allocate_from budget total rank skipped (h ∷ hs) =
      let rest =
        allocate_from budget total (suc rank)
          (if leb_ℤ (pos rank) budget then skipped else skipped + 1) hs in
      record rest { decisions = decision budget total rank h ∷ rest.decisions }

  unfoldable pub allocate_attention : List (RankedHypothesis F) → ℤ → AllocationResult
  unfolding allocate_from
  allocate_attention ranked budget =
      let ordered = sorted ranks_before ranked in allocate_from budget (length ordered) 1 0 ordered
