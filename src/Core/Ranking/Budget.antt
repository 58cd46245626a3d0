-- ===== src/Core/Ranking/Budget.antt =====
-- How `allocate_attention` spends the budget.
use stakeroute.Prelude.{
  ℕ, zero, suc, ◌+◌, ◌-◌, ◌≤◌, min, ◌≡◌, refl, ap, List, [], ◌∷◌, map, ℤ, pos, pos_part, leb_ℤ,
  length, length-perm, count, arith, sorted-perm, All, if◌then◌else◌, sorted,
}
use stakeroute.Float.{Float}
use stakeroute.Core.Types.{RankedHypothesis, AllocationDecision, within, withheld}
use stakeroute.Core.Ranking.{ranks_before, allocate_from, allocate_attention}

abbrev pub routed_count : List AllocationDecision → ℕ
routed_count = count λ d. d.routed

-- A decision that follows from its rank.
abbrev pub IsByRank : ℤ → ℕ → AllocationDecision → Type 0
IsByRank budget total d =
    (d.routed ≡ leb_ℤ (pos d.rank) budget)
    × (d.reason ≡ (if d.routed then within d.rank total budget else withheld d.rank total budget))

-- first, first + 1, ... over `n` places
abbrev pub ranks_from : ℕ → ℕ → List ℕ
ranks_from first zero = []
ranks_from first (suc n) = first ∷ ranks_from (suc first) n

module _ {F : Type 0} ⦃f : Float F⦄ (budget : ℤ) (total : ℕ) where
  allocate_from-count :
      (rank skipped : ℕ) (hs : List (RankedHypothesis F))
      → 1 ≤ rank
      → let r = allocate_from budget total rank skipped hs in
        (length r.decisions ≡ length hs)
        × (routed_count r.decisions ≡ min (suc (pos_part budget) - rank) (length hs))
        × (r.withheld_count + routed_count r.decisions ≡ skipped + length hs)
  unfolding allocate_from
  allocate_from-count rank skipped [] first = omega arith
  allocate_from-count rank skipped (h ∷ hs) first =
      let routed = leb_ℤ (pos rank) budget in
      ground (
        arith,
        allocate_from-count (suc rank) (if routed then skipped else skipped + 1) hs (omega arith),
      )

  allocate_from-ByRank :
      (rank skipped : ℕ) (hs : List (RankedHypothesis F))
      → let r = allocate_from budget total rank skipped hs in
        All (IsByRank budget total) r.decisions
        × (map (λ d. d.rank) r.decisions ≡ ranks_from rank (length hs))
  unfolding allocate_from
  allocate_from-ByRank rank skipped [] = (tt, refl)
  allocate_from-ByRank rank skipped (h ∷ hs) =
      let next = if leb_ℤ (pos rank) budget then skipped else skipped + 1 in
      let (rest, ranks) = allocate_from-ByRank (suc rank) next hs in
      (((refl, refl), rest), ap (◌∷◌ rank) ranks)

  pub allocate_from-ids :
      (rank skipped : ℕ) (hs : List (RankedHypothesis F))
      → map (λ d. d.hypothesis_id) (allocate_from budget total rank skipped hs).decisions
        ≡ map (λ h. h.hypothesis_id) hs
  unfolding allocate_from
  allocate_from-ids rank skipped [] = refl
  allocate_from-ids rank skipped (h ∷ hs) =
      let next = if leb_ℤ (pos rank) budget then skipped else skipped + 1 in
      ap (◌∷◌ h.hypothesis_id) (allocate_from-ids (suc rank) next hs)

module _ {F : Type 0} ⦃f : Float F⦄ (ranked : List (RankedHypothesis F)) (budget : ℤ) where
  -- There are as many decisions as hypotheses; as many are routed as the budget and the number of
  -- hypotheses allow, none if the budget is negative; the others are counted as withheld.
  pub allocate_spends_budget :
      let r = allocate_attention ranked budget in
      (length r.decisions ≡ length ranked)
      × (routed_count r.decisions ≡ min (pos_part budget) (length ranked))
      × (r.withheld_count ≡ length ranked - min (pos_part budget) (length ranked))
  unfolding allocate_attention
  allocate_spends_budget =
      let ordered = sorted ranks_before ranked in
      omega (
        arith,
        allocate_from-count budget (length ordered) 1 0 ordered (omega arith),
        length-perm (sorted-perm ranks_before ranked),
      )

  -- The decisions carry the ranks 1, 2, ... in their order, and one is routed exactly if its rank
  -- is within the budget, with the reason that says so.
  pub allocate-IsByRank :
      let r = allocate_attention ranked budget in
      All (IsByRank budget (length ranked)) r.decisions
      × (map (λ d. d.rank) r.decisions ≡ ranks_from 1 (length ranked))
  unfolding allocate_attention
  allocate-IsByRank =
      let ordered = sorted ranks_before ranked in
      rw (← length-perm (sorted-perm ranks_before ranked))
        (allocate_from-ByRank budget (length ordered) 1 0 ordered)
