-- ===== src/Core/Attack/Cost.antt =====
-- The three functions of src/stakeroute/core/attack.py that put a bill together.
use stakeroute.Prelude.{
  Bool, true, false, not, ◌&&◌, Option, none, some, List, [], ◌∷◌, ℤ, pos, ◌*ℤ◌, eqb_ℤ, Text, codes,
  text_eq, Result, ok, err, ◌>>=◌, infeasible_attack, if◌then◌else◌,
}
use stakeroute.Float.{Float, zero_f, le}
use stakeroute.Core.Types.{probability_ceil}
use stakeroute.Core.Settlement.{default_places}
use stakeroute.Core.Attack.{
  required_probability, required_adversary_weight, sybil_identities_required,
  attack_settlement_loss, majority_vote_identities_required, highest_confidence_identities_required,
}

pub data Note (F : Type 0) : Type 0 where
  unreachable : (threshold adversary_probability : F) → Note F
  no_finite_count : Note F
  already_leads : Note F
  sybils : (identities : ℤ) (reputation : F) (stake : ℤ) (shared : Bool) (threshold : F) → Note F
  baseline_unreachable : (threshold : F) → Note F
  baseline_sybils : (identities : ℤ) (strategy : Text) → Note F

pub record AttackCost (F : Type 0) : Type 0 where
  pub strategy : Text
  pub feasible : Bool
  pub required_probability : F
  pub required_weight : F
  pub identities : ℤ
  pub credits : ℤ
  pub reputation_per_identity : F
  pub stake_per_identity : ℤ
  pub shared_evidence_cluster : Bool
  pub note : Note F
  pub settlement_loss_credits : ℤ

module _ {F : Type 0} ⦃f : Float F⦄ where
  -- `feasible=False`, with the default loss
  abbrev pub refused : Text → F → F → F → ℤ → Bool → Note F → AttackCost F
  refused strategy threshold weight reputation stake shared note = record {
    strategy = strategy;
    feasible = false;
    required_probability = threshold;
    required_weight = weight;
    identities = pos 0;
    credits = pos 0;
    reputation_per_identity = reputation;
    stake_per_identity = stake;
    shared_evidence_cluster = shared;
    note = note;
    settlement_loss_credits = pos 0;
  }

  module _ (reputation_per_identity : F) (stake_per_identity : ℤ) (shared_evidence_cluster : Bool)
      (adversary_probability prior_probability : F) where
    -- from the test of `identities == 0` on
    unfoldable pub priced :
        (threshold weight : F) → (already_leading : Bool) → ℤ → Result (AttackCost F)
    priced threshold weight already_leading found = do
      let identities = if eqb_ℤ found (pos 0) && not already_leading then pos 1 else found
      loss ←
          attack_settlement_loss identities stake_per_identity prior_probability
            adversary_probability (pos 0) default_places
      ok (record {
        strategy = codes "stakeroute";
        feasible = true;
        required_probability = threshold;
        required_weight = weight;
        identities = identities;
        credits = identities *ℤ stake_per_identity;
        reputation_per_identity = reputation_per_identity;
        stake_per_identity = stake_per_identity;
        shared_evidence_cluster = shared_evidence_cluster;
        note =
            if already_leading
            then already_leads
            else sybils identities reputation_per_identity stake_per_identity
                shared_evidence_cluster threshold;
        settlement_loss_credits = loss;
      })

    unfoldable pub price_identities :
        (threshold weight : F) → (already_leading : Bool) → Option ℤ → Result (AttackCost F)
    price_identities threshold weight already_leading none = ok (
        refused (codes "stakeroute") threshold weight reputation_per_identity stake_per_identity
          shared_evidence_cluster no_finite_count)
    price_identities threshold weight already_leading (some found) =
        priced threshold weight already_leading found

    unfoldable pub price_weight :
        (threshold : F) → (already_leading : Bool) → Option F → Result (AttackCost F)
    price_weight threshold already_leading none = ok (
        refused (codes "stakeroute") threshold f.infinity reputation_per_identity stake_per_identity
          shared_evidence_cluster (unreachable threshold adversary_probability))
    price_weight threshold already_leading (some weight) = do
      identities ←
          sybil_identities_required weight reputation_per_identity stake_per_identity
            shared_evidence_cluster
      price_identities threshold weight already_leading identities

    unfoldable pub stakeroute_attack_cost :
        (defender_priority : F) (impact_minor_units : ℤ) (urgency review_cost : F)
        (honest_weight honest_probability : F)
        → Result (AttackCost F)
    stakeroute_attack_cost defender_priority impact_minor_units urgency review_cost honest_weight
          honest_probability =
        do
          threshold ← required_probability defender_priority impact_minor_units urgency review_cost
          weight ←
              required_adversary_weight honest_weight honest_probability threshold
                adversary_probability
          price_weight threshold (le threshold honest_probability) weight

  -- after the identities are counted
  unfoldable pub baseline_priced :
      (strategy : Text) (threshold : F) (stake_per_identity : ℤ) → Option ℤ → AttackCost F
  baseline_priced strategy threshold stake_per_identity none =
      refused strategy threshold f.infinity zero_f stake_per_identity false
        (baseline_unreachable threshold)
  baseline_priced strategy threshold stake_per_identity (some identities) = record {
    strategy = strategy;
    feasible = true;
    required_probability = threshold;
    required_weight = zero_f;
    identities = identities;
    credits = identities *ℤ stake_per_identity;
    reputation_per_identity = zero_f;
    stake_per_identity = stake_per_identity;
    shared_evidence_cluster = false;
    note = if eqb_ℤ identities (pos 0) then already_leads else baseline_sybils identities strategy;
    settlement_loss_credits = pos 0;
  }

  unfoldable pub baseline_attack_cost :
      (strategy : Text) (defender_probability : F) (honest_forecast_count honest_votes_true : ℤ)
      (current_max_probability : F) (stake_per_identity : ℤ)
      → Result (AttackCost F)
  baseline_attack_cost strategy defender_probability honest_forecast_count honest_votes_true
        current_max_probability stake_per_identity =
      if text_eq strategy (codes "majority_vote")
      then (do
        identities ←
            majority_vote_identities_required honest_forecast_count honest_votes_true
              defender_probability
        ok (baseline_priced strategy defender_probability stake_per_identity identities))
      else if text_eq strategy (codes "highest_confidence")
      then ok (
          baseline_priced strategy defender_probability stake_per_identity
            (highest_confidence_identities_required current_max_probability defender_probability))
      else err infeasible_attack

  unfoldable pub attack_frontier :
      (defender_priority : F) (impact_minor_units : ℤ) (urgency review_cost : F)
      (honest_weight honest_probability : F)
      → List F
      → (stake_per_identity : ℤ) (shared_evidence_cluster : Bool) (prior_probability : F)
      → Result (List (AttackCost F))
  attack_frontier d i u r w p [] stake shared prior = ok []
  attack_frontier d i u r w p (reputation ∷ reputations) stake shared prior = do
    cost ← stakeroute_attack_cost reputation stake shared probability_ceil prior d i u r w p
    costs ← attack_frontier d i u r w p reputations stake shared prior
    ok (cost ∷ costs)
