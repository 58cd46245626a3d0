-- ===== src/Core/Attack.antt =====
-- src/stakeroute/core/attack.py. The notes are the f-strings of the code, by what they are filled
-- with. `identities**2` raises if it overflows, as `math.ceil` of an infinity does in `ceil`.
pub mod Cost
pub mod Bill
use stakeroute.Prelude.{
  ℕ, Bool, true, false, not, ◌&&◌, ◌||◌, Option, none, some, ℤ, pos, neg, ◌+ℤ◌, ◌*ℤ◌, leb_ℤ, ltb_ℤ,
  max_ℤ, eqb_ℤ, Result, ok, err, raise_if, ◌>>=◌, ◌>>◌, infeasible_attack, codes, if◌then◌else◌,
}
use stakeroute.Float.{Float, zero_f, one_f, le, divide, sqrt}
use stakeroute.Core.Types.{Settlement, probability_ceil}
use stakeroute.Core.Settlement.{settle_forecast}

module _ {F : Type 0} ⦃f : Float F⦄ where
  unfoldable pub required_probability : F → ℤ → F → F → Result F
  required_probability defender_priority impact_minor_units urgency review_cost = do
    raise_if (le review_cost zero_f) infeasible_attack
    let scale = f.times (f.of_int impact_minor_units) urgency
    raise_if (le scale zero_f) infeasible_attack
    divide (f.times defender_priority review_cost) scale

  unfoldable pub required_adversary_weight : F → F → F → F → Result (Option F)
  required_adversary_weight honest_weight honest_probability target_probability
        adversary_probability =
      if le target_probability honest_probability || le honest_weight zero_f
      then ok (some zero_f)
      else if le adversary_probability target_probability
      then ok none
      else (do
        weight ←
            divide (f.times honest_weight (f.minus target_probability honest_probability))
              (f.minus adversary_probability target_probability)
        ok (some weight))

  unfoldable pub sybil_identities_required : F → F → ℤ → Bool → Result (Option ℤ)
  sybil_identities_required weight reputation_per_identity stake_per_identity
        shared_evidence_cluster =
      if le weight zero_f
      then ok (some (pos 0))
      else if le reputation_per_identity zero_f || leb_ℤ stake_per_identity (pos 0)
      then ok none
      else (do
        root ← sqrt (f.of_int stake_per_identity)
        identities ← divide weight (f.times reputation_per_identity root)
        count ← f.ceil (if shared_evidence_cluster then f.square identities else identities)
        ok (some (max_ℤ (pos 1) count)))

  unfoldable pub attack_settlement_loss : ℤ → ℤ → F → F → ℤ → ℕ → Result ℤ
  attack_settlement_loss identities stake_per_identity prior_probability adversary_probability
        outcome places =
      if leb_ℤ identities (pos 0) || leb_ℤ stake_per_identity (pos 0) then ok (pos 0) else (do
        per_identity ←
            settle_forecast (codes "attack-cost-estimate") stake_per_identity prior_probability
              adversary_probability outcome places
        ok (neg per_identity.credit_delta *ℤ identities))

  -- the part after the two early returns
  unfoldable pub votes_needed : ℤ → ℤ → F → Result (Option ℤ)
  votes_needed honest_forecast_count honest_votes_true target_probability =
      if le one_f target_probability then ok none else (do
        needed ←
            divide
              (f.minus (f.times (f.of_int honest_forecast_count) target_probability)
                (f.of_int honest_votes_true))
              (f.minus one_f target_probability)
        whole ← f.floor needed
        ok (some (max_ℤ (pos 1) (whole +ℤ pos 1))))

  unfoldable pub majority_vote_identities_required : ℤ → ℤ → F → Result (Option ℤ)
  majority_vote_identities_required honest_forecast_count honest_votes_true target_probability =
      if (if ltb_ℤ (pos 0) honest_forecast_count
        then f.lt target_probability (f.ratio honest_votes_true honest_forecast_count)
        else le target_probability zero_f)
      then ok (some (pos 0))
      else votes_needed honest_forecast_count honest_votes_true target_probability

  unfoldable pub highest_confidence_identities_required : F → F → Option ℤ
  highest_confidence_identities_required current_max_probability target_probability =
      if f.lt target_probability current_max_probability
      then some (pos 0)
      else if le probability_ceil target_probability
      then none
      else some (pos 1)
