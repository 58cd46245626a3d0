-- ===== src/Tests/Attack.antt =====
-- The price of an attack, on floats in hundredths.
use stakeroute.Prelude.{◌≡◌, refl, pos, ◌-ℤ◌, ◌*ℤ◌, true, false, ok, codes, arith}
use stakeroute.Float.{le}
use stakeroute.Float.Fixed.{Fixed, fixed_float, floor_div, quotient, root_from}
use stakeroute.Core.Scoring.{brier_score}
use stakeroute.Core.Decimal.{quantize, excess, in_context, to_context}
use stakeroute.Core.Settlement.{credit_delta, settle_forecast}
use stakeroute.Core.Attack.{
  required_probability, required_adversary_weight, sybil_identities_required,
  attack_settlement_loss,
}
use stakeroute.Core.Attack.Cost.{
  AttackCost, already_leads, priced, price_identities, price_weight, stakeroute_attack_cost,
}
use stakeroute.Core.Attack.Bill.{IsBill, stakeroute_attack_cost-IsBill}
use stakeroute.Tests.Data.{returned}

abbrev no_cost : AttackCost Fixed
no_cost = record {
  strategy = codes "";
  feasible = false;
  required_probability = pos 0;
  required_weight = pos 0;
  identities = pos 0;
  credits = pos 0;
  reputation_per_identity = pos 0;
  stake_per_identity = pos 0;
  shared_evidence_cluster = false;
  note = already_leads;
  settlement_loss_credits = pos 0;
}

-- A defender of priority 80.00, a target of impact 100, with 4.00 of honest weight at 0.30.
abbrev cost : AttackCost Fixed
cost = returned no_cost (
    stakeroute_attack_cost (pos 50) (pos 9) false (pos 99) (pos 50) (pos 8000) (pos 100) (pos 100)
      (pos 100) (pos 400) (pos 30))

costed :
    stakeroute_attack_cost
      (pos 50)
      (pos 9)
      false
      (pos 99)
      (pos 50)
      (pos 8000)
      (pos 100)
      (pos 100)
      (pos 100)
      (pos 400)
      (pos 30)
    ≡ ok cost
unfolding stakeroute_attack_cost required_probability floor_div ◌*ℤ◌ required_adversary_weight
    quotient ◌-ℤ◌ price_weight sybil_identities_required root_from price_identities priced
    attack_settlement_loss settle_forecast brier_score quantize credit_delta in_context to_context
    excess
costed = refl

feasible_cost : cost.feasible ≡ true
unfolding stakeroute_attack_cost required_probability floor_div ◌*ℤ◌ required_adversary_weight
    quotient ◌-ℤ◌ price_weight sybil_identities_required root_from price_identities priced
    attack_settlement_loss settle_forecast brier_score quantize credit_delta in_context to_context
    excess
feasible_cost = refl

stakeroute_attack_cost-IsBill_example :
    (threshold : Fixed) × (required_probability (pos 8000) (pos 100) (pos 100) (pos 100)
      ≡ ok threshold)
    × IsBill (pos 9) (le threshold (pos 30)) cost
stakeroute_attack_cost-IsBill_example =
    stakeroute_attack_cost-IsBill (pos 50) (pos 9) false (pos 99) (pos 50) (omega arith) (pos 8000)
      (pos 100) (pos 100) (pos 100) (pos 400) (pos 30) cost costed feasible_cost

-- Eight identities.
identities_test : cost.identities ≡ pos 8
unfolding stakeroute_attack_cost required_probability floor_div ◌*ℤ◌ required_adversary_weight
    quotient ◌-ℤ◌ price_weight sybil_identities_required root_from price_identities priced
    attack_settlement_loss settle_forecast brier_score quantize credit_delta in_context to_context
    excess
identities_test = refl
