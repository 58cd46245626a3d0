-- ===== src/Tests/Settlements.antt =====
-- Settlements and expiries, on the example's database.
use stakeroute.Prelude.{
  ◌≡◌, refl, ◌∷◌, [], arith, true, false, some, pos, ok, text_eq, text_lt, ◌+ℤ◌, ◌-ℤ◌, ◌*ℤ◌, neg,
  codes, invalid_outcome, sorted, insert,
}
use stakeroute.Float.Fixed.{Fixed, fixed_float, floor_div}
use stakeroute.Core.Types.{Settlement}
use stakeroute.Core.Scoring.{brier_score}
use stakeroute.Core.Decimal.{half_even, half_even_ℤ, quantize, excess, in_context, to_context}
use stakeroute.Core.Settlement.{credit_delta, settle_forecast, default_places}
use stakeroute.Core.Settlement.Forecast.{IsSettled}
use stakeroute.Core.Reputation.{bounded, update_reputation}
use stakeroute.Storage.Rows.{Db, AgentRow, ForecastRow}
use stakeroute.Storage.Tables.{fetch, exists, update, append_row}
use stakeroute.Storage.Repository.{
  get_agent, get_hypothesis, insert_outcome, insert_settlement, set_agent_reputation,
  adjust_agent_credits, set_hypothesis_status, list_forecasts_for_hypothesis,
  list_expired_hypotheses,
}
use stakeroute.Storage.Ledger.Gains.{Solvent, Gains}
use stakeroute.Worker.Runner.{
  settle_known, settle_one, settle_all, settle_recorded, settle_hypothesis, handle_outcome_resolved,
  expire_overdue_hypotheses, expire_all, expire_one, refund_all,
}
use stakeroute.Worker.Runner.Once.{PaidOut, has_settlement, settle_one-new, settle_one-old}
use stakeroute.Worker.Runner.Settled.{
  settle_hypothesis-once, settle_hypothesis-Gains, handle_outcome_resolved-Solvent,
}
use stakeroute.Worker.Runner.Expired.{Kept}
use stakeroute.Worker.Runner.Refunded.{staked_on, expire_overdue-refunds}
use stakeroute.Worker.Runner.Overdue.{expire_overdue-once}
use stakeroute.Worker.Messages.{Message, OutcomeBody}
use stakeroute.Worker.Consume.{raised, consume_once}
use stakeroute.Worker.Consume.Invalid.{CanSettle, consume_once_invalid_outcome}
use stakeroute.Tests.Data.{
  acme, ann, ann_row, bob_row, outage_row, outage, start, verdict, returned,
}

-- the database after Ann's forecast
abbrev bid_row : ForecastRow Fixed
bid_row = record {
  id = codes "forecast-h-a";
  tenant_id = acme;
  hypothesis_id = outage;
  agent_id = ann;
  probability = pos 90;
  stake = pos 10;
  evidence_cluster_id = codes "c";
  evidence_refs = [];
  source_event_id = codes "e1";
  created_at_ms = pos 5;
  expires_at_ms = pos 0;
}

abbrev staked : AgentRow Fixed
staked = record ann_row { available_credits = pos 10; staked_credits = pos 10 }

abbrev pub before : Db Fixed
before = record start { agents = staked ∷ bob_row ∷ []; forecasts = bid_row ∷ [] }

abbrev paid : Db Fixed
paid = returned before (settle_one acme (pos 50) (pos 1) (pos 9) bid_row before)

paid-before : settle_one acme (pos 50) (pos 1) (pos 9) bid_row before ≡ ok paid
unfolding settle_one insert_settlement append_row set_agent_reputation adjust_agent_credits update
    exists get_agent fetch text_eq settle_known settle_forecast brier_score quantize half_even
    half_even_ℤ credit_delta ◌*ℤ◌ ◌-ℤ◌ ◌+ℤ◌ neg floor_div bounded update_reputation in_context
    to_context excess
paid-before = refl

staked-there : get_agent ann before ≡ some staked
unfolding get_agent fetch text_eq
staked-there = refl

settle_one-new_example :
    (s : Settlement Fixed) × IsSettled
      (codes "forecast-h-a")
      (pos 10)
      (pos 50)
      (pos 90)
      (pos 1)
      default_places
      s
    × PaidOut acme (pos 50) (pos 1) (pos 9) bid_row staked s before paid
unfolding exists
settle_one-new_example =
    settle_one-new acme (pos 50) (pos 1) (pos 9) bid_row staked before paid staked-there refl
      paid-before

abbrev paid_again : Db Fixed
paid_again = returned before (settle_one acme (pos 50) (pos 1) (pos 11) bid_row paid)

paid-twice : settle_one acme (pos 50) (pos 1) (pos 11) bid_row paid ≡ ok paid_again
unfolding settle_one insert_settlement append_row set_agent_reputation adjust_agent_credits update
    exists get_agent fetch text_eq settle_known settle_forecast brier_score quantize half_even
    half_even_ℤ credit_delta ◌*ℤ◌ ◌-ℤ◌ ◌+ℤ◌ neg floor_div bounded update_reputation in_context
    to_context excess
paid-twice = refl

paid-recorded : has_settlement (codes "forecast-h-a") paid ≡ true
unfolding settle_one insert_settlement append_row set_agent_reputation adjust_agent_credits update
    exists get_agent fetch text_eq settle_known settle_forecast brier_score quantize half_even
    half_even_ℤ credit_delta ◌*ℤ◌ ◌-ℤ◌ ◌+ℤ◌ neg floor_div bounded update_reputation in_context
    to_context excess
paid-recorded = refl

settle_one-old_test : paid_again ≡ paid
settle_one-old_test =
    settle_one-old acme (pos 50) (pos 1) (pos 11) bid_row paid paid_again paid-recorded paid-twice

abbrev settled : Db Fixed
settled = returned before (handle_outcome_resolved acme verdict before)

settled-before :
    settle_hypothesis acme outage (pos 1) (codes "operator") (pos 9) before ≡ ok (true, settled)
unfolding handle_outcome_resolved settle_hypothesis insert_outcome settle_recorded get_hypothesis
    settle_all list_forecasts_for_hypothesis sorted insert text_lt set_hypothesis_status settle_one
    insert_settlement append_row set_agent_reputation adjust_agent_credits update exists get_agent
    fetch text_eq settle_known settle_forecast brier_score quantize half_even half_even_ℤ
    credit_delta ◌*ℤ◌ ◌-ℤ◌ ◌+ℤ◌ neg floor_div bounded update_reputation in_context to_context excess
settled-before = refl

settle_hypothesis-once_example :
    settle_hypothesis acme outage (pos 0) (codes "x") (pos 11) settled ≡ ok (false, settled)
settle_hypothesis-once_example =
    settle_hypothesis-once acme outage (pos 1) (codes "operator") (pos 9) before settled true
      settled-before acme (pos 0) (codes "x") (pos 11)

settle_hypothesis-Gains_example : Gains before settled
settle_hypothesis-Gains_example =
    settle_hypothesis-Gains acme outage (pos 1) (codes "operator") (pos 9) before settled true
      settled-before

pub before-Solvent : Solvent before
unfolding get_agent fetch
before-Solvent b r h = ground arith

verdict-handled : handle_outcome_resolved acme verdict before ≡ ok settled
unfolding handle_outcome_resolved settle_hypothesis insert_outcome settle_recorded get_hypothesis
    settle_all list_forecasts_for_hypothesis sorted insert text_lt set_hypothesis_status settle_one
    insert_settlement append_row set_agent_reputation adjust_agent_credits update exists get_agent
    fetch text_eq settle_known settle_forecast brier_score quantize half_even half_even_ℤ
    credit_delta ◌*ℤ◌ ◌-ℤ◌ ◌+ℤ◌ neg floor_div bounded update_reputation in_context to_context excess
verdict-handled = refl

handle_outcome_resolved-Solvent_example : Solvent settled
handle_outcome_resolved-Solvent_example =
    handle_outcome_resolved-Solvent acme verdict before settled before-Solvent verdict-handled

expire_overdue-refunds_example :
    let back = staked_on ann (list_expired_hypotheses acme (pos 2000) before) before in
    let after = (expire_overdue_hypotheses acme (pos 2000) before).1 in
    (get_agent ann after
      ≡ some (record staked {
        available_credits = staked.available_credits +ℤ back;
        staked_credits = staked.staked_credits +ℤ neg back;
      }))
    × Kept before after
expire_overdue-refunds_example =
    expire_overdue-refunds ann acme (pos 2000) before staked staked-there

expire_overdue-once_example :
    expire_overdue_hypotheses acme (pos 2000) (expire_overdue_hypotheses acme (pos 2000) before).1
    ≡ ([], (expire_overdue_hypotheses acme (pos 2000) before).1)
expire_overdue-once_example = expire_overdue-once acme (pos 2000) before

-- Ann's ten credits come back to her.
expire_overdue_test :
    get_agent ann (expire_overdue_hypotheses acme (pos 2000) before).1
    ≡ some (record ann_row { available_credits = pos 20; staked_credits = pos 0 })
unfolding expire_overdue_hypotheses list_expired_hypotheses expire_all expire_one refund_all
    set_hypothesis_status list_forecasts_for_hypothesis sorted insert text_lt get_agent fetch
    adjust_agent_credits update text_eq ◌+ℤ◌ neg
expire_overdue_test = refl

-- An outcome that is neither true nor false.
abbrev absurd_verdict : Message OutcomeBody
absurd_verdict = record verdict { body = record verdict.body { outcome = pos 7 } }

before-CanSettle : CanSettle acme outage before
unfolding exists get_hypothesis fetch list_forecasts_for_hypothesis sorted insert text_eq text_lt
before-CanSettle = (refl, refl, (outage_row, refl), refl)

consume_once_invalid_outcome_example :
    consume_once
      (codes "outcomes.resolved")
      acme
      handle_outcome_resolved
      ((pos 8, absurd_verdict) ∷ [])
      before
    ≡ raised invalid_outcome ((pos 8, absurd_verdict) ∷ []) before
unfolding exists text_eq
consume_once_invalid_outcome_example =
    consume_once_invalid_outcome (codes "outcomes.resolved") acme (pos 8) absurd_verdict [] before
      (λ e. ground (arith, e)) (λ e. ground (arith, e)) refl refl before-CanSettle
