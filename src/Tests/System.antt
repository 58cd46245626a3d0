-- ===== src/Tests/System.antt =====
-- Histories of the worker, and the metrics and the report over them.
use stakeroute.Core.Settlement.{credit_delta, settle_forecast}
use stakeroute.Core.Scoring.{brier_score}
use stakeroute.Core.Decimal.{half_even, half_even_ℤ, quantize, excess, in_context, to_context}
use stakeroute.Core.Attack.{
  attack_settlement_loss, highest_confidence_identities_required, majority_vote_identities_required,
  required_adversary_weight, required_probability, sybil_identities_required, votes_needed,
}
use stakeroute.Prelude.{
  Rearranged, Pairs, map, select, ◌≡◌, ◌+◌, ◌≤◌, All, refl, ◌∷◌, [], List, Text, true, false, some,
  none, length, pos, ok, arith, codes, eqb_ℤ, insert, sorted, text_eq, neg, text_lt, ◌*ℤ◌, ◌+ℤ◌,
  ◌-ℤ◌,
}
use stakeroute.Float.Fixed.{Fixed, fixed_float, quotient, floor_div, root_from}
use stakeroute.Core.Attack.Cost.{
  AttackCost, unreachable, attack_frontier, baseline_attack_cost, baseline_priced, price_identities,
  price_weight, priced, stakeroute_attack_cost,
}
use stakeroute.Storage.Rows.{
  Db, DecisionRow, market, majority_vote, highest_confidence, HypothesisRow,
}
use stakeroute.Core.Types.{within, withheld}
use stakeroute.Storage.Queries.{
  duplicate_settlement_count, get_outcome, is_latest, latest_decisions, maximum, newest_of,
  same_strategy,
}
use stakeroute.Storage.Repository.{get_agent, get_hypothesis, list_forecasts_for_hypothesis}
use stakeroute.Storage.Tables.{fetch}
use stakeroute.Metrics.{routed_decisions, precision_at_k, false_escalation_rate, tally}
use stakeroute.Metrics.Escalation.{IsShare, decided, is_other, escalation_rates}
use stakeroute.Worker.Consume.{consume_once}
use stakeroute.Worker.Consume.Distinct.{
  distinct, seen_events, committed, completed, apply_each, consume_once-distinct,
}
use stakeroute.Worker.Consume.Handlers.{handle_forecast_created-KeepsEvents}
use stakeroute.Worker.Forecasts.{handle_forecast_created}
use stakeroute.Worker.System.{here, next, forecast}
use stakeroute.Worker.System.Invariant.{Sound, Reach-Sound}
use stakeroute.Worker.Process.{stopped, process_db}
use stakeroute.Worker.Process.Life.{Turn, worker_life, worker_life-Sound}
use stakeroute.Analysis.{
  AttackReport, Side, build_report, ranked_decisions, baseline_defender_probability,
  honest_weight_of, largest_probability, pick_rows, pick_target, price_report,
}
use stakeroute.Analysis.Report.{IsTarget, About, Charges, build_report-IsReport}
use stakeroute.Dashboard.{get_queue}
use stakeroute.Dashboard.Queue.{get_queue-split}
use stakeroute.Tests.Data.{acme, outage, start, bid, verdict, returned}
use stakeroute.Tests.Batches.{subject, pair, once, bid-consumed}
use stakeroute.Tests.Pipeline.{two, leak, digest}

start-Sound : Sound start
unfolding get_agent fetch
start-Sound = (λ b r h. ground arith, tt, tt)

Reach-Sound_example : Sound once × (duplicate_settlement_count once ≡ 0)
Reach-Sound_example =
    Reach-Sound {B = Text} start once start-Sound
      (next here (forecast subject acme (pos 7) bid true bid-consumed))

abbrev idle : Turn Fixed Text
idle = record {
  signals = [];
  forecasts = [];
  outcomes = [];
  now_ms = pos 0;
  send = λ u. ok tt;
  hypotheses = [];
  agents = [];
}

-- a start, a round with a forecast, and one with the outcome
abbrev turns : List (Turn Fixed Text)
turns =
    idle
    ∷ (record idle { now_ms = pos 7; forecasts = (pos 6, bid) ∷ [] })
    ∷ (record idle { now_ms = pos 12; outcomes = (pos 11, verdict) ∷ [] })
    ∷ []

worker_life-Sound_example :
    let db' = process_db (worker_life digest acme turns (stopped start)) in
    Sound db' × (duplicate_settlement_count db' ≡ 0)
worker_life-Sound_example = worker_life-Sound digest acme turns (stopped start) start-Sound

consume_once-distinct_example :
    let unique = distinct (seen_events start) pair in
    committed (consume_once subject acme handle_forecast_created pair start)
    ≡ completed (length unique) (apply_each subject acme handle_forecast_created unique start)
consume_once-distinct_example =
    consume_once-distinct subject acme handle_forecast_created handle_forecast_created-KeepsEvents
      pair start

-- the decisions of one pass, in a database with a budget of one
abbrev first_row : DecisionRow Fixed
first_row = record {
  tenant_id = acme;
  hypothesis_id = outage;
  strategy = market;
  aggregated_probability = pos 90;
  priority = pos 90;
  rank = 1;
  routed = true;
  reason = within 1 2 (pos 1);
  contributions = [];
  decided_at_ms = pos 7;
}

abbrev second_row : DecisionRow Fixed
second_row = record first_row {
  hypothesis_id = leak;
  aggregated_probability = pos 50;
  priority = pos 25;
  rank = 2;
  routed = false;
  reason = withheld 2 2 (pos 1);
}

abbrev ranked : Db Fixed
ranked = record two {
  decisions =
      second_row
      ∷ first_row
      ∷ (record first_row { strategy = majority_vote })
      ∷ (record first_row { strategy = highest_confidence })
      ∷ [];
}

-- the one routed hypothesis turned out true
abbrev judged : Db Fixed
judged = record ranked {
  outcomes =
      (record {
        hypothesis_id = outage;
        tenant_id = acme;
        outcome = pos 1;
        resolved_at_ms = pos 9;
        resolved_by = codes "x";
      })
      ∷ [];
}

escalation_rates_example :
    let ds = routed_decisions acme market judged in
    let measured = decided (λ o. true) judged ds in
    let hits = decided (λ o. eqb_ℤ o (pos 1)) judged ds in
    let misses = decided (λ o. eqb_ℤ o (pos 0)) judged ds in
    IsShare hits measured (precision_at_k acme market judged)
    × IsShare misses measured (false_escalation_rate acme market judged)
    × (measured ≡ hits + misses + decided is_other judged ds)
escalation_rates_example = escalation_rates acme market judged

precision_at_k_test : precision_at_k acme market judged ≡ (some (pos 100), 1)
unfolding precision_at_k tally routed_decisions latest_decisions sorted is_latest text_eq
    same_strategy newest_of maximum get_outcome fetch quotient insert
precision_at_k_test = refl

abbrev free : AttackCost Fixed
free = record {
  strategy = [];
  feasible = false;
  required_probability = pos 0;
  required_weight = pos 0;
  identities = pos 0;
  credits = pos 0;
  reputation_per_identity = pos 0;
  stake_per_identity = pos 0;
  shared_evidence_cluster = false;
  note = unreachable (pos 0) (pos 0);
  settlement_loss_credits = pos 0;
}

abbrev nobody : Side Fixed
nobody = record {
  hypothesis_id = [];
  statement = [];
  probability = pos 0;
  priority = pos 0;
  impact_minor_units = pos 0;
}

abbrev blank : AttackReport Fixed
blank = record {
  defender = nobody;
  target = nobody;
  honest_weight = pos 0;
  honest_forecast_count = 0;
  by_market = free;
  by_majority_vote = free;
  by_highest_confidence = free;
  economic_defence_only = free;
  frontier = [];
  stake_per_identity = pos 0;
  shared_evidence_cluster = false;
}

abbrev report : AttackReport Fixed
report = returned blank (build_report acme (pos 10) false none ranked)

report-built : build_report acme (pos 10) false none ranked ≡ ok report
unfolding build_report pick_rows ranked_decisions sorted latest_decisions is_latest text_eq
    same_strategy newest_of maximum pick_target get_hypothesis fetch price_report
    stakeroute_attack_cost required_probability floor_div root_from baseline_defender_probability
    honest_weight_of largest_probability attack_frontier baseline_attack_cost baseline_priced
    price_identities price_weight priced attack_settlement_loss
    highest_confidence_identities_required majority_vote_identities_required
    required_adversary_weight sybil_identities_required votes_needed half_even half_even_ℤ quantize
    brier_score credit_delta settle_forecast neg ◌*ℤ◌ ◌+ℤ◌ ◌-ℤ◌ insert text_lt
    list_forecasts_for_hypothesis quotient in_context to_context excess
report-built = refl

build_report-IsReport_example :
    (defender : DecisionRow Fixed) × (second : DecisionRow Fixed) × (rest : List
      (DecisionRow Fixed))
    × (target : DecisionRow Fixed) × (ranked_decisions acme market ranked
        ≡ defender ∷ second ∷ rest)
    × All (λ d. defender.rank ≤ d.rank) (second ∷ rest)
    × IsTarget none defender second rest target
    × About acme (pos 10) false defender target report
    × ((h : HypothesisRow Fixed) × (get_hypothesis target.hypothesis_id ranked ≡ some h)
        × Charges acme (pos 10) false defender target h report)
build_report-IsReport_example =
    build_report-IsReport acme (pos 10) false none ranked report (omega arith) report-built

get_queue-split_example :
    let decisions = latest_decisions acme market ranked in
    let queue = get_queue acme (pos 20) ranked in
    Rearranged
      (map (λ e. e.hypothesis_id) queue.routed)
      (map (λ d. d.hypothesis_id) (select (λ d. d.routed) decisions))
    × Pairs (λ e e'. e.rank ≤ e'.rank) queue.routed
    × (queue.slots_used ≡ length queue.routed)
    × (queue.slots_used + queue.withheld_count ≡ length decisions)
get_queue-split_example = get_queue-split acme (pos 20) ranked
