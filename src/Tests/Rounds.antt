-- ===== src/Tests/Rounds.antt =====
-- The seeding of the worker, and one round on one published forecast.
use stakeroute.Core.Types.{clamp_probability}
use stakeroute.Storage.Rows.{Db}
use stakeroute.Simulator.{AgentProfile}
use stakeroute.Worker.Process.Seeded.{Absent, Differ, Stored, Keeps, seed_agents-Stored}
use stakeroute.Prelude.{
  Result, ◌≡◌, refl, ◌∷◌, [], List, pos, ok, text_eq, text_lt, sorted, insert, ◌+ℤ◌, ◌-ℤ◌, ◌*ℤ◌,
  neg, true, false, All, Pairs, codes,
}
use stakeroute.Float.Fixed.{Fixed, fixed_float, floor_div, quotient, root_from}
use stakeroute.Core.Ranking.{allocate_attention, allocate_from, priority_score, ranks_before}
use stakeroute.Core.Baselines.{highest_confidence_probability, majority_vote_probability}
use stakeroute.Core.Independence.{independence_factor}
use stakeroute.Core.Market.{
  aggregate_probability, aggregate_sorted, combine, contribution, find_agent, influence_weight,
  weigh, weigh_all,
}
use stakeroute.Storage.Tables.{fetch, exists, update, append_row}
use stakeroute.Storage.Queries.{insert_attention_decision}
use stakeroute.Storage.Repository.{
  insert_event, get_agent, get_live_forecast, ensure_evidence_cluster, insert_forecast,
  replace_forecast, upsert_forecast, adjust_agent_credits, list_open_hypotheses, list_agents,
  list_forecasts_for_hypothesis, has_tenant,
}
use stakeroute.Worker.Pipeline.{
  load_agent_snapshots, run_ranking_pass, find, forecast_snapshots, rank_all, record_all,
  run_one_strategy, strategy_priority, strategy_result,
}
use stakeroute.Worker.Forecasts.{
  forecast_key, release, accept, handle_known, handle_forecast_created,
}
use stakeroute.Worker.Consume.{consume_message, consume_once}
use stakeroute.Worker.Updates.{
  HypothesisUpdate, hypothesis_updates, unrepeated, last_by, strategies_payload,
}
use stakeroute.Worker.Process.{
  Round, finished, round_db, worker_round, after_outcomes, rank_and_publish, send_all, seed_agents,
}
use stakeroute.Worker.Process.Sends.{Sent, DistinctIds, worker_round-Sent}
use stakeroute.Tests.Data.{acme, start, bid}
use stakeroute.Tests.Pipeline.{digest}

abbrev delivered : HypothesisUpdate Fixed → Result (Unit {0})
delivered u = ok tt

abbrev round : Round Fixed
round = worker_round digest delivered acme (pos 7) {B = Unit {0}} [] ((pos 6, bid) ∷ []) [] start

abbrev round_sent : Round Fixed → List (HypothesisUpdate Fixed)
round_sent (finished applied resolved sent db) = sent
round_sent _ = []

round-finished : round ≡ finished 1 0 (round_sent round) (round_db round)
unfolding worker_round after_outcomes rank_and_publish send_all hypothesis_updates unrepeated
    last_by strategies_payload consume_once consume_message insert_event handle_forecast_created
    handle_known accept ensure_evidence_cluster upsert_forecast replace_forecast insert_forecast
    get_agent get_live_forecast adjust_agent_credits release fetch exists append_row text_eq ◌+ℤ◌
    update neg forecast_key run_ranking_pass run_one_strategy rank_all list_open_hypotheses sorted
    strategy_result aggregate_probability forecast_snapshots list_forecasts_for_hypothesis weigh_all
    weigh find_agent load_agent_snapshots list_agents text_lt independence_factor
    highest_confidence_probability majority_vote_probability aggregate_sorted combine contribution
    influence_weight allocate_attention allocate_from priority_score ranks_before insert
    insert_attention_decision find record_all strategy_priority floor_div quotient root_from ◌*ℤ◌
    ◌-ℤ◌ clamp_probability
round-finished = refl

ids-Distinct : DistinctIds digest delivered acme (pos 7) (round_db round)
unfolding worker_round after_outcomes rank_and_publish send_all hypothesis_updates unrepeated
    last_by strategies_payload consume_once consume_message insert_event handle_forecast_created
    handle_known accept ensure_evidence_cluster upsert_forecast replace_forecast insert_forecast
    get_agent get_live_forecast adjust_agent_credits release fetch exists append_row text_eq ◌+ℤ◌
    update neg forecast_key run_ranking_pass run_one_strategy rank_all list_open_hypotheses sorted
    strategy_result aggregate_probability forecast_snapshots list_forecasts_for_hypothesis weigh_all
    weigh find_agent load_agent_snapshots list_agents text_lt independence_factor
    highest_confidence_probability majority_vote_probability aggregate_sorted combine contribution
    influence_weight allocate_attention allocate_from priority_score ranks_before insert
    insert_attention_decision find record_all strategy_priority floor_div quotient root_from ◌*ℤ◌
    ◌-ℤ◌ clamp_probability
ids-Distinct = (tt, tt)

worker_round-Sent_example : Sent digest delivered acme (pos 7) (round_sent round) (round_db round)
worker_round-Sent_example =
    worker_round-Sent digest delivered acme (pos 7) [] ((pos 6, bid) ∷ []) [] start (round_db round)
      1 0 (round_sent round) round-finished refl ids-Distinct

abbrev scout : AgentProfile Fixed
scout = record {
  agent_id = codes "n1";
  display_name = codes "Scout";
  accuracy = pos 80;
  starting_reputation = pos 90;
  malicious = false;
  attested = true;
}

abbrev novice : AgentProfile Fixed
novice = record scout { agent_id = codes "n2"; starting_reputation = pos 10; attested = false }

abbrev newcomers : List (AgentProfile Fixed)
newcomers = scout ∷ novice ∷ []

newcomers-Absent : All (Absent start) newcomers
unfolding get_agent fetch text_eq
newcomers-Absent = (refl, (refl, tt))

newcomers-Differ : Pairs Differ newcomers
unfolding text_eq
newcomers-Differ = ((refl, tt), (tt, tt))

acme-known : has_tenant start acme ≡ true
unfolding exists text_eq
acme-known = refl

seed_agents-Stored_example :
    (db' : Db Fixed) × (seed_agents acme (pos 7) newcomers start ≡ ok db')
    × All (Stored acme (pos 7) db') newcomers
    × Keeps start db'
seed_agents-Stored_example =
    seed_agents-Stored acme (pos 7) newcomers start acme-known newcomers-Differ newcomers-Absent
