-- ===== src/Tests/Pipeline.antt =====
-- A ranking pass over the example's database, and what follows it.
use stakeroute.Storage.Tables.{append_row, exists}
use stakeroute.Storage.Queries.{insert_attention_decision}
use stakeroute.Core.Ranking.{allocate_attention, allocate_from, priority_score, ranks_before}
use stakeroute.Core.Baselines.{highest_confidence_probability, majority_vote_probability}
use stakeroute.Core.Independence.{independence_factor}
use stakeroute.Core.Market.{
  aggregate_probability, aggregate_sorted, combine, contribution, find_agent, influence_weight,
  weigh, weigh_all,
}
use stakeroute.Prelude.{
  ◌≡◌, ◌++◌, refl, ◌∷◌, [], List, Pairs, Text, ℤ, pos, ok, text_eq, text_lt, ◌+ℤ◌, ◌-ℤ◌, ◌*ℤ◌, neg,
  codes, sorted, insert, map,
}
use stakeroute.Float.Fixed.{Fixed, fixed_float, floor_div, quotient, root_from}
use stakeroute.Storage.Rows.{Db, DecisionRow, market, majority_vote, highest_confidence}
use stakeroute.Storage.Repository.{list_open_hypotheses, list_agents, list_forecasts_for_hypothesis}
use stakeroute.Worker.Pipeline.{
  PassResults, RankingPassResult, load_agent_snapshots, run_ranking_pass, find, forecast_snapshots,
  rank_all, record_all, run_one_strategy, strategy_priority, strategy_result,
}
use stakeroute.Worker.Pipeline.Pass.{Decided, run_ranking_pass-effect}
use stakeroute.Worker.Updates.{hypothesis_updates}
use stakeroute.Worker.Updates.Complete.{IsComplete, hypothesis_updates-IsComplete}
use stakeroute.Worker.Updates.Named.{Unlike}
use stakeroute.Tests.Data.{acme, outage_row, returned}
use stakeroute.Tests.Settlements.{before}

-- a second open hypothesis, of less impact
abbrev pub leak : Text
leak = codes "k"

abbrev pub two : Db Fixed
two = record before {
  hypotheses = outage_row ∷ (record outage_row { id = leak; impact_minor_units = pos 50 }) ∷ [];
}

abbrev nothing : RankingPassResult Fixed
nothing = record {
  allocation = record { decisions = []; withheld_count = 0 };
  aggregates = [];
  ranked = [];
}

abbrev pub pass : PassResults Fixed × Db Fixed
pass = returned ((nothing, nothing, nothing), two) (run_ranking_pass acme (pos 1) (pos 7) two)

pub pass-run : run_ranking_pass acme (pos 1) (pos 7) two ≡ ok pass
unfolding run_ranking_pass run_one_strategy rank_all list_open_hypotheses sorted text_eq
    strategy_result aggregate_probability forecast_snapshots list_forecasts_for_hypothesis weigh_all
    weigh find_agent load_agent_snapshots list_agents text_lt independence_factor
    highest_confidence_probability majority_vote_probability aggregate_sorted combine contribution
    influence_weight allocate_attention allocate_from priority_score ranks_before neg insert
    insert_attention_decision append_row exists find record_all strategy_priority floor_div quotient
    root_from ◌*ℤ◌ ◌+ℤ◌ ◌-ℤ◌
pass-run = refl

run_ranking_pass-effect_example :
    let decided =
      Decided acme
        (pos 1)
        (pos 7)
        (list_open_hypotheses acme two)
        (load_agent_snapshots acme two)
        two in
    (first : List (DecisionRow Fixed)) × (second : List (DecisionRow Fixed)) × (third : List
      (DecisionRow Fixed))
    × (pass.1 ≡ record two { decisions = ((two.decisions ++ first) ++ second) ++ third })
    × decided market first
    × decided majority_vote second
    × decided highest_confidence third
run_ranking_pass-effect_example =
    run_ranking_pass-effect acme (pos 1) (pos 7) two pass.1 pass.0 pass-run

-- the digest stands for the id of the hypothesis
abbrev pub digest : Text → Text → Text → ℤ → Text
digest tenant_id source source_event_id ms = source_event_id

ids-Unlike : Pairs Unlike (map (λ h. h.id) (list_open_hypotheses acme two))
unfolding list_open_hypotheses sorted insert text_eq text_lt
ids-Unlike = ((refl, tt), (tt, tt))

hypothesis_updates-IsComplete_example :
    IsComplete
      (map (λ h. h.id) (list_open_hypotheses acme two))
      (hypothesis_updates digest acme (pos 7) pass.0)
hypothesis_updates-IsComplete_example =
    hypothesis_updates-IsComplete digest acme (pos 1) (pos 7) two pass.1 pass.0 ids-Unlike pass-run
