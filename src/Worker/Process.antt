-- ===== src/Worker/Process.antt =====
-- src/stakeroute/worker/run_worker.py: the seeding at the start and one round of the loop.
pub mod History
pub mod Life
pub mod Seeded
pub mod Sends
use stakeroute.Prelude.{
  ℕ, Bool, true, false, ◌==◌, ◌&&◌, Option, none, some, List, [], ◌∷◌, ℤ, pos, Text, codes, text_eq,
  Result, ok, err, Error, ◌>>=◌, if◌then◌else◌,
}
use stakeroute.Float.{Float}
use stakeroute.Simulator.{HypothesisSpec, AgentProfile}
use stakeroute.Storage.Rows.{opened, AgentRow, HypothesisRow, Db}
use stakeroute.Storage.Tables.{exists}
use stakeroute.Storage.Repository.{ensure_tenant, upsert_agent, upsert_hypothesis}
use stakeroute.Worker.Messages.{Message, ForecastBody, OutcomeBody}
use stakeroute.Worker.Consume.{Run, drained, raised, consume_once, handle_signal}
use stakeroute.Worker.Forecasts.{handle_forecast_created}
use stakeroute.Worker.Runner.{handle_outcome_resolved}
use stakeroute.Worker.Pipeline.{run_ranking_pass}
use stakeroute.Worker.Updates.{HypothesisUpdate, hypothesis_updates}

-- src/stakeroute/config.py
abbrev pub attention_budget : ℤ
attention_budget = pos 2

abbrev pub epoch_grant : ℤ
epoch_grant = pos 100

module _ {F : Type 0} (tenant_id : Text) where
  abbrev pub hypothesis_row : HypothesisSpec F → HypothesisRow F
  hypothesis_row spec = record {
    id = spec.id;
    tenant_id = tenant_id;
    statement = spec.statement;
    prior_probability = spec.prior_probability;
    impact_minor_units = spec.impact_minor_units;
    urgency = spec.urgency;
    review_cost = spec.review_cost;
    deadline_ms = spec.deadline_ms;
    status = opened;
    created_at_ms = spec.created_at_ms;
  }

  abbrev pub agent_row : (now_ms : ℤ) → AgentProfile F → AgentRow F
  agent_row now_ms profile = record {
    id = profile.agent_id;
    tenant_id = tenant_id;
    display_name = profile.display_name;
    reputation = profile.starting_reputation;
    available_credits = epoch_grant;
    staked_credits = pos 0;
    attested = profile.attested;
    created_at_ms = now_ms;
  }

  unfoldable pub seed_hypotheses : List (HypothesisSpec F) → Db F → Result (Db F)
  seed_hypotheses [] db = ok db
  seed_hypotheses (spec ∷ specs) db = do
    db' ← upsert_hypothesis (hypothesis_row spec) db
    seed_hypotheses specs db'

  unfoldable pub seed_agents : (now_ms : ℤ) → List (AgentProfile F) → Db F → Result (Db F)
  seed_agents now_ms [] db = ok db
  seed_agents now_ms (profile ∷ profiles) db = do
    db' ← upsert_agent (agent_row now_ms profile) db
    seed_agents now_ms profiles db'

  -- One commit at the end: what raises leaves the database as it was.
  unfoldable pub seed_world :
      (now_ms : ℤ) → List (HypothesisSpec F) → List (AgentProfile F) → Db F → Result (Db F)
  seed_world now_ms hypotheses agents db =
      if exists (λ (r : HypothesisRow F). text_eq r.tenant_id tenant_id) db.hypotheses
      then ok db
      else (do db' ← seed_hypotheses hypotheses db; seed_agents now_ms agents db')

-- The process: in its loop, or ended by an exception; with the database as last committed.
pub data Process (F : Type 0) : Type 0 where
  running stopped : Db F → Process F

abbrev pub process_db : {F : Type 0} → Process F → Db F
process_db (running db) = db
process_db (stopped db) = db

-- `run` up to its loop, with a commit after the tenant
unfoldable pub worker_start :
    {F : Type 0}
    → (tenant_id : Text) (now_ms : ℤ) → List (HypothesisSpec F)
    → List (AgentProfile F)
    → Db F
    → Process F
worker_start tenant_id now_ms hypotheses agents db =
    let known = ensure_tenant tenant_id db in
    elim (seed_world tenant_id now_ms hypotheses agents known) [
      | err e ↦ stopped known
      | ok db' ↦ running db'
    ]

-- How a round ends: with the counts of `applied` and `resolved`, or with an exception, which ends
-- the process. Either way what was sent is sent, and the database is as last committed.
pub data Round (F : Type 0) : Type 0 where
  finished : (applied resolved : ℕ) (sent : List (HypothesisUpdate F)) → Db F → Round F
  failed : Error → (sent : List (HypothesisUpdate F)) → Db F → Round F

abbrev pub round_db : {F : Type 0} → Round F → Db F
round_db (finished applied resolved sent db) = db
round_db (failed e sent db) = db

-- Each update is published in turn; `send` is the transport's `publish`.
unfoldable pub send_all :
    {F : Type 0}
    → (HypothesisUpdate F → Result (Unit {0}))
    → List (HypothesisUpdate F)
    → List (HypothesisUpdate F) × Option Error
send_all send [] = ([], none)
send_all send (u ∷ us) =
    let rest = send_all send us in
    elim (send u) [ err e ↦ ([], some e) | ok done ↦ (u ∷ rest.0, rest.1) ]

abbrev pub publish_round :
    {F : Type 0}
    → (applied resolved : ℕ) → List (HypothesisUpdate F) × Option Error
    → Db F
    → Round F
publish_round applied resolved (sent, none) db = finished applied resolved sent db
publish_round applied resolved (sent, some e) db = failed e sent db

module _ {F : Type 0} ⦃f : Float F⦄
    (event_id : (tenant_id source source_event_id : Text) (emitted_at_ms : ℤ) → Text)
    (send : HypothesisUpdate F → Result (Unit {0})) (tenant_id : Text) (now_ms : ℤ) where
  -- the body of `if applied or resolved`
  unfoldable pub rank_and_publish : (applied resolved : ℕ) → Db F → Round F
  rank_and_publish applied resolved db =
      elim (run_ranking_pass tenant_id attention_budget now_ms db) [
        | err e ↦ failed e [] db
        | ok (results, db') ↦
            publish_round applied resolved
              (send_all send (hypothesis_updates event_id tenant_id now_ms results)) db'
      ]

  unfoldable pub after_outcomes : (applied resolved : ℕ) → Db F → Round F
  after_outcomes applied resolved db =
      if applied == 0 && resolved == 0
      then finished applied resolved [] db
      else rank_and_publish applied resolved db

  -- `now_ms` is the time that is read after the three calls of `consume_once`.
  unfoldable pub worker_round :
      {B : Type 0}
      → List (ℤ × Message B)
      → List (ℤ × Message (ForecastBody F))
      → List (ℤ × Message OutcomeBody)
      → Db F
      → Round F
  worker_round signals forecasts outcomes db =
      elim (consume_once (codes "signals.raw") tenant_id handle_signal signals db) [
        | raised e left db1 ↦ failed e [] db1
        | drained noted db1 ↦
            elim (consume_once (codes "forecasts.created") tenant_id handle_forecast_created
              forecasts db1) [
                | raised e left db2 ↦ failed e [] db2
                | drained applied db2 ↦
                    elim (consume_once (codes "outcomes.resolved") tenant_id handle_outcome_resolved
                      outcomes db2) [
                        | raised e left db3 ↦ failed e [] db3
                        | drained resolved db3 ↦ after_outcomes applied resolved db3
                      ]
              ]
      ]
