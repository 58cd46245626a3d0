-- ===== src/Worker/Consume/Invalid.antt =====
-- Outcomes that are no outcomes: `InvalidOutcome` of src/stakeroute/core/scoring.py, in the settlement
-- and in the consume loop.
use stakeroute.Prelude.{
  ◌≡◌, ◌≢◌, inl, inr, true, false, none, some, List, [], ◌∷◌, ℤ, pos, Text, text_eq, codes, ok, err,
  invalid_outcome, Option-cases, arith,
}
use stakeroute.Float.{Float}
use stakeroute.Core.Settlement.{default_places}
use stakeroute.Core.Settlement.Forecast.{settle_invalid_outcome}
use stakeroute.Storage.Rows.{AgentRow, HypothesisRow, ForecastRow, OutcomeRow, Db}
use stakeroute.Storage.Tables.{exists, fetch-none, fetch-exists, append_row}
use stakeroute.Storage.Repository.{
  get_agent, has_agent, has_tenant, get_hypothesis, insert_event, insert_outcome,
  list_forecasts_for_hypothesis,
}
use stakeroute.Worker.Messages.{Message, OutcomeBody, get_or, emitted}
use stakeroute.Worker.Runner.{
  settle_known, settle_one, settle_all, settle_recorded, settle_hypothesis, handle_outcome_resolved,
}
use stakeroute.Worker.Consume.{raised, event_row, consume_message, consume_once}
use stakeroute.Worker.Consume.Redelivery.{has_event}

module _ {F : Type 0} where
  get_agent-none : (a : Text) (db : Db F) → get_agent a db ≡ none → has_agent db a ≡ false
  unfolding get_agent
  get_agent-none a db h = fetch-none (λ r. text_eq r.id a) db.agents h

module _ {F : Type 0} where
  -- A hypothesis that can be settled: it is there, has no outcome yet and a forecast by a known agent.
  abbrev pub CanSettle : (t h : Text) → Db F → Type 0
  CanSettle t h db =
      (has_tenant db t ≡ true)
      × (exists (λ (o : OutcomeRow). text_eq o.hypothesis_id h) db.outcomes ≡ false)
      × ((row : HypothesisRow F) × (get_hypothesis h db ≡ some row))
      × (exists (λ r. has_agent db r.agent_id) (list_forecasts_for_hypothesis h db) ≡ true)

abbrev outcome_row : Text → ℤ → Text → Text → ℤ → OutcomeRow
outcome_row t outcome h by at_ms = record {
  hypothesis_id = h;
  tenant_id = t;
  outcome = outcome;
  resolved_at_ms = at_ms;
  resolved_by = by;
}

module _ {F : Type 0} ⦃f : Float F⦄ (t : Text) (outcome : ℤ) (not_false : outcome ≢ pos 0)
    (not_true : outcome ≢ pos 1) where
  settle_known_invalid :
      (prior : F) (at_ms : ℤ) (row : ForecastRow F) (agent : AgentRow F) (db : Db F)
      → settle_known t prior outcome at_ms row agent db ≡ err invalid_outcome
  unfolding settle_known
  settle_known_invalid prior at_ms row agent db = ground (
    arith,
    settle_invalid_outcome row.id row.stake prior row.probability outcome default_places not_false
        not_true,
  )

  settle_all_invalid :
      (prior : F) (at_ms : ℤ) (rows : List (ForecastRow F)) (db : Db F)
      → exists (λ r. has_agent db r.agent_id) rows ≡ true
      → settle_all t prior outcome at_ms rows db ≡ err invalid_outcome
  unfolding settle_all settle_one exists
  settle_all_invalid prior at_ms [] db h = ground arith
  settle_all_invalid prior at_ms (row ∷ rows) db h =
      elim (Option-cases (get_agent row.agent_id db)) [
        | inl unknown ↦
            ground (
              arith,
              get_agent-none row.agent_id db unknown,
              settle_all_invalid prior at_ms rows db,
            )
        | inr (agent, g) ↦ ground (arith, g, settle_known_invalid prior at_ms row agent db)
      ]

  abbrev noted : Text → Text → ℤ → Db F → Db F
  noted h by at_ms db = record db {
    outcomes = append_row (outcome_row t outcome h by at_ms) db.outcomes;
  }

  insert_outcome_new :
      (h by : Text) (at_ms : ℤ) (db : Db F)
      → CanSettle t h db
      → insert_outcome (outcome_row t outcome h by at_ms) db ≡ ok (true, noted h by at_ms db)
  unfolding insert_outcome get_hypothesis
  insert_outcome_new h by at_ms db (tenant, new, (row, found), forecasts) =
      ground (arith, fetch-exists (λ (r : HypothesisRow F). text_eq r.id h) db.hypotheses row found)

  settle_recorded_invalid :
      (h by : Text) (at_ms : ℤ) (db : Db F)
      → CanSettle t h db
      → settle_recorded t h outcome at_ms (noted h by at_ms db) ≡ err invalid_outcome
  unfolding settle_recorded get_hypothesis list_forecasts_for_hypothesis
  settle_recorded_invalid h by at_ms db (tenant, new, (row, found), forecasts) =
      let rows = list_forecasts_for_hypothesis h db in
      ground (
        arith,
        found,
        settle_all_invalid row.prior_probability at_ms rows (noted h by at_ms db) forecasts,
      )

  pub settle_hypothesis_invalid :
      (h by : Text) (at_ms : ℤ) (db : Db F)
      → CanSettle t h db
      → settle_hypothesis t h outcome by at_ms db ≡ err invalid_outcome
  unfolding settle_hypothesis
  settle_hypothesis_invalid h by at_ms db can =
      ground
        (arith, insert_outcome_new h by at_ms db can, settle_recorded_invalid h by at_ms db can)

-- An outcome message whose outcome is neither 0 nor 1, on a hypothesis that could be settled: the
-- message is new and its tenant known. Then the run raises `InvalidOutcome` at that message and leaves
-- the database as it was, with neither the event nor the outcome recorded; the message and those
-- after it stay unacknowledged.
pub consume_once_invalid_outcome :
    {F : Type 0} ⦃f : Float F⦄ (subject t : Text) (now_ms : ℤ) (m : Message OutcomeBody)
    (ms : List (ℤ × Message OutcomeBody)) (db : Db F)
    → m.body.outcome ≢ pos 0
    → m.body.outcome ≢ pos 1
    → has_event m.event_id db ≡ false
    → has_tenant db (get_or m.tenant_id t) ≡ true
    → CanSettle t m.body.hypothesis_id db
    → consume_once subject t handle_outcome_resolved ((now_ms, m) ∷ ms) db
      ≡ raised invalid_outcome ((now_ms, m) ∷ ms) db
unfolding consume_once consume_message insert_event handle_outcome_resolved
    list_forecasts_for_hypothesis get_hypothesis
consume_once_invalid_outcome {F} subject t now_ms m ms db not_false not_true new tenant can =
    let db1 : Db F = record db { events = append_row (event_row subject t now_ms m) db.events } in
    let refused =
      settle_hypothesis_invalid t m.body.outcome not_false not_true m.body.hypothesis_id
        (get_or m.body.resolved_by (codes "operator")) (emitted m) db1 can in
    ground (arith, refused)
