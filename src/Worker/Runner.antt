-- ===== src/Worker/Runner.antt =====
-- src/stakeroute/worker/settlement_runner.py, and the handler that calls it.
pub mod Once
pub mod Credits
pub mod Settled
pub mod Expired
pub mod Overdue
pub mod Refunded
use stakeroute.Prelude.{
  ℕ, Bool, true, false, Option, none, some, List, [], ◌∷◌, map, ℤ, pos, neg, ◌+ℤ◌, Text, codes,
  Result, ok, err, ◌>>=◌, if◌then◌else◌,
}
use stakeroute.Float.{Float}
use stakeroute.Core.Types.{Settlement}
use stakeroute.Core.Settlement.{settle_forecast, default_places}
use stakeroute.Core.Reputation.{update_reputation, default_decay}
use stakeroute.Storage.Rows.{
  Status, resolved, expired, AgentRow, HypothesisRow, ForecastRow, SettlementRow, OutcomeRow, Db,
}
use stakeroute.Storage.Repository.{
  insert_outcome, get_hypothesis, list_forecasts_for_hypothesis, get_agent, insert_settlement,
  set_agent_reputation, adjust_agent_credits, set_hypothesis_status, list_expired_hypotheses,
}
use stakeroute.Worker.Messages.{Message, OutcomeBody, get_or, emitted}

module _ {F : Type 0} ⦃f : Float F⦄ where
  abbrev pub reputation_after : AgentRow F → Settlement F → F
  reputation_after agent s =
      update_reputation agent.reputation s.brier_score s.improvement default_decay

  abbrev pub settlement_row :
      (tenant_id : Text) (resolved_at_ms : ℤ)
      → ForecastRow F
      → AgentRow F
      → Settlement F
      → SettlementRow F
  settlement_row tenant_id resolved_at_ms row agent s = record {
    tenant_id = tenant_id;
    forecast_id = row.id;
    brier_score = s.brier_score;
    prior_brier_score = s.prior_brier_score;
    improvement = s.improvement;
    credit_delta = s.credit_delta;
    reputation_before = agent.reputation;
    reputation_after = reputation_after agent s;
    settled_at_ms = resolved_at_ms;
  }

  -- the body of the loop for a forecast whose agent is known
  unfoldable pub settle_known :
      (tenant_id : Text) (prior : F) (outcome resolved_at_ms : ℤ)
      → ForecastRow F
      → AgentRow F
      → Db F
      → Result (Db F)
  settle_known tenant_id prior outcome resolved_at_ms row agent db = do
    settlement ← settle_forecast row.id row.stake prior row.probability outcome default_places
    inserted ← insert_settlement (settlement_row tenant_id resolved_at_ms row agent settlement) db
    ok (
        if inserted.0
        then adjust_agent_credits agent.id (row.stake +ℤ settlement.credit_delta) (neg row.stake)
            (set_agent_reputation agent.id (reputation_after agent settlement) inserted.1)
        else inserted.1)

  unfoldable pub settle_one :
      (tenant_id : Text) (prior : F) (outcome resolved_at_ms : ℤ)
      → ForecastRow F
      → Db F
      → Result (Db F)
  settle_one tenant_id prior outcome resolved_at_ms row db = elim (get_agent row.agent_id db) [
    | none ↦ ok db
    | some agent ↦ settle_known tenant_id prior outcome resolved_at_ms row agent db
  ]

  unfoldable pub settle_all :
      (tenant_id : Text) (prior : F) (outcome resolved_at_ms : ℤ)
      → List (ForecastRow F)
      → Db F
      → Result (Db F)
  settle_all tenant_id prior outcome resolved_at_ms [] db = ok db
  settle_all tenant_id prior outcome resolved_at_ms (row ∷ rows) db = do
    db' ← settle_one tenant_id prior outcome resolved_at_ms row db
    settle_all tenant_id prior outcome resolved_at_ms rows db'

  -- after the outcome is recorded
  unfoldable pub settle_recorded :
      (tenant_id hypothesis_id : Text) (outcome resolved_at_ms : ℤ) → Db F → Result (Bool × Db F)
  settle_recorded tenant_id hypothesis_id outcome resolved_at_ms db =
      elim (get_hypothesis hypothesis_id db) [
        | none ↦ ok (false, db)
        | some hypothesis ↦ do
          db' ←
              settle_all tenant_id hypothesis.prior_probability outcome resolved_at_ms
                (list_forecasts_for_hypothesis hypothesis_id db) db
          ok (true, set_hypothesis_status hypothesis_id resolved db')
      ]

  unfoldable pub settle_hypothesis :
      (tenant_id hypothesis_id : Text) (outcome : ℤ) (resolved_by : Text) (resolved_at_ms : ℤ)
      → Db F
      → Result (Bool × Db F)
  settle_hypothesis tenant_id hypothesis_id outcome resolved_by resolved_at_ms db = do
    recorded ←
        insert_outcome
          (record {
            hypothesis_id = hypothesis_id;
            tenant_id = tenant_id;
            outcome = outcome;
            resolved_at_ms = resolved_at_ms;
            resolved_by = resolved_by;
          })
          db
    (if recorded.0
        then settle_recorded tenant_id hypothesis_id outcome resolved_at_ms recorded.1
        else ok (false, recorded.1))

  unfoldable pub handle_outcome_resolved : Text → Message OutcomeBody → Db F → Result (Db F)
  handle_outcome_resolved tenant_id m db = do
    settled ←
        settle_hypothesis tenant_id m.body.hypothesis_id m.body.outcome
          (get_or m.body.resolved_by (codes "operator")) (emitted m) db
    ok settled.1

module _ {F : Type 0} where
  unfoldable pub refund_all : List (ForecastRow F) → Db F → Db F
  refund_all [] db = db
  refund_all (row ∷ rows) db =
      refund_all rows (adjust_agent_credits row.agent_id row.stake (neg row.stake) db)

  unfoldable pub expire_one : HypothesisRow F → Db F → Db F
  expire_one hypothesis db =
      set_hypothesis_status hypothesis.id expired
        (refund_all (list_forecasts_for_hypothesis hypothesis.id db) db)

  unfoldable pub expire_all : List (HypothesisRow F) → Db F → Db F
  expire_all [] db = db
  expire_all (h ∷ hs) db = expire_all hs (expire_one h db)

  unfoldable pub expire_overdue_hypotheses : Text → ℤ → Db F → List Text × Db F
  expire_overdue_hypotheses tenant_id now_ms db =
      let found = list_expired_hypotheses tenant_id now_ms db in
      (map (λ h. h.id) found, expire_all found db)
