-- ===== src/Worker/Consume/Outcomes.antt =====
-- The handler of outcomes and the table of events.
use stakeroute.Prelude.{
  ◌≡◌, refl, sym, ap, ◌∙◌, inl, inr, Bool, true, false, List, [], ◌∷◌, ℤ, neg, ◌+ℤ◌, codes, Text,
  ok, bind-eq-ok, ok-inj, Option-cases, Bool-cases, arith, if◌then◌else◌,
}
use stakeroute.Float.{Float}
use stakeroute.Core.Settlement.{settle_forecast, default_places}
use stakeroute.Storage.Rows.{Status, resolved, AgentRow, ForecastRow, SettlementRow, OutcomeRow, Db}
use stakeroute.Storage.Repository.{
  get_agent, get_hypothesis, insert_outcome, insert_settlement, adjust_agent_credits,
  set_agent_reputation, set_hypothesis_status, list_forecasts_for_hypothesis,
}
use stakeroute.Worker.Messages.{get_or, emitted}
use stakeroute.Worker.Runner.{
  reputation_after, settlement_row, settle_known, settle_one, settle_all, settle_recorded,
  settle_hypothesis, handle_outcome_resolved,
}
use stakeroute.Worker.Consume.Redelivery.{KeepsEvents}

module _ {F : Type 0} where
  insert_settlement-events :
      ⦃f : Float F⦄ (row : SettlementRow F) (db : Db F) (r : Bool × Db F)
      → insert_settlement row db ≡ ok r
      → r.1.events ≡ db.events
  unfolding insert_settlement
  insert_settlement-events row db r h = ground arith

  insert_outcome-events :
      (row : OutcomeRow) (db : Db F) (r : Bool × Db F)
      → insert_outcome row db ≡ ok r
      → r.1.events ≡ db.events
  unfolding insert_outcome
  insert_outcome-events row db r h = ground arith

  status-events :
      (h : Text) (s : Status) (db : Db F) → (set_hypothesis_status h s db).events ≡ db.events
  unfolding set_hypothesis_status
  status-events h s db = refl

  paid-events :
      (a : Text) (d e : ℤ) (reputation : F) (b : Bool) (db db' : Db F)
      → (if b then adjust_agent_credits a d e (set_agent_reputation a reputation db) else db) ≡ db'
      → db'.events ≡ db.events
  unfolding adjust_agent_credits set_agent_reputation
  paid-events a d e reputation true db db' h = ap (λ (d : Db F). d.events) (sym h)
  paid-events a d e reputation false db db' h = ap (λ (d : Db F). d.events) (sym h)

module _ {F : Type 0} ⦃f : Float F⦄ (t : Text) (prior : F) (outcome at_ms : ℤ) where
  settle_known-events :
      (row : ForecastRow F) (agent : AgentRow F) (db db' : Db F)
      → settle_known t prior outcome at_ms row agent db ≡ ok db'
      → db'.events ≡ db.events
  unfolding settle_known
  settle_known-events row agent db db' h =
      let (s, hs, h1) =
        bind-eq-ok (settle_forecast row.id row.stake prior row.probability outcome default_places) _
          h in
      let (r, hr, e) =
        bind-eq-ok (insert_settlement (settlement_row t at_ms row agent s) db) _ h1 in
      paid-events agent.id (row.stake +ℤ s.credit_delta) (neg row.stake) (reputation_after agent s)
        r.0 r.1 db' (ok-inj e)
      ∙ insert_settlement-events (settlement_row t at_ms row agent s) db r hr

  settle_one-events :
      (row : ForecastRow F) (db db' : Db F)
      → settle_one t prior outcome at_ms row db ≡ ok db'
      → db'.events ≡ db.events
  unfolding settle_one
  settle_one-events row db db' h = elim (Option-cases (get_agent row.agent_id db)) [
    | inl unknown ↦ ground arith
    | inr (agent, g) ↦ settle_known-events row agent db db' (ground arith)
  ]

  settle_all-events :
      (rows : List (ForecastRow F)) (db db' : Db F)
      → settle_all t prior outcome at_ms rows db ≡ ok db'
      → db'.events ≡ db.events
  unfolding settle_all
  settle_all-events [] db db' h = ap (λ (d : Db F). d.events) (sym (ok-inj h))
  settle_all-events (row ∷ rows) db db' h =
      let (db1, h1, h2) = bind-eq-ok (settle_one t prior outcome at_ms row db) _ h in
      settle_all-events rows db1 db' h2 ∙ settle_one-events row db db1 h1

module _ {F : Type 0} ⦃f : Float F⦄ (t h : Text) (outcome : ℤ) where
  settle_recorded-events :
      (at_ms : ℤ) (db : Db F) (r : Bool × Db F)
      → settle_recorded t h outcome at_ms db ≡ ok r
      → r.1.events ≡ db.events
  unfolding settle_recorded
  settle_recorded-events at_ms db r e = elim (Option-cases (get_hypothesis h db)) [
    | inl missing ↦ ground arith
    | inr (row, found) ↦
        let rows = list_forecasts_for_hypothesis h db in
        let (db1, h1, e1) =
          bind-eq-ok (settle_all t row.prior_probability outcome at_ms rows db)
            (λ d. ok (true, set_hypothesis_status h resolved d)) {b = r} (ground arith) in
        ap (λ (x : Bool × Db F). x.1.events) (sym (ok-inj e1))
        ∙ status-events h resolved db1
        ∙ settle_all-events t row.prior_probability outcome at_ms rows db db1 h1
  ]

  settle_hypothesis-events :
      (by : Text) (at_ms : ℤ) (db : Db F) (r : Bool × Db F)
      → settle_hypothesis t h outcome by at_ms db ≡ ok r
      → r.1.events ≡ db.events
  unfolding settle_hypothesis
  settle_hypothesis-events by at_ms db r e =
      let row : OutcomeRow = record {
        hypothesis_id = h;
        tenant_id = t;
        outcome = outcome;
        resolved_at_ms = at_ms;
        resolved_by = by;
      } in
      let (r1, h1, e1) = bind-eq-ok (insert_outcome row db) _ e in
      let same = insert_outcome-events row db r1 h1 in
      elim (Bool-cases r1.0) [
        | inl new ↦ settle_recorded-events at_ms r1.1 r (ground arith) ∙ same
        | inr old ↦
            ap (λ (x : Bool × Db F). x.1.events)
              (sym (ok-inj {v = (false, r1.1)} {w = r} (ground arith)))
            ∙ same
      ]

-- An outcome's handler changes no event.
pub handle_outcome_resolved-KeepsEvents :
    {F : Type 0} ⦃f : Float F⦄ → KeepsEvents {F = F} handle_outcome_resolved
unfolding handle_outcome_resolved
handle_outcome_resolved-KeepsEvents t m db db' h =
    let by = get_or m.body.resolved_by (codes "operator") in
    let (r, hr, e) =
      bind-eq-ok (settle_hypothesis t m.body.hypothesis_id m.body.outcome by (emitted m) db) _ h in
    ap (λ (d : Db _). d.events) (sym (ok-inj e))
    ∙ settle_hypothesis-events t m.body.hypothesis_id m.body.outcome by (emitted m) db r hr
