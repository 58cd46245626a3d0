-- ===== src/Worker/System/Settlements.antt =====
-- Settlements and the forecasts they are of: src/stakeroute/worker/settlement_runner.py.
use stakeroute.Prelude.{
  ◌≡◌, refl, sym, ap, subst, ◌∙◌, inl, inr, Bool, true, false, List, [], ◌∷◌, ℤ, neg, ◌+ℤ◌, codes,
  Text, text_eq, ok, bind-eq-ok, ok-inj, Option-cases, Bool-cases, arith, if◌then◌else◌,
}
use stakeroute.Float.{Float}
use stakeroute.Core.Settlement.{settle_forecast, default_places}
use stakeroute.Storage.Rows.{Status, resolved, AgentRow, ForecastRow, SettlementRow, OutcomeRow, Db}
use stakeroute.Storage.Tables.{exists, append_row}
use stakeroute.Storage.Repository.{
  get_agent, get_hypothesis, insert_outcome, insert_settlement, adjust_agent_credits,
  set_agent_reputation, set_hypothesis_status, list_forecasts_for_hypothesis,
}
use stakeroute.Worker.Messages.{Message, OutcomeBody, get_or, emitted}
use stakeroute.Worker.Runner.{
  reputation_after, settlement_row, settle_known, settle_one, settle_all, settle_recorded,
  settle_hypothesis, handle_outcome_resolved,
}
use stakeroute.Worker.System.Unrepeated.{Pairs-append_row, All-absent, Apart, Unrepeated}

module _ {F : Type 0} where
  -- The forecasts are as they were, and no forecast gets a second settlement.
  abbrev pub Settles : Db F → Db F → Type 0
  Settles db db' =
      (db'.forecasts ≡ db.forecasts) × (Unrepeated db.settlements → Unrepeated db'.settlements)

  Settles-refl : (db : Db F) → Settles db db
  Settles-refl db = (refl, λ u. u)

  Settles-trans : (db1 db2 db3 : Db F) → Settles db1 db2 → Settles db2 db3 → Settles db1 db3
  Settles-trans db1 db2 db3 (fs, u) (fs', u') = (fs' ∙ fs, λ h. u' (u h))

  pub same_settlements :
      (db db' : Db F)
      → db'.forecasts ≡ db.forecasts
      → db'.settlements ≡ db.settlements
      → Settles db db'
  same_settlements db db' fs ss = (fs, λ u. subst Unrepeated (sym ss) u)

  insert_settlement-table :
      ⦃f : Float F⦄ (row : SettlementRow F) (db db' : Db F) (b : Bool)
      → exists (λ (r : SettlementRow F). text_eq r.forecast_id row.forecast_id) db.settlements
        ≡ false
      → insert_settlement row db ≡ ok (b, db')
      → (db'.forecasts ≡ db.forecasts) × (db'.settlements ≡ append_row row db.settlements)
  unfolding insert_settlement
  insert_settlement-table row db db' b new h = ground arith

  insert_settlement-again :
      ⦃f : Float F⦄ (row : SettlementRow F) (db db' : Db F) (b : Bool)
      → exists (λ (r : SettlementRow F). text_eq r.forecast_id row.forecast_id) db.settlements
        ≡ true
      → insert_settlement row db ≡ ok (b, db')
      → (db'.forecasts ≡ db.forecasts) × (db'.settlements ≡ db.settlements)
  unfolding insert_settlement
  insert_settlement-again row db db' b old h = ground arith

  insert_settlement-Settles :
      ⦃f : Float F⦄ (row : SettlementRow F) (db db' : Db F) (b : Bool)
      → insert_settlement row db ≡ ok (b, db')
      → Settles db db'
  insert_settlement-Settles row db db' b h =
      let taken = λ (r : SettlementRow F). text_eq r.forecast_id row.forecast_id in
      elim (Bool-cases (exists taken db.settlements)) [
        | inl old ↦
            let (fs, ss) = insert_settlement-again row db db' b old h in
            same_settlements db db' fs ss
        | inr new ↦
            let (fs, ss) = insert_settlement-table row db db' b new h in
            let apart = All-absent taken db.settlements new in
            (fs, λ u. subst Unrepeated (sym ss) (Pairs-append_row Apart row db.settlements apart u))
      ]

  paid-Settles :
      (a : Text) (d e : ℤ) (reputation : F) (b : Bool) (db db' : Db F)
      → (if b then adjust_agent_credits a d e (set_agent_reputation a reputation db) else db) ≡ db'
      → Settles db db'
  unfolding adjust_agent_credits set_agent_reputation
  paid-Settles a d e reputation true db db' h =
      same_settlements db db' (ap (λ (x : Db F). x.forecasts) (sym h))
        (ap (λ (x : Db F). x.settlements) (sym h))
  paid-Settles a d e reputation false db db' h =
      same_settlements db db' (ap (λ (x : Db F). x.forecasts) (sym h))
        (ap (λ (x : Db F). x.settlements) (sym h))

  insert_outcome-Settles :
      (row : OutcomeRow) (db : Db F) (r : Bool × Db F)
      → insert_outcome row db ≡ ok r
      → Settles db r.1
  unfolding insert_outcome
  insert_outcome-Settles row db r h = same_settlements db r.1 (ground arith) (ground arith)

  status-Settles : (h : Text) (s : Status) (db : Db F) → Settles db (set_hypothesis_status h s db)
  unfolding set_hypothesis_status
  status-Settles h s db = (refl, λ u. u)

module _ {F : Type 0} ⦃f : Float F⦄ (t : Text) (prior : F) (outcome at_ms : ℤ) where
  settle_known-Settles :
      (row : ForecastRow F) (agent : AgentRow F) (db db' : Db F)
      → settle_known t prior outcome at_ms row agent db ≡ ok db'
      → Settles db db'
  unfolding settle_known
  settle_known-Settles row agent db db' h =
      let (s, hs, h1) =
        bind-eq-ok (settle_forecast row.id row.stake prior row.probability outcome default_places) _
          h in
      let (r, hr, e) =
        bind-eq-ok (insert_settlement (settlement_row t at_ms row agent s) db) _ h1 in
      Settles-trans db r.1 db'
        (insert_settlement-Settles (settlement_row t at_ms row agent s) db r.1 r.0 hr)
        (paid-Settles agent.id (row.stake +ℤ s.credit_delta) (neg row.stake)
          (reputation_after agent s) r.0 r.1 db' (ok-inj e))

  settle_one-Settles :
      (row : ForecastRow F) (db db' : Db F)
      → settle_one t prior outcome at_ms row db ≡ ok db'
      → Settles db db'
  unfolding settle_one
  settle_one-Settles row db db' h = elim (Option-cases (get_agent row.agent_id db)) [
    | inl unknown ↦ subst (Settles db) (ok-inj {v = db} {w = db'} (ground arith)) (Settles-refl db)
    | inr (agent, g) ↦ settle_known-Settles row agent db db' (ground arith)
  ]

  settle_all-Settles :
      (rows : List (ForecastRow F)) (db db' : Db F)
      → settle_all t prior outcome at_ms rows db ≡ ok db'
      → Settles db db'
  unfolding settle_all
  settle_all-Settles [] db db' h = subst (Settles db) (ok-inj h) (Settles-refl db)
  settle_all-Settles (row ∷ rows) db db' h =
      let (db1, h1, h2) = bind-eq-ok (settle_one t prior outcome at_ms row db) _ h in
      Settles-trans db db1 db' (settle_one-Settles row db db1 h1)
        (settle_all-Settles rows db1 db' h2)

module _ {F : Type 0} ⦃f : Float F⦄ (t h : Text) (outcome : ℤ) where
  settle_recorded-Settles :
      (at_ms : ℤ) (db : Db F) (r : Bool × Db F)
      → settle_recorded t h outcome at_ms db ≡ ok r
      → Settles db r.1
  unfolding settle_recorded
  settle_recorded-Settles at_ms db r e = elim (Option-cases (get_hypothesis h db)) [
    | inl missing ↦
        let same : db ≡ r.1 =
          ap (λ (x : Bool × Db F). x.1) (ok-inj {v = (false, db)} {w = r} (ground arith)) in
        subst (Settles db) same (Settles-refl db)
    | inr (row, found) ↦
        let rows = list_forecasts_for_hypothesis h db in
        let (db1, h1, e1) =
          bind-eq-ok (settle_all t row.prior_probability outcome at_ms rows db)
            (λ d. ok (true, set_hypothesis_status h resolved d)) {b = r} (ground arith) in
        subst (Settles db) (ap (λ (x : Bool × Db F). x.1) (ok-inj e1)) (
          Settles-trans db db1 (set_hypothesis_status h resolved db1)
            (settle_all-Settles t row.prior_probability outcome at_ms rows db db1 h1)
            (status-Settles h resolved db1))
  ]

  settle_hypothesis-Settles :
      (by : Text) (at_ms : ℤ) (db : Db F) (r : Bool × Db F)
      → settle_hypothesis t h outcome by at_ms db ≡ ok r
      → Settles db r.1
  unfolding settle_hypothesis
  settle_hypothesis-Settles by at_ms db r e =
      let row : OutcomeRow = record {
        hypothesis_id = h;
        tenant_id = t;
        outcome = outcome;
        resolved_at_ms = at_ms;
        resolved_by = by;
      } in
      let (p, hp, e1) = bind-eq-ok (insert_outcome row db) _ e in
      let recorded = insert_outcome-Settles row db p hp in
      elim (Bool-cases p.0) [
        | inl new ↦
            Settles-trans db p.1 r.1 recorded (settle_recorded-Settles at_ms p.1 r (ground arith))
        | inr old ↦
            let same : p.1 ≡ r.1 =
              ap (λ (x : Bool × Db F). x.1) (ok-inj {v = (false, p.1)} {w = r} (ground arith)) in
            subst (Settles db) same recorded
      ]

pub handle_outcome_resolved-Settles :
    {F : Type 0} ⦃f : Float F⦄ (t : Text) (m : Message OutcomeBody) (db db' : Db F)
    → handle_outcome_resolved t m db ≡ ok db'
    → Settles db db'
unfolding handle_outcome_resolved
handle_outcome_resolved-Settles {F} t m db db' h =
    let by = get_or m.body.resolved_by (codes "operator") in
    let (r, hr, e) =
      bind-eq-ok (settle_hypothesis t m.body.hypothesis_id m.body.outcome by (emitted m) db) _ h in
    subst (Settles db) (ok-inj e)
      (settle_hypothesis-Settles t m.body.hypothesis_id m.body.outcome by (emitted m) db r hr)
