-- ===== src/Worker/Runner/Settled.antt =====
-- Settling a hypothesis once, and again.
use stakeroute.Prelude.{
  codes, ◌≡◌, refl, ◌∙◌, ap, subst, inl, inr, Bool, true, false, ℤ, Text, text_eq, text_eq_refl, ok,
  bind-eq-ok, ok-inj, Bool-cases, Option-cases, arith,
}
use stakeroute.Float.{Float}
use stakeroute.Storage.Rows.{Status, resolved, OutcomeRow, Db}
use stakeroute.Storage.Tables.{exists, exists-append_row_self}
use stakeroute.Storage.Repository.{
  get_hypothesis, insert_outcome, set_hypothesis_status, list_forecasts_for_hypothesis,
}
use stakeroute.Worker.Messages.{Message, OutcomeBody, get_or, emitted}
use stakeroute.Storage.Ledger.Gains.{
  Solvent, Gains-Solvent, Gains, Gains-refl, Gains-trans, Gains-same_agents,
}
use stakeroute.Worker.Runner.Credits.{Paid, settle_all-Paid}
use stakeroute.Worker.Runner.{
  settle_all, settle_recorded, settle_hypothesis, handle_outcome_resolved,
}

module _ {F : Type 0} where
  ok_pair-inj : {x y : Bool × Db F} → ok x ≡ ok y → x.1 ≡ y.1
  ok_pair-inj e = ap (λ (r : Bool × Db F). r.1) (ok-inj e)

  status-Gains :
      (h : Text) (s : Status) (db : Db F)
      → ((set_hypothesis_status h s db).agents ≡ db.agents)
        × ((set_hypothesis_status h s db).outcomes ≡ db.outcomes)
  unfolding set_hypothesis_status
  status-Gains h s db = (refl, refl)

  abbrev has_outcome : Text → Db F → Bool
  has_outcome h db = exists (λ (r : OutcomeRow). text_eq r.hypothesis_id h) db.outcomes

  -- Afterwards the hypothesis has an outcome, whether it is the new one or an older one.
  insert_outcome-frame :
      (row : OutcomeRow) (db db' : Db F) (b : Bool)
      → insert_outcome row db ≡ ok (b, db')
      → (db'.agents ≡ db.agents) × (has_outcome row.hypothesis_id db' ≡ true)
  unfolding insert_outcome
  insert_outcome-frame row db db' b h = ground (
    arith,
    exists-append_row_self (λ (r : OutcomeRow). text_eq r.hypothesis_id row.hypothesis_id) row
        db.outcomes,
    text_eq_refl row.hypothesis_id,
  )

module _ {F : Type 0} ⦃f : Float F⦄ (t h : Text) (outcome : ℤ) where
  settle_recorded-Paid :
      (at_ms : ℤ) (db db' : Db F) (b : Bool)
      → settle_recorded t h outcome at_ms db ≡ ok (b, db')
      → Paid db db'
  unfolding settle_recorded
  settle_recorded-Paid at_ms db db' b e = elim (Option-cases (get_hypothesis h db)) [
    | inl missing ↦
        subst (Paid db) (ok_pair-inj {x = (false, db)} {y = (b, db')} (ground arith))
          (Gains-refl db, refl)
    | inr (row, found) ↦
        let (db1, h1, e1) =
          bind-eq-ok
            (settle_all t row.prior_probability outcome at_ms (list_forecasts_for_hypothesis h db)
              db)
            (λ d. ok (true, set_hypothesis_status h resolved d)) {b = (b, db')} (ground arith) in
        let (up, outcomes) =
          settle_all-Paid t row.prior_probability outcome at_ms (list_forecasts_for_hypothesis h db)
            db db1 h1 in
        let (agents2, outcomes2) = status-Gains h resolved db1 in
        subst (Paid db) (ok_pair-inj e1)
          (Gains-trans db db1 _ up (Gains-same_agents db1 _ agents2), outcomes2 ∙ outcomes)
  ]

  -- After any settlement that raises nothing, the hypothesis has an outcome, and no agent's
  -- available credits are fewer than before.
  settle_hypothesis-Settled :
      (by : Text) (at_ms : ℤ) (db db' : Db F) (b : Bool)
      → settle_hypothesis t h outcome by at_ms db ≡ ok (b, db')
      → Gains db db' × (has_outcome h db' ≡ true)
  unfolding settle_hypothesis
  settle_hypothesis-Settled by at_ms db db' b e =
      let row : OutcomeRow = record {
        hypothesis_id = h;
        tenant_id = t;
        outcome = outcome;
        resolved_at_ms = at_ms;
        resolved_by = by;
      } in
      let (r, hr, e1) = bind-eq-ok (insert_outcome row db) _ e in
      let (agents, there) = insert_outcome-frame row db r.1 r.0 hr in
      elim (Bool-cases r.0) [
        | inl new ↦
            let (up, outcomes) = settle_recorded-Paid at_ms r.1 db' b (ground arith) in
            (
              Gains-trans db r.1 db' (Gains-same_agents db r.1 agents) up,
              ap (exists (λ (o : OutcomeRow). text_eq o.hypothesis_id h)) outcomes ∙ there,
            )
        | inr old ↦
            let same : r.1 ≡ db' = ok_pair-inj {x = (false, r.1)} {y = (b, db')} (ground arith) in
            subst (λ d. Gains db d × (has_outcome h d ≡ true)) same
              (Gains-same_agents db r.1 agents, there)
      ]

  -- A hypothesis that has an outcome is not settled again, whatever the new outcome.
  settled_before :
      (by : Text) (at_ms : ℤ) (db : Db F)
      → has_outcome h db ≡ true
      → settle_hypothesis t h outcome by at_ms db ≡ ok (false, db)
  unfolding settle_hypothesis insert_outcome
  settled_before by at_ms db there = ground arith

-- Once a hypothesis has been settled, to settle it again, with whatever outcome, resolver and time,
-- changes nothing, and reports that it did nothing.
pub settle_hypothesis-once :
    {F : Type 0} ⦃f : Float F⦄ (t h : Text) (outcome : ℤ) (by : Text) (at_ms : ℤ) (db db' : Db F)
    (b : Bool)
    → settle_hypothesis t h outcome by at_ms db ≡ ok (b, db')
    → (t' : Text) (outcome' : ℤ) (by' : Text) (at_ms' : ℤ)
    → settle_hypothesis t' h outcome' by' at_ms' db' ≡ ok (false, db')
settle_hypothesis-once t h outcome by at_ms db db' b e t' outcome' by' at_ms' =
    let (_, there) = settle_hypothesis-Settled t h outcome by at_ms db db' b e in
    settled_before t' h outcome' by' at_ms' db' there

-- A settlement, whatever its outcome and the forecasts, leaves every agent with at least the available
-- credits it had, and makes no agent known that was not.
pub settle_hypothesis-Gains :
    {F : Type 0} ⦃f : Float F⦄ (t h : Text) (outcome : ℤ) (by : Text) (at_ms : ℤ) (db db' : Db F)
    (b : Bool)
    → settle_hypothesis t h outcome by at_ms db ≡ ok (b, db')
    → Gains db db'
settle_hypothesis-Gains t h outcome by at_ms db db' b e =
    let (up, _) = settle_hypothesis-Settled t h outcome by at_ms db db' b e in up

-- If no agent has negative available credits, then none has after an outcome was handled.
pub handle_outcome_resolved-Solvent :
    {F : Type 0} ⦃f : Float F⦄ (t : Text) (m : Message OutcomeBody) (db db' : Db F)
    → Solvent db
    → handle_outcome_resolved t m db ≡ ok db'
    → Solvent db'
unfolding handle_outcome_resolved
handle_outcome_resolved-Solvent t m db db' solvent h =
    let by = get_or m.body.resolved_by (codes "operator") in
    let (r, hr, e) =
      bind-eq-ok (settle_hypothesis t m.body.hypothesis_id m.body.outcome by (emitted m) db) _ h in
    let up =
      settle_hypothesis-Gains t m.body.hypothesis_id m.body.outcome by (emitted m) db r.1 r.0 hr in
    subst Solvent (ok-inj e) (Gains-Solvent db r.1 up solvent)
