-- ===== src/Worker/Runner/Credits.antt =====
-- Settling and the agents' available credits.
use stakeroute.Prelude.{
  ◌≡◌, refl, ◌∙◌, subst, inl, inr, Bool, true, false, List, [], ◌∷◌, ℤ, pos, neg, ◌+ℤ◌, ◌≤ℤ◌,
  int_laws, Text, ok, bind-eq-ok, ok-inj, Option-cases, arith, if◌then◌else◌,
}
use stakeroute.Float.{Float}
use stakeroute.Core.Settlement.{settle_forecast, default_places}
use stakeroute.Core.Settlement.Forecast.{IsSettled, settle_forecast-IsSettled}
use stakeroute.Storage.Rows.{AgentRow, ForecastRow, SettlementRow, Db}
use stakeroute.Storage.Repository.{
  get_agent, insert_settlement, set_agent_reputation, adjust_agent_credits,
}
use stakeroute.Storage.Ledger.Gains.{
  Gains, Gains-refl, Gains-trans, Gains-same_agents, adjust-Gains, reputation-Gains,
}
use stakeroute.Worker.Runner.{
  reputation_after, settlement_row, settle_known, settle_one, settle_all,
}

-- A delta of at least minus the stake, with the stake, is a gain.
payout : (stake delta : ℤ) → neg stake ≤ℤ delta → pos 0 ≤ℤ (stake +ℤ delta)
payout stake delta h = omega int_laws

module _ {F : Type 0} where
  -- What a settlement's insert leaves alone.
  insert_settlement-frame :
      ⦃f : Float F⦄ (row : SettlementRow F) (db db' : Db F) (b : Bool)
      → insert_settlement row db ≡ ok (b, db')
      → (db'.agents ≡ db.agents) × (db'.outcomes ≡ db.outcomes)
  unfolding insert_settlement
  insert_settlement-frame row db db' b h = ground arith

  adjust-outcomes :
      (a b : Text) (d e : ℤ) (reputation : F) (db : Db F)
      → (adjust_agent_credits a d e (set_agent_reputation b reputation db)).outcomes ≡ db.outcomes
  unfolding adjust_agent_credits set_agent_reputation
  adjust-outcomes a b d e reputation db = refl

  -- No agent loses available credits, and the outcomes are as they were.
  abbrev pub Paid : Db F → Db F → Type 0
  Paid db db' = Gains db db' × (db'.outcomes ≡ db.outcomes)

module _ {F : Type 0} ⦃f : Float F⦄ (t : Text) (prior : F) (outcome at_ms : ℤ) where
  payout-Paid :
      (agent : AgentRow F) (row : ForecastRow F) (reputation : F) (delta : ℤ) (b : Bool)
      (db db1 db' : Db F)
      → neg row.stake ≤ℤ delta
      → db1.agents ≡ db.agents
      → db1.outcomes ≡ db.outcomes
      → (if b
          then adjust_agent_credits agent.id
              (row.stake +ℤ delta)
              (neg row.stake)
              (set_agent_reputation agent.id reputation db1)
          else db1)
        ≡ db'
      → Paid db db'
  payout-Paid agent row reputation delta true db db1 db' bound agents outcomes e =
      subst (Paid db) e (
        Gains-trans db db1 _ (Gains-same_agents db db1 agents) (
            Gains-trans db1 (set_agent_reputation agent.id reputation db1) _
              (reputation-Gains agent.id reputation db1)
              (adjust-Gains agent.id (row.stake +ℤ delta) (neg row.stake)
                (set_agent_reputation agent.id reputation db1) (payout row.stake delta bound))),
        adjust-outcomes agent.id agent.id (row.stake +ℤ delta) (neg row.stake) reputation db1
            ∙ outcomes,
      )
  payout-Paid agent row reputation delta false db db1 db' bound agents outcomes e =
      subst (Paid db) e (Gains-same_agents db db1 agents, outcomes)

  settle_known-Paid :
      (row : ForecastRow F) (agent : AgentRow F) (db db' : Db F)
      → settle_known t prior outcome at_ms row agent db ≡ ok db'
      → Paid db db'
  unfolding settle_known
  settle_known-Paid row agent db db' h =
      let (s, hs, h1) =
        bind-eq-ok (settle_forecast row.id row.stake prior row.probability outcome default_places) _
          h in
      let bound = IsSettled.bound (
        settle_forecast-IsSettled row.id row.stake prior row.probability outcome default_places s
          hs) in
      let (r, hr, e) =
        bind-eq-ok (insert_settlement (settlement_row t at_ms row agent s) db) _ h1 in
      let (agents, outcomes) =
        insert_settlement-frame (settlement_row t at_ms row agent s) db r.1 r.0 hr in
      payout-Paid agent row (reputation_after agent s) s.credit_delta r.0 db r.1 db' bound agents
        outcomes (ok-inj e)

  settle_one-Paid :
      (row : ForecastRow F) (db db' : Db F)
      → settle_one t prior outcome at_ms row db ≡ ok db'
      → Paid db db'
  unfolding settle_one
  settle_one-Paid row db db' h = elim (Option-cases (get_agent row.agent_id db)) [
    | inl unknown ↦ subst (Paid db) (ok-inj (ground arith)) (Gains-refl db, refl)
    | inr (agent, g) ↦ settle_known-Paid row agent db db' (ground arith)
  ]

  pub settle_all-Paid :
      (rows : List (ForecastRow F)) (db db' : Db F)
      → settle_all t prior outcome at_ms rows db ≡ ok db'
      → Paid db db'
  unfolding settle_all
  settle_all-Paid [] db db' h = subst (Paid db) (ok-inj h) (Gains-refl db, refl)
  settle_all-Paid (row ∷ rows) db db' h =
      let (db1, h1, h2) = bind-eq-ok (settle_one t prior outcome at_ms row db) _ h in
      let (up1, outcomes1) = settle_one-Paid row db db1 h1 in
      let (up2, outcomes2) = settle_all-Paid rows db1 db' h2 in
      (Gains-trans db db1 db' up1 up2, outcomes2 ∙ outcomes1)
