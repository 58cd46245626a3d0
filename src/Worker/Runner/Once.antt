-- ===== src/Worker/Runner/Once.antt =====
-- What the settlement of one forecast does.
use stakeroute.Prelude.{
  ◌≡◌, refl, ◌∙◌, ap, sym, subst, inl, inr, Bool, true, false, some, ℤ, neg, ◌+ℤ◌, Text, text_eq,
  text_eq_iff, ok, bind-eq-ok, ok-inj, Option-cases, arith, if◌then◌else◌,
}
use stakeroute.Float.{Float}
use stakeroute.Core.Types.{Settlement}
use stakeroute.Core.Settlement.{settle_forecast, default_places}
use stakeroute.Core.Settlement.Forecast.{IsSettled, settle_forecast-IsSettled}
use stakeroute.Storage.Rows.{AgentRow, ForecastRow, SettlementRow, Db}
use stakeroute.Storage.Tables.{exists, append_row, fetch, fetch-passes, fetch-update}
use stakeroute.Storage.Repository.{
  get_agent, insert_settlement, move_credits, set_agent_reputation, adjust_agent_credits,
}
use stakeroute.Storage.Ledger.{get_agent-adjust}
use stakeroute.Worker.Runner.{reputation_after, settlement_row, settle_known, settle_one}

module _ {F : Type 0} where
  abbrev pub has_settlement : Text → Db F → Bool
  has_settlement i db = exists (λ (r : SettlementRow F). text_eq r.forecast_id i) db.settlements

  get_agent-id : (a : Text) (db : Db F) (r : AgentRow F) → get_agent a db ≡ some r → r.id ≡ a
  unfolding get_agent
  get_agent-id a db r g =
      ground (arith, fetch-passes (λ r. text_eq r.id a) db.agents r g, text_eq_iff r.id a)

  same_agents :
      (a : Text) (db db1 : Db F) {r : AgentRow F}
      → db1.agents ≡ db.agents
      → get_agent a db ≡ some r
      → get_agent a db1 ≡ some r
  unfolding get_agent
  same_agents a db db1 same g = ap (fetch (λ r. text_eq r.id a)) same ∙ g

  get_agent-reputed :
      (a : Text) (reputation : F) (db : Db F) (r : AgentRow F)
      → get_agent a db ≡ some r
      → get_agent a (set_agent_reputation a reputation db)
        ≡ some (record r { reputation = reputation })
  unfolding get_agent set_agent_reputation
  get_agent-reputed a reputation db r g = ground (
    arith,
    fetch-update (λ r. text_eq r.id a) (λ r. text_eq r.id a)
        (λ r. record r { reputation = reputation }) db.agents (λ x. refl),
    fetch-passes (λ r. text_eq r.id a) db.agents r g,
  )

  -- the two updates of an agent
  paid :
      (a : Text) (reputation : F) (d e : ℤ) (db : Db F) (r : AgentRow F)
      → get_agent a db ≡ some r
      → get_agent a (adjust_agent_credits a d e (set_agent_reputation a reputation db))
        ≡ some (move_credits d e (record r { reputation = reputation }))
  paid a reputation d e db r g =
      get_agent-adjust a d e (set_agent_reputation a reputation db)
        (get_agent-reputed a reputation db r g)

  insert_settlement-new :
      ⦃f : Float F⦄ (row : SettlementRow F) (db db' : Db F) (b : Bool)
      → has_settlement row.forecast_id db ≡ false
      → insert_settlement row db ≡ ok (b, db')
      → (b ≡ true) × (db'.agents ≡ db.agents) × (db'.settlements ≡ append_row row db.settlements)
  unfolding insert_settlement
  insert_settlement-new row db db' b new h = ground arith

  insert_settlement-old :
      ⦃f : Float F⦄ (row : SettlementRow F) (db db' : Db F) (b : Bool)
      → has_settlement row.forecast_id db ≡ true
      → insert_settlement row db ≡ ok (b, db')
      → (b ≡ false) × (db' ≡ db)
  unfolding insert_settlement
  insert_settlement-old row db db' b new h = (ground arith, ground arith)

  adjust-settlements :
      (a : Text) (d e : ℤ) (reputation : F) (db : Db F)
      → (adjust_agent_credits a d e (set_agent_reputation a reputation db)).settlements
        ≡ db.settlements
  unfolding adjust_agent_credits set_agent_reputation
  adjust-settlements a d e reputation db = refl

module _ {F : Type 0} ⦃f : Float F⦄ (t : Text) (prior : F) (outcome at_ms : ℤ)
    (row : ForecastRow F) where
  -- The agent's row and the table of settlements after a settlement.
  abbrev pub PaidOut : AgentRow F → Settlement F → Db F → Db F → Type 0
  PaidOut agent s db db' =
      (get_agent row.agent_id db'
        ≡ some (record agent {
          reputation = reputation_after agent s;
          available_credits = agent.available_credits +ℤ (row.stake +ℤ s.credit_delta);
          staked_credits = agent.staked_credits +ℤ neg row.stake;
        }))
      × (db'.settlements ≡ append_row (settlement_row t at_ms row agent s) db.settlements)

  -- the last step of the loop's body
  abbrev settled_db : AgentRow F → Settlement F → Bool → Db F → Db F
  settled_db agent s inserted db =
      if inserted
      then adjust_agent_credits agent.id (row.stake +ℤ s.credit_delta) (neg row.stake)
          (set_agent_reputation agent.id (reputation_after agent s) db)
      else db

  payout-PaidOut :
      (agent : AgentRow F) (s : Settlement F) (db db1 db' : Db F) (b : Bool)
      → get_agent row.agent_id db ≡ some agent
      → b ≡ true
      → db1.agents ≡ db.agents
      → db1.settlements ≡ append_row (settlement_row t at_ms row agent s) db.settlements
      → settled_db agent s b db1 ≡ db'
      → PaidOut agent s db db'
  payout-PaidOut agent s db db1 db' b g inserted agents settlements e =
      let a = agent.id in
      let d = row.stake +ℤ s.credit_delta in
      let rep = reputation_after agent s in
      let id = get_agent-id row.agent_id db agent g in
      let g1 : get_agent row.agent_id db1 ≡ some agent = same_agents row.agent_id db db1 agents g in
      let now = adjust_agent_credits a d (neg row.stake) (set_agent_reputation a rep db1) in
      subst (PaidOut agent s db) (ground arith) (
        subst
            (λ i.
              get_agent i now
              ≡ some (move_credits d (neg row.stake) (record agent { reputation = rep })))
            id
            (paid a rep d (neg row.stake) db1 agent
              (subst (λ i. get_agent i db1 ≡ some agent) (sym id) g1)),
        adjust-settlements a d (neg row.stake) rep db1 ∙ settlements,
      )

  unpaid :
      (agent : AgentRow F) (s : Settlement F) (db db1 db' : Db F) (b : Bool)
      → b ≡ false
      → db1 ≡ db
      → settled_db agent s b db1 ≡ db'
      → db' ≡ db
  unpaid agent s db db1 db' b skipped same e = ground arith

  settle_known-new :
      (agent : AgentRow F) (db db' : Db F)
      → get_agent row.agent_id db ≡ some agent
      → has_settlement row.id db ≡ false
      → settle_known t prior outcome at_ms row agent db ≡ ok db'
      → (s : Settlement F) × IsSettled row.id row.stake prior row.probability outcome default_places
          s
        × PaidOut agent s db db'
  unfolding settle_known
  settle_known-new agent db db' g new h =
      let (s, hs, h1) =
        bind-eq-ok (settle_forecast row.id row.stake prior row.probability outcome default_places) _
          h in
      let (r, hr, e) =
        bind-eq-ok (insert_settlement (settlement_row t at_ms row agent s) db) _ h1 in
      let (inserted, agents, settlements) =
        insert_settlement-new (settlement_row t at_ms row agent s) db r.1 r.0 new hr in
      (
        s,
        settle_forecast-IsSettled row.id row.stake prior row.probability outcome default_places s
            hs,
        payout-PaidOut agent s db r.1 db' r.0 g inserted agents settlements (ok-inj e),
      )

  -- A forecast that has not been settled before, by an agent who is known: the settlement is the one
  -- that `settle_forecast` computes; the stake goes back to the available credits with the delta,
  -- and out of the staked ones; the reputation is updated with the settlement's score and
  -- improvement; and one row of settlements records it all.
  pub settle_one-new :
      (agent : AgentRow F) (db db' : Db F)
      → get_agent row.agent_id db ≡ some agent
      → has_settlement row.id db ≡ false
      → settle_one t prior outcome at_ms row db ≡ ok db'
      → (s : Settlement F) × IsSettled row.id row.stake prior row.probability outcome default_places
          s
        × PaidOut agent s db db'
  unfolding settle_one
  settle_one-new agent db db' g new h = settle_known-new agent db db' g new (ground arith)

  settle_known-old :
      (agent : AgentRow F) (db db' : Db F)
      → has_settlement row.id db ≡ true
      → settle_known t prior outcome at_ms row agent db ≡ ok db'
      → db' ≡ db
  unfolding settle_known
  settle_known-old agent db db' old h =
      let (s, hs, h1) =
        bind-eq-ok (settle_forecast row.id row.stake prior row.probability outcome default_places) _
          h in
      let (r, hr, e) =
        bind-eq-ok (insert_settlement (settlement_row t at_ms row agent s) db) _ h1 in
      let (skipped, same) =
        insert_settlement-old (settlement_row t at_ms row agent s) db r.1 r.0 old hr in
      unpaid agent s db r.1 db' r.0 skipped same (ok-inj e)

  -- A forecast that has a settlement is not settled again: nothing changes.
  pub settle_one-old :
      (db db' : Db F)
      → has_settlement row.id db ≡ true
      → settle_one t prior outcome at_ms row db ≡ ok db'
      → db' ≡ db
  unfolding settle_one
  settle_one-old db db' old h = elim (Option-cases (get_agent row.agent_id db)) [
    | inl unknown ↦ ground arith
    | inr (agent, g) ↦ settle_known-old agent db db' old (ground arith)
  ]
