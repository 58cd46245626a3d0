-- ===== src/Worker/Forecasts/Booked.antt =====
-- An accepted forecast on the books of `handle_forecast_created`.
use stakeroute.Prelude.{
  ◌≡◌, refl, sym, ap, ◌∙◌, subst, Option, none, some, map, ℤ, pos, neg, ◌+ℤ◌, int_laws, Text,
  text_eq, text_eq_refl, ok, bind-eq-ok, ok-inj, arith,
}
use stakeroute.Float.{Float}
use stakeroute.Storage.Rows.{AgentRow, ForecastRow, Db}
use stakeroute.Storage.Tables.{fetch, fetch-append_row}
use stakeroute.Storage.Repository.{
  get_agent, get_live_forecast, is_live, ensure_evidence_cluster, delete_forecast, insert_forecast,
  replace_forecast, upsert_forecast, move_credits, adjust_agent_credits,
}
use stakeroute.Storage.Ledger.{
  holding, holdings, holdings-shift, holdings-shift_back, standings, standings-adjust,
  get_agent-adjust,
}
use stakeroute.Worker.Messages.{Message, ForecastBody}
use stakeroute.Worker.Forecasts.{locked_here, new_forecast, release, accept}

module _ {F : Type 0} where
  pub ensure_frame :
      (c t l : Text) (db db' : Db F)
      → ensure_evidence_cluster c t l db ≡ ok db'
      → (db'.agents ≡ db.agents) × (db'.forecasts ≡ db.forecasts)
  unfolding ensure_evidence_cluster
  ensure_frame c t l db db' h = ground arith

  insert_frame :
      ⦃f : Float F⦄ (row : ForecastRow F) (db db' : Db F)
      → insert_forecast row db ≡ ok db'
      → (db'.agents ≡ db.agents) × (get_live_forecast row.hypothesis_id row.agent_id db' ≡ some row)
  unfolding insert_forecast get_live_forecast
  insert_frame row db db' h = ground (
    arith,
    fetch-append_row (is_live row.hypothesis_id row.agent_id) row db.forecasts,
    text_eq_refl row.hypothesis_id,
    text_eq_refl row.agent_id,
  )

  delete_frame : (i : Text) (db db' : Db F) → delete_forecast i db ≡ ok db' → db'.agents ≡ db.agents
  unfolding delete_forecast
  delete_frame i db db' h = ground arith

  abbrev pub id_and_stake : Option (ForecastRow F) → Option (Text × ℤ)
  id_and_stake none = none
  id_and_stake (some r) = some (r.id, r.stake)

  replace_frame :
      ⦃f : Float F⦄ (live : Option (ForecastRow F)) (row : ForecastRow F) (db db' : Db F)
      (old : Option (Text × ℤ))
      → replace_forecast live row db ≡ ok (old, db')
      → (db'.agents ≡ db.agents)
        × (get_live_forecast row.hypothesis_id row.agent_id db' ≡ some row)
        × (old ≡ id_and_stake live)
  unfolding replace_forecast
  replace_frame none row db db' old h =
      let (db1, h1, e) = bind-eq-ok (insert_forecast row db) _ h in
      let (agents, live) = insert_frame row db db1 h1 in ground (arith, agents, live)
  replace_frame (some r) row db db' old h =
      let (db1, h1, h') = bind-eq-ok (delete_forecast r.id db) _ h in
      let (db2, h2, e) = bind-eq-ok (insert_forecast row db1) _ h' in
      let (agents, live) = insert_frame row db1 db2 h2 in
      ground (arith, delete_frame r.id db db1 h1, agents, live)

  -- The new forecast replaces the agent's live one on the hypothesis, and what it replaces is
  -- reported.
  pub upsert_frame :
      ⦃f : Float F⦄ (row : ForecastRow F) (db db' : Db F) (old : Option (Text × ℤ))
      → upsert_forecast row db ≡ ok (old, db')
      → (db'.agents ≡ db.agents)
        × (get_live_forecast row.hypothesis_id row.agent_id db' ≡ some row)
        × (old ≡ id_and_stake (get_live_forecast row.hypothesis_id row.agent_id db))
  unfolding upsert_forecast
  upsert_frame row db db' old h =
      replace_frame (get_live_forecast row.hypothesis_id row.agent_id db) row db db' old h

  adjust-forecasts :
      (a : Text) (d e : ℤ) (db : Db F) → (adjust_agent_credits a d e db).forecasts ≡ db.forecasts
  unfolding adjust_agent_credits
  adjust-forecasts a d e db = refl

module _ {F : Type 0} ⦃f : Float F⦄ (t : Text) (m : Message (ForecastBody F)) where
  abbrev pub h : Text
  h = m.body.hypothesis_id

  abbrev pub a : Text
  a = m.body.agent_id

  -- The credits and the live forecast after an accepted forecast.
  abbrev pub Booked : AgentRow F → Db F → Db F → Type 0
  Booked agent db db' =
      let prev = locked_here (get_live_forecast h a db) in
      (get_live_forecast h a db' ≡ some (new_forecast t m))
      × (get_agent a db'
          ≡ some (record agent {
            available_credits = agent.available_credits +ℤ prev +ℤ neg m.body.stake;
            staked_credits = agent.staked_credits +ℤ neg prev +ℤ m.body.stake;
          }))
      × (holdings db' ≡ holdings db)
      × (standings db' ≡ standings db)

  same_live :
      (db db' : Db F)
      → db.forecasts ≡ db'.forecasts
      → get_live_forecast h a db ≡ get_live_forecast h a db'
  unfolding get_live_forecast
  same_live db db' e = ap (fetch (is_live h a)) e

  same_agent : (db db' : Db F) → db.agents ≡ db'.agents → get_agent a db ≡ get_agent a db'
  unfolding get_agent
  same_agent db db' e = ap (fetch (λ r. text_eq r.id a)) e

  release_frame :
      (old : Option (ForecastRow F)) (db db' : Db F) {agent : AgentRow F}
      → release t m (id_and_stake old) db ≡ ok db'
      → get_agent a db ≡ some agent
      → (db'.forecasts ≡ db.forecasts)
        × (get_agent a db'
            ≡ some (record agent {
              available_credits = agent.available_credits +ℤ locked_here old;
              staked_credits = agent.staked_credits +ℤ neg (locked_here old);
            }))
        × (holdings db' ≡ holdings db)
        × (standings db' ≡ standings db)
  unfolding release
  release_frame none db db' {agent} e g =
      let left : agent.available_credits ≡ agent.available_credits +ℤ pos 0 = omega int_laws in
      let right : agent.staked_credits ≡ agent.staked_credits +ℤ neg (pos 0) = omega int_laws in
      let same : db ≡ db' = cc in
      (
        cc,
        ap (get_agent a) (sym same)
            ∙ g
            ∙ (λ i. some (record agent { available_credits = left i; staked_credits = right i })),
        cc,
        cc,
      )
  release_frame (some r) db db' {agent} e g =
      let after = adjust_agent_credits a r.stake (neg r.stake) db in
      let same : after ≡ db' = ground arith in
      subst
        (λ (d : Db F).
          (d.forecasts ≡ db.forecasts)
          × (get_agent a d ≡ some (move_credits r.stake (neg r.stake) agent))
          × (holdings d ≡ holdings db)
          × (standings d ≡ standings db))
        same
        (
          adjust-forecasts a r.stake (neg r.stake) db,
          get_agent-adjust a r.stake (neg r.stake) db g,
          holdings-shift a r.stake db,
          standings-adjust a r.stake (neg r.stake) db,
        )

  -- The stake is moved once the previous one is back.
  stake_frame :
      (agent : AgentRow F) (db3 db db' : Db F) (prev : ℤ)
      → adjust_agent_credits a (neg m.body.stake) m.body.stake db3 ≡ db'
      → get_agent a db3
        ≡ some (record agent {
          available_credits = agent.available_credits +ℤ prev;
          staked_credits = agent.staked_credits +ℤ neg prev;
        })
      → holdings db3 ≡ holdings db
      → standings db3 ≡ standings db
      → (db'.forecasts ≡ db3.forecasts)
        × (get_agent a db'
            ≡ some (record agent {
              available_credits = agent.available_credits +ℤ prev +ℤ neg m.body.stake;
              staked_credits = agent.staked_credits +ℤ neg prev +ℤ m.body.stake;
            }))
        × (holdings db' ≡ holdings db)
        × (standings db' ≡ standings db)
  stake_frame agent db3 db db' prev e g same_holdings same_standings =
      subst
        (λ (d : Db F).
          (d.forecasts ≡ db3.forecasts)
          × (get_agent a d
              ≡ some (record agent {
                available_credits = agent.available_credits +ℤ prev +ℤ neg m.body.stake;
                staked_credits = agent.staked_credits +ℤ neg prev +ℤ m.body.stake;
              }))
          × (holdings d ≡ holdings db)
          × (standings d ≡ standings db))
        e
        (
          adjust-forecasts a (neg m.body.stake) m.body.stake db3,
          get_agent-adjust a (neg m.body.stake) m.body.stake db3 g,
          holdings-shift_back a m.body.stake db3 ∙ same_holdings,
          standings-adjust a (neg m.body.stake) m.body.stake db3 ∙ same_standings,
        )

  pub accept-Booked :
      (agent : AgentRow F) (db db' : Db F)
      → get_agent a db ≡ some agent
      → accept t m db ≡ ok db'
      → Booked agent db db'
  unfolding accept
  accept-Booked agent db db' g e =
      let c = m.body.evidence_cluster_id in
      let live = get_live_forecast h a db in
      let (db1, h1, e1) = bind-eq-ok (ensure_evidence_cluster c t c db) _ e in
      let (r, h2, e2) = bind-eq-ok (upsert_forecast (new_forecast t m) db1) _ e1 in
      let (db3, h3, e3) = bind-eq-ok (release t m r.0 r.1) _ e2 in
      let (agents1, forecasts1) = ensure_frame c t c db db1 h1 in
      let (agents2, booked, old) = upsert_frame (new_forecast t m) db1 r.1 r.0 h2 in
      let same = agents2 ∙ agents1 in
      let old_live = old ∙ ap id_and_stake (same_live db1 db forecasts1) in
      let (forecasts3, agent3, holdings3, standings3) =
        release_frame live r.1 db3 (subst (λ o. release t m o r.1 ≡ ok db3) old_live h3)
          (same_agent r.1 db same ∙ g) in
      let (forecasts4, agent4, holdings4, standings4) =
        stake_frame agent db3 db db' (locked_here live) (ok-inj e3) agent3
          (holdings3 ∙ ap (map holding) same)
          (standings3 ∙ ap (map (λ r. (r.id, r.reputation))) same) in
      (same_live db' r.1 (forecasts4 ∙ forecasts3) ∙ booked, agent4, holdings4, standings4)
