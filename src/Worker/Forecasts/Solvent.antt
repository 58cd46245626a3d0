-- ===== src/Worker/Forecasts/Solvent.antt =====
-- Forecasts and the agents' available credits.
use stakeroute.Prelude.{
  ◌≡◌, ◌≢◌, sym, ap, subst, ◌∙◌, ◌⊎◌, inl, inr, ◌&&◌, Option, none, some, ℤ, pos, neg, int_laws,
  ◌+ℤ◌, ◌≤ℤ◌, leb_ℤ, ltb_ℤ, Text, text_eq, text_eq_iff, ok, bind-eq-ok, ok-inj, Bool-cases,
  Option-cases, arith,
}
use stakeroute.Float.{Float}
use stakeroute.Storage.Rows.{
  AgentRow, Rejection, unknown_agent, outside_limits, exceeds_available, Db,
}
use stakeroute.Storage.Tables.{fetch, append_row}
use stakeroute.Storage.Repository.{
  get_agent, get_live_forecast, insert_rejected_forecast, ensure_evidence_cluster, upsert_forecast,
  adjust_agent_credits,
}
use stakeroute.Storage.Ledger.{get_agent-adjust_other}
use stakeroute.Storage.Ledger.Gains.{Solvent}
use stakeroute.Worker.Messages.{Message, ForecastBody}
use stakeroute.Worker.Forecasts.{
  stake_min, stake_max, locked_here, reject, rejected_row, new_forecast, release, accept,
  effective_available, handle_known, handle_forecast_created,
}
use stakeroute.Worker.Forecasts.Booked.{ensure_frame, upsert_frame}
use stakeroute.Worker.Forecasts.Accepted.{Rejected, Accepted, handle_forecast_created-effect}

text_cases : (b a : Text) → (b ≡ a) ⊎ (b ≢ a)
text_cases b a = elim (Bool-cases (text_eq b a)) [
  | inl e ↦ inl (ground (arith, text_eq_iff b a))
  | inr e ↦ inr (λ same. ground (arith, text_eq_iff b a))
]

module _ {F : Type 0} where
  same_agents :
      (b : Text) (db db' : Db F) → db'.agents ≡ db.agents → get_agent b db' ≡ get_agent b db
  unfolding get_agent
  same_agents b db db' same = ap (fetch (λ r. text_eq r.id b)) same

module _ {F : Type 0} ⦃f : Float F⦄ (t : Text) (m : Message (ForecastBody F)) where
  release-others :
      (b : Text) (db db' : Db F) (old : Option (Text × ℤ))
      → b ≢ m.body.agent_id
      → release t m old db ≡ ok db'
      → get_agent b db' ≡ get_agent b db
  unfolding release
  release-others b db db' none other h = ap (get_agent b) (sym (ok-inj h))
  release-others b db db' (some (i, stake)) other h =
      let same : adjust_agent_credits m.body.agent_id stake (neg stake) db ≡ db' = ground arith in
      ap (get_agent b) (sym same)
      ∙ get_agent-adjust_other m.body.agent_id b stake (neg stake) db other

  accept-others :
      (b : Text) (db db' : Db F)
      → b ≢ m.body.agent_id
      → accept t m db ≡ ok db'
      → get_agent b db' ≡ get_agent b db
  unfolding accept
  accept-others b db db' other h =
      let c = m.body.evidence_cluster_id in
      let (db1, h1, e1) = bind-eq-ok (ensure_evidence_cluster c t c db) _ h in
      let (r, h2, e2) = bind-eq-ok (upsert_forecast (new_forecast t m) db1) _ e1 in
      let (db3, h3, e3) = bind-eq-ok (release t m r.0 r.1) _ e2 in
      let (agents1, _) = ensure_frame c t c db db1 h1 in
      let (agents2, _, _) = upsert_frame (new_forecast t m) db1 r.1 r.0 h2 in
      ap (get_agent b) (sym (ok-inj e3))
      ∙ get_agent-adjust_other m.body.agent_id b (neg m.body.stake) m.body.stake db3 other
      ∙ release-others b r.1 db3 r.0 other h3
      ∙ same_agents b db r.1 (agents2 ∙ agents1)

  reject-others :
      (b : Text) (db db' : Db F) (reason : Rejection)
      → reject t m reason db ≡ ok db'
      → get_agent b db' ≡ get_agent b db
  unfolding insert_rejected_forecast
  reject-others b db db' reason h =
      let same : record db { rejected = append_row (rejected_row t m reason) db.rejected } ≡ db' =
        ground arith in
      same_agents b db db' (ap (λ (d : Db F). d.agents) (sym same))

  known-others :
      (agent : AgentRow F) (b : Text) (db db' : Db F)
      → b ≢ m.body.agent_id
      → handle_known t m agent db ≡ ok db'
      → get_agent b db' ≡ get_agent b db
  unfolding handle_known
  known-others agent b db db' other h =
      let s = m.body.stake in
      let eff = effective_available t m agent db in
      elim (Bool-cases (leb_ℤ stake_min s && leb_ℤ s stake_max)) [
        | inl within ↦ elim (Bool-cases (ltb_ℤ eff s)) [
          | inl short ↦ reject-others b db db' (exceeds_available s eff) (ground arith)
          | inr enough ↦ accept-others b db db' other (ground arith)
        ]
        | inr outside ↦ reject-others b db db' (outside_limits s) (ground arith)
      ]

  -- A forecast, accepted or rejected, leaves the row of every other agent as it was.
  pub handle_forecast_created-others :
      (b : Text) (db db' : Db F)
      → b ≢ m.body.agent_id
      → handle_forecast_created t m db ≡ ok db'
      → get_agent b db' ≡ get_agent b db
  unfolding handle_forecast_created
  handle_forecast_created-others b db db' other h =
      elim (Option-cases (get_agent m.body.agent_id db)) [
        | inl unknown ↦ reject-others b db db' unknown_agent (ground arith)
        | inr (agent, g) ↦ known-others agent b db db' other (ground arith)
      ]

  own :
      (db db' : Db F)
      → Solvent db
      → Rejected t m db db' ⊎ Accepted t m db db'
      → (r : AgentRow F) → get_agent m.body.agent_id db' ≡ some r
      → pos 0 ≤ℤ r.available_credits
  own db db' solvent (inl (reason, why, same)) r h =
      solvent m.body.agent_id r
        (sym (same_agents m.body.agent_id db db' (ap (λ (d : Db F). d.agents) same)) ∙ h)
  own db db' solvent (inr (agent, g, low, high, enough, (live, row, kept, ranks))) r h =
      let prev = locked_here (get_live_forecast m.body.hypothesis_id m.body.agent_id db) in
      let same : agent.available_credits +ℤ prev +ℤ neg m.body.stake ≡ r.available_credits = cc in
      subst (λ z. pos 0 ≤ℤ z) same (omega (int_laws, enough))

  -- If no agent has negative available credits, then none has after a forecast was handled.
  pub handle_forecast_created-Solvent :
      (db db' : Db F) → Solvent db → handle_forecast_created t m db ≡ ok db' → Solvent db'
  handle_forecast_created-Solvent db db' solvent h b r found = elim (text_cases b m.body.agent_id) [
    | inl same ↦
        own db db' solvent (handle_forecast_created-effect t m db db' h) r
          (subst (λ i. get_agent i db' ≡ some r) same found)
    | inr other ↦ solvent b r (sym (handle_forecast_created-others b db db' other h) ∙ found)
  ]
