-- ===== src/Worker/Consume/Handlers.antt =====
-- The handlers and the table of events.
use stakeroute.Prelude.{
  ◌≡◌, refl, sym, ap, ◌∙◌, inl, inr, Option, none, some, ℤ, neg, Text, ok, bind-eq-ok, ok-inj,
  Option-cases, Bool-cases, leb_ℤ, ltb_ℤ, ◌&&◌, arith,
}
use stakeroute.Float.{Float}
use stakeroute.Storage.Rows.{
  AgentRow, ForecastRow, Rejection, unknown_agent, outside_limits, exceeds_available, Db,
}
use stakeroute.Storage.Repository.{
  get_agent, get_live_forecast, insert_rejected_forecast, ensure_evidence_cluster, delete_forecast,
  insert_forecast, replace_forecast, upsert_forecast, adjust_agent_credits,
}
use stakeroute.Worker.Messages.{Message, ForecastBody}
use stakeroute.Worker.Forecasts.{
  stake_min, stake_max, reject, new_forecast, release, accept, effective_available, handle_known,
  handle_forecast_created,
}
use stakeroute.Worker.Consume.{handle_signal}
use stakeroute.Worker.Consume.Redelivery.{KeepsEvents}

pub handle_signal-KeepsEvents : {F B : Type 0} → KeepsEvents {F = F} {B = B} handle_signal
unfolding handle_signal
handle_signal-KeepsEvents t m db db' h = ap (λ (d : Db _). d.events) (sym (ok-inj h))

module _ {F : Type 0} where
  ensure-events :
      (c t l : Text) (db db' : Db F)
      → ensure_evidence_cluster c t l db ≡ ok db'
      → db'.events ≡ db.events
  unfolding ensure_evidence_cluster
  ensure-events c t l db db' h = ground arith

  insert_forecast-events :
      ⦃f : Float F⦄ (row : ForecastRow F) (db db' : Db F)
      → insert_forecast row db ≡ ok db'
      → db'.events ≡ db.events
  unfolding insert_forecast
  insert_forecast-events row db db' h = ground arith

  delete_forecast-events :
      (i : Text) (db db' : Db F) → delete_forecast i db ≡ ok db' → db'.events ≡ db.events
  unfolding delete_forecast
  delete_forecast-events i db db' h = ground arith

  replace-events :
      ⦃f : Float F⦄ (live : Option (ForecastRow F)) (row : ForecastRow F) (db : Db F)
      (r : Option (Text × ℤ) × Db F)
      → replace_forecast live row db ≡ ok r
      → r.1.events ≡ db.events
  unfolding replace_forecast
  replace-events none row db r h =
      let (db1, h1, e) = bind-eq-ok (insert_forecast row db) _ h in
      ground (arith, insert_forecast-events row db db1 h1)
  replace-events (some old) row db r h =
      let (db1, h1, h') = bind-eq-ok (delete_forecast old.id db) _ h in
      let (db2, h2, e) = bind-eq-ok (insert_forecast row db1) _ h' in
      ground (arith, delete_forecast-events old.id db db1 h1, insert_forecast-events row db1 db2 h2)

  adjust-events :
      (a : Text) (d e : ℤ) (db : Db F) → (adjust_agent_credits a d e db).events ≡ db.events
  unfolding adjust_agent_credits
  adjust-events a d e db = refl

module _ {F : Type 0} ⦃f : Float F⦄ (t : Text) (m : Message (ForecastBody F)) (db db' : Db F) where
  reject-events : (reason : Rejection) → reject t m reason db ≡ ok db' → db'.events ≡ db.events
  unfolding insert_rejected_forecast
  reject-events reason h = ground arith

  release-events : (old : Option (Text × ℤ)) → release t m old db ≡ ok db' → db'.events ≡ db.events
  unfolding release
  release-events none h = ground arith
  release-events (some (i, stake)) h =
      ground (arith, adjust-events m.body.agent_id stake (neg stake) db)

module _ {F : Type 0} ⦃f : Float F⦄ (t : Text) (m : Message (ForecastBody F)) (db db' : Db F) where
  accept-events : accept t m db ≡ ok db' → db'.events ≡ db.events
  unfolding accept upsert_forecast
  accept-events h =
      let c = m.body.evidence_cluster_id in
      let (db1, h1, e1) = bind-eq-ok (ensure_evidence_cluster c t c db) _ h in
      let live = get_live_forecast m.body.hypothesis_id m.body.agent_id db1 in
      let (r, h2, e2) = bind-eq-ok (replace_forecast live (new_forecast t m) db1) _ e1 in
      let (db3, h3, e3) = bind-eq-ok (release t m r.0 r.1) _ e2 in
      ap (λ (d : Db F). d.events) (sym (ok-inj e3))
      ∙ adjust-events m.body.agent_id (neg m.body.stake) m.body.stake db3
      ∙ release-events t m r.1 db3 r.0 h3
      ∙ replace-events live (new_forecast t m) db1 r h2
      ∙ ensure-events c t c db db1 h1

  known-events : (agent : AgentRow F) → handle_known t m agent db ≡ ok db' → db'.events ≡ db.events
  unfolding handle_known
  known-events agent h =
      let s = m.body.stake in
      let eff = effective_available t m agent db in
      elim (Bool-cases (leb_ℤ stake_min s && leb_ℤ s stake_max)) [
        | inl within ↦ elim (Bool-cases (ltb_ℤ eff s)) [
          | inl short ↦ reject-events t m db db' (exceeds_available s eff) (ground arith)
          | inr enough ↦ accept-events (ground arith)
        ]
        | inr outside ↦ reject-events t m db db' (outside_limits s) (ground arith)
      ]

-- A forecast's handler changes no event.
pub handle_forecast_created-KeepsEvents :
    {F : Type 0} ⦃f : Float F⦄ → KeepsEvents {F = F} handle_forecast_created
unfolding handle_forecast_created
handle_forecast_created-KeepsEvents t m db db' h =
    elim (Option-cases (get_agent m.body.agent_id db)) [
      | inl unknown ↦ reject-events t m db db' unknown_agent (ground arith)
      | inr (agent, g) ↦ known-events t m db db' agent (ground arith)
    ]
