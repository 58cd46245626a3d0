-- ===== src/Worker/Forecasts/Total.antt =====
-- Forecasts that are handled without an exception: the handler of src/stakeroute/worker/main.py.
use stakeroute.Prelude.{
  ◌≡◌, inl, inr, true, false, ◌&&◌, none, some, List, neg, leb_ℤ, ltb_ℤ, Text, text_eq,
  text_eq_refl, Result, ok, Bool-cases, Option-cases, arith,
}
use stakeroute.Float.{Float, IsNumber}
use stakeroute.Core.Types.{clamp_probability}
use stakeroute.Storage.Rows.{
  AgentRow, ClusterRow, ForecastRow, Rejection, unknown_agent, outside_limits, exceeds_available,
  Db,
}
use stakeroute.Storage.Tables.{exists, append_row, exists-append_row_self, fetch-exists, fetch-none}
use stakeroute.Storage.Repository.{
  has_tenant, has_agent, has_hypothesis, has_cluster, has_forecast, fits_64, is_live, get_agent,
  get_live_forecast, insert_rejected_forecast, ensure_evidence_cluster, insert_forecast,
  replace_forecast, upsert_forecast, adjust_agent_credits,
}
use stakeroute.Worker.Messages.{Message, ForecastBody}
use stakeroute.Worker.Forecasts.{
  stake_min, stake_max, forecast_key, reject, rejected_row, new_forecast, release, accept,
  effective_available, handle_known, handle_forecast_created,
}

module _ {F : Type 0} where
  -- The cluster is there afterwards, and the other tables are as they were.
  ensure-ok :
      (c t : Text) (db : Db F)
      → has_tenant db t ≡ true
      → (clusters : List ClusterRow) × (ensure_evidence_cluster c t c db
          ≡ ok (record db { clusters = clusters }))
        × (exists (λ r. text_eq r.id c) clusters ≡ true)
  unfolding ensure_evidence_cluster
  ensure-ok c t db known = elim (Bool-cases (has_cluster db c)) [
    | inl there ↦ (db.clusters, ground arith, there)
    | inr missing ↦
        let row : ClusterRow = record { id = c; tenant_id = t; label = c; member_count = 0 } in
        (
          append_row row db.clusters,
          ground arith,
          exists-append_row_self (λ r. text_eq r.id c) row db.clusters (text_eq_refl c),
        )
  ]

  insert-ok :
      ⦃f : Float F⦄ (row : ForecastRow F) (db : Db F)
      → IsNumber row.probability
      → has_forecast db row.id ≡ false
      → exists (is_live row.hypothesis_id row.agent_id) db.forecasts ≡ false
      → has_tenant db row.tenant_id ≡ true
      → has_hypothesis db row.hypothesis_id ≡ true
      → has_agent db row.agent_id ≡ true
      → has_cluster db row.evidence_cluster_id ≡ true
      → insert_forecast row db ≡ ok (record db { forecasts = append_row row db.forecasts })
  unfolding insert_forecast
  insert-ok row db h0 h1 h2 h3 h4 h5 h6 = ground arith

  upsert-ok :
      ⦃f : Float F⦄ (row : ForecastRow F) (db : Db F)
      → get_live_forecast row.hypothesis_id row.agent_id db ≡ none
      → IsNumber row.probability
      → has_forecast db row.id ≡ false
      → has_tenant db row.tenant_id ≡ true
      → has_hypothesis db row.hypothesis_id ≡ true
      → has_agent db row.agent_id ≡ true
      → has_cluster db row.evidence_cluster_id ≡ true
      → upsert_forecast row db ≡ ok (none, record db { forecasts = append_row row db.forecasts })
  unfolding upsert_forecast replace_forecast get_live_forecast
  upsert-ok row db h1 h0 h2 h3 h4 h5 h6 = ground (
    arith,
    fetch-none (is_live row.hypothesis_id row.agent_id) db.forecasts,
    insert-ok row db h0 h2 (fetch-none (is_live row.hypothesis_id row.agent_id) db.forecasts h1) h3
        h4 h5 h6,
  )

module _ {F : Type 0} ⦃f : Float F⦄ (t : Text) (m : Message (ForecastBody F)) (db : Db F)
    (number : IsNumber (clamp_probability m.body.probability))
    (fits : fits_64 m.body.stake ≡ true) where
  abbrev Returns : Result (Db F) → Type 0
  Returns r = (db' : Db F) × (r ≡ ok db')

  reject-ok : (reason : Rejection) → has_tenant db t ≡ true → Returns (reject t m reason db)
  unfolding insert_rejected_forecast
  reject-ok reason known =
      (record db { rejected = append_row (rejected_row t m reason) db.rejected }, ground arith)

  accept-ok :
      has_tenant db t ≡ true
      → has_hypothesis db m.body.hypothesis_id ≡ true
      → has_agent db m.body.agent_id ≡ true
      → get_live_forecast m.body.hypothesis_id m.body.agent_id db ≡ none
      → has_forecast db (forecast_key m.body.hypothesis_id m.body.agent_id) ≡ false
      → Returns (accept t m db)
  unfolding accept release get_live_forecast
  accept-ok h1 h2 h3 h4 h5 =
      let c = m.body.evidence_cluster_id in
      let (clusters, made, there) = ensure-ok c t db h1 in
      let db1 = record db { clusters = clusters } in
      let db2 = record db1 { forecasts = append_row (new_forecast t m) db1.forecasts } in
      (
        adjust_agent_credits m.body.agent_id (neg m.body.stake) m.body.stake db2,
        ground (arith, made, upsert-ok (new_forecast t m) db1 h4 number h5 h1 h2 h3 there),
      )

  -- A known agent's first forecast on a hypothesis that is there raises nothing.
  handle_known-ok :
      (agent : AgentRow F)
      → get_agent m.body.agent_id db ≡ some agent
      → has_tenant db t ≡ true
      → has_hypothesis db m.body.hypothesis_id ≡ true
      → get_live_forecast m.body.hypothesis_id m.body.agent_id db ≡ none
      → has_forecast db (forecast_key m.body.hypothesis_id m.body.agent_id) ≡ false
      → Returns (handle_known t m agent db)
  unfolding handle_known get_agent
  handle_known-ok agent g h1 h2 h4 h5 =
      let s = m.body.stake in
      let eff = effective_available t m agent db in
      elim (Bool-cases (leb_ℤ stake_min s && leb_ℤ s stake_max)) [
        | inl within ↦ elim (Bool-cases (ltb_ℤ eff s)) [
          | inl short ↦
              let (db', e) = reject-ok (exceeds_available s eff) h1 in (db', ground (arith, e))
          | inr enough ↦
              let known = fetch-exists (λ r. text_eq r.id m.body.agent_id) db.agents agent g in
              let (db', e) = accept-ok h1 h2 known h4 h5 in (db', ground (arith, e))
        ]
        | inr outside ↦ let (db', e) = reject-ok (outside_limits s) h1 in (db', ground (arith, e))
      ]

  -- If the clamped probability is not a NaN, the stake fits into 64 bits, the tenant and the
  -- hypothesis are there, the agent has no forecast on the hypothesis yet and the new forecast's id
  -- is not taken, then the handler raises nothing: it records a rejection or accepts the forecast.
  pub handle_forecast_created-returns :
      has_tenant db t ≡ true
      → has_hypothesis db m.body.hypothesis_id ≡ true
      → get_live_forecast m.body.hypothesis_id m.body.agent_id db ≡ none
      → has_forecast db (forecast_key m.body.hypothesis_id m.body.agent_id) ≡ false
      → (db' : Db F) × (handle_forecast_created t m db ≡ ok db')
  unfolding handle_forecast_created
  handle_forecast_created-returns h1 h2 h4 h5 = elim (Option-cases (get_agent m.body.agent_id db)) [
    | inl unknown ↦ let (db', e) = reject-ok unknown_agent h1 in (db', ground (arith, e))
    | inr (agent, g) ↦
        let (db', e) = handle_known-ok agent g h1 h2 h4 h5 in (db', ground (arith, e))
  ]
