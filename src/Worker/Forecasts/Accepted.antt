-- ===== src/Worker/Forecasts/Accepted.antt =====
-- What `handle_forecast_created` does to the ledger.
use stakeroute.Prelude.{
  ◌≡◌, refl, ◌⊎◌, inl, inr, ◌&&◌, none, some, ◌≤ℤ◌, ◌<ℤ◌, leb_ℤ, ltb_ℤ, Text, ok, Bool-cases,
  Option-cases, arith,
}
use stakeroute.Float.{Float}
use stakeroute.Storage.Rows.{
  AgentRow, Rejection, unknown_agent, outside_limits, exceeds_available, Db,
}
use stakeroute.Storage.Tables.{append_row}
use stakeroute.Storage.Repository.{get_agent, insert_rejected_forecast}
use stakeroute.Worker.Messages.{Message, ForecastBody}
use stakeroute.Worker.Forecasts.{
  stake_min, stake_max, reject, rejected_row, effective_available, handle_known,
  handle_forecast_created,
}
use stakeroute.Worker.Forecasts.Booked.{Booked, accept-Booked}

module _ {F : Type 0} ⦃f : Float F⦄ (t : Text) (m : Message (ForecastBody F)) where
  abbrev a : Text
  a = m.body.agent_id

  -- When each of the three reasons is given.
  abbrev pub Reason : Db F → Rejection → Type 0
  Reason db unknown_agent = get_agent a db ≡ none
  Reason db (outside_limits stake) =
      (stake ≡ m.body.stake) × ((m.body.stake <ℤ stake_min) ⊎ (stake_max <ℤ m.body.stake))
  Reason db (exceeds_available stake effective) =
      (agent : AgentRow F) × (get_agent a db ≡ some agent)
      × (effective ≡ effective_available t m agent db)
      × (stake ≡ m.body.stake)
      × (effective <ℤ stake)

  reject-is :
      (reason : Rejection) (db db' : Db F)
      → reject t m reason db ≡ ok db'
      → db' ≡ record db { rejected = append_row (rejected_row t m reason) db.rejected }
  unfolding insert_rejected_forecast
  reject-is reason db db' e = ground arith

  abbrev pub Rejected : Db F → Db F → Type 0
  Rejected db db' =
      (reason : Rejection) × Reason db reason
      × (db' ≡ record db { rejected = append_row (rejected_row t m reason) db.rejected })

  abbrev pub Accepted : Db F → Db F → Type 0
  Accepted db db' =
      (agent : AgentRow F) × (get_agent a db ≡ some agent)
      × (stake_min ≤ℤ m.body.stake)
      × (m.body.stake ≤ℤ stake_max)
      × (m.body.stake ≤ℤ effective_available t m agent db)
      × Booked t m agent db db'

  handle_known-effect :
      (agent : AgentRow F) (db db' : Db F)
      → get_agent a db ≡ some agent
      → handle_known t m agent db ≡ ok db'
      → Rejected db db' ⊎ Accepted db db'
  unfolding handle_known
  handle_known-effect agent db db' g e =
      let s = m.body.stake in
      let eff = effective_available t m agent db in
      elim (Bool-cases (leb_ℤ stake_min s && leb_ℤ s stake_max)) [
        | inl within ↦ elim (Bool-cases (ltb_ℤ eff s)) [
          | inl short ↦ inl (
            exceeds_available s eff,
            (agent, g, refl, refl, ground arith),
            reject-is (exceeds_available s eff) db db' (ground arith),
          )
          | inr enough ↦ inr (
            agent,
            g,
            ground arith,
            ground arith,
            ground arith,
            accept-Booked t m agent db db' g (ground arith),
          )
        ]
        | inr outside ↦ inl (
          outside_limits s,
          (refl, ground arith),
          reject-is (outside_limits s) db db' (ground arith),
        )
      ]

  -- What the handler does when it does not raise. Either the forecast is rejected, for a reason that
  -- holds, and the one change is a row in the table of rejections. Or the agent is known, its stake
  -- is within the limits and no more than its available credits and the stake it already has on the
  -- hypothesis; then the new forecast is the agent's live one there, the stake has replaced the
  -- previous one in both columns, and no agent's credits in total or reputation have changed. A
  -- probability out of its range is no reason: it is clamped, in the stored row and in a rejection.
  pub handle_forecast_created-effect :
      (db db' : Db F) → handle_forecast_created t m db ≡ ok db' → Rejected db db' ⊎ Accepted db db'
  unfolding handle_forecast_created
  handle_forecast_created-effect db db' e = elim (Option-cases (get_agent a db)) [
    | inl unknown ↦ inl (unknown_agent, unknown, reject-is unknown_agent db db' (ground arith))
    | inr (agent, g) ↦ handle_known-effect agent db db' g (ground arith)
  ]
