-- ===== src/Worker/Forecasts.antt =====
-- `handle_forecast_created` of src/stakeroute/worker/main.py.
pub mod Booked
pub mod Accepted
pub mod Total
pub mod Solvent
use stakeroute.Prelude.{
  ℕ, Bool, true, false, not, ◌&&◌, ◌==◌, Option, none, some, List, [], ◌∷◌, ◌++◌, ℤ, pos, neg, ◌+ℤ◌,
  leb_ℤ, ltb_ℤ, Text, codes, Result, ok, err, raise_if, ◌>>=◌, ◌>>◌, value_error, if◌then◌else◌,
}
use stakeroute.Float.{Float}
use stakeroute.Core.Types.{clamp_probability}
use stakeroute.Storage.Rows.{
  AgentRow, ForecastRow, RejectedRow, Rejection, unknown_agent, outside_limits, exceeds_available,
  Db,
}
use stakeroute.Storage.Repository.{
  get_agent, get_live_forecast, insert_rejected_forecast, ensure_evidence_cluster, upsert_forecast,
  adjust_agent_credits,
}
use stakeroute.Worker.Messages.{Message, ForecastBody, get_or, emitted}

-- src/stakeroute/config.py
abbrev pub stake_min : ℤ
stake_min = pos 1

abbrev pub stake_max : ℤ
stake_max = pos 50

-- f"forecast-{hypothesis_id}-{agent_id}"
unfoldable pub forecast_key : Text → Text → Text
forecast_key hypothesis_id agent_id =
    codes "forecast-" ++ (hypothesis_id ++ (codes "-" ++ agent_id))

unfoldable pub has_colon : Text → Bool
has_colon [] = false
has_colon (c ∷ s) = if c == b':' then true else has_colon s

abbrev pub locked_here : {F : Type 0} → Option (ForecastRow F) → ℤ
locked_here none = pos 0
locked_here (some r) = r.stake

module _ {F : Type 0} ⦃f : Float F⦄ (tenant_id : Text) (m : Message (ForecastBody F)) where
  abbrev pub rejected_row : Rejection → RejectedRow F
  rejected_row reason = record {
    tenant_id = tenant_id;
    hypothesis_id = m.body.hypothesis_id;
    agent_id = m.body.agent_id;
    stake = m.body.stake;
    probability = clamp_probability m.body.probability;
    reason = reason;
    rejected_at_ms = emitted m;
  }

  abbrev pub reject : Rejection → Db F → Result (Db F)
  reject reason = insert_rejected_forecast (rejected_row reason)

  abbrev pub new_forecast : ForecastRow F
  new_forecast = record {
    id = forecast_key m.body.hypothesis_id m.body.agent_id;
    tenant_id = tenant_id;
    hypothesis_id = m.body.hypothesis_id;
    agent_id = m.body.agent_id;
    probability = clamp_probability m.body.probability;
    stake = m.body.stake;
    evidence_cluster_id = m.body.evidence_cluster_id;
    evidence_refs = m.body.evidence_refs;
    source_event_id = m.event_id;
    created_at_ms = emitted m;
    expires_at_ms = get_or m.body.expires_at_ms (pos 0);
  }

  -- `_, previous_stake = previous.split(":")` raises unless the only colon is the separator.
  unfoldable pub release : Option (Text × ℤ) → Db F → Result (Db F)
  release none db = ok db
  release (some (i, stake)) db = do
    raise_if (has_colon i) value_error
    ok (adjust_agent_credits m.body.agent_id stake (neg stake) db)

  -- from the evidence cluster on
  unfoldable pub accept : Db F → Result (Db F)
  accept db = do
    db1 ← ensure_evidence_cluster m.body.evidence_cluster_id tenant_id m.body.evidence_cluster_id db
    replaced ← upsert_forecast new_forecast db1
    db3 ← release replaced.0 replaced.1
    ok (adjust_agent_credits m.body.agent_id (neg m.body.stake) m.body.stake db3)

  abbrev pub effective_available : AgentRow F → Db F → ℤ
  effective_available agent db =
      agent.available_credits
      +ℤ locked_here (get_live_forecast m.body.hypothesis_id m.body.agent_id db)

  -- the checks on a known agent
  unfoldable pub handle_known : AgentRow F → Db F → Result (Db F)
  handle_known agent db =
      if not (leb_ℤ stake_min m.body.stake && leb_ℤ m.body.stake stake_max)
      then reject (outside_limits m.body.stake) db
      else if ltb_ℤ (effective_available agent db) m.body.stake
      then reject (exceeds_available m.body.stake (effective_available agent db)) db
      else accept db

  unfoldable pub handle_forecast_created : Db F → Result (Db F)
  handle_forecast_created db = elim (get_agent m.body.agent_id db) [
    | none ↦ reject unknown_agent db
    | some agent ↦ handle_known agent db
  ]
