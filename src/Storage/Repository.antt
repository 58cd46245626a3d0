-- ===== src/Storage/Repository.antt =====
-- `Repository` of src/stakeroute/storage/repository.py. Each method is one statement or a few; the
-- checks are those of schema.sql, with `PRAGMA foreign_keys=ON`. The lock makes each call atomic,
-- and a call that is retried on a locked database has had no effect before.
use stakeroute.Prelude.{
  Bool, true, false, not, ◌&&◌, Option, none, some, List, ℤ, pos, neg, ◌+ℤ◌, ltb_ℤ, leb_ℤ, ◌^◌,
  Text, text_eq, text_lt, sorted, select, Result, ok, raise_if, ◌>>=◌, ◌>>◌, integrity_error,
  overflow_error, if◌then◌else◌,
}
use stakeroute.Float.{Float}
use stakeroute.Storage.Rows.{
  Status, opened, resolved, expired, AgentRow, EventRow, HypothesisRow, ForecastRow, OutcomeRow,
  SettlementRow, RejectedRow, Db,
}
use stakeroute.Storage.Tables.{fetch, exists, update, delete, append_row}

-- `REFERENCES t(id)`: the statement fails if no row of `t` has the value.
abbrev pub references : Bool → Result (Unit {0})
references there = raise_if (not there) integrity_error

-- A REAL NOT NULL column: `sqlite3` binds a NaN as NULL.
abbrev pub not_null : {F : Type 0} ⦃f : Float F⦄ → F → Result (Unit {0})
not_null ⦃f = f⦄ x = raise_if (not (f.eq x x)) integrity_error

-- what an INTEGER column can hold
unfoldable pub fits_64 : ℤ → Bool
fits_64 n = leb_ℤ (neg (pos (2 ^ 63))) n && ltb_ℤ n (pos (2 ^ 63))

abbrev pub is_open : Status → Bool
is_open opened = true
is_open resolved = false
is_open expired = false

module _ {F : Type 0} where
  abbrev pub has_tenant : Db F → Text → Bool
  has_tenant db t = exists (text_eq t) db.tenants

  abbrev pub has_agent : Db F → Text → Bool
  has_agent db a = exists (λ r. text_eq r.id a) db.agents

  abbrev pub has_hypothesis : Db F → Text → Bool
  has_hypothesis db h = exists (λ r. text_eq r.id h) db.hypotheses

  abbrev pub has_cluster : Db F → Text → Bool
  has_cluster db c = exists (λ r. text_eq r.id c) db.clusters

  abbrev pub has_forecast : Db F → Text → Bool
  has_forecast db i = exists (λ r. text_eq r.id i) db.forecasts

  unfoldable pub insert_event : EventRow → Db F → Result (Bool × Db F)
  insert_event row db =
      if exists (λ r. text_eq r.event_id row.event_id) db.events then ok (false, db) else (do
        references (has_tenant db row.tenant_id)
        ok (true, record db { events = append_row row db.events }))

  unfoldable pub ensure_tenant : Text → Db F → Db F
  ensure_tenant t db =
      if has_tenant db t then db else record db { tenants = append_row t db.tenants }

  unfoldable pub upsert_agent : AgentRow F → Db F → Result (Db F)
  upsert_agent row db =
      if has_agent db row.id
      then ok (record db {
        agents =
            update (λ r. text_eq r.id row.id)
              (λ r. record r {
                reputation = row.reputation;
                available_credits = row.available_credits;
                staked_credits = row.staked_credits;
              })
              db.agents;
      })
      else (do
        references (has_tenant db row.tenant_id)
        ok (record db { agents = append_row row db.agents }))

  unfoldable pub get_agent : Text → Db F → Option (AgentRow F)
  get_agent a db = fetch (λ r. text_eq r.id a) db.agents

  unfoldable pub list_agents : Text → Db F → List (AgentRow F)
  list_agents t db =
      sorted (λ a b. text_lt a.id b.id) (select (λ r. text_eq r.tenant_id t) db.agents)

  abbrev pub move_credits : ℤ → ℤ → AgentRow F → AgentRow F
  move_credits available_delta staked_delta r = record r {
    available_credits = r.available_credits +ℤ available_delta;
    staked_credits = r.staked_credits +ℤ staked_delta;
  }

  unfoldable pub adjust_agent_credits : Text → ℤ → ℤ → Db F → Db F
  adjust_agent_credits a available_delta staked_delta db = record db {
    agents = update (λ r. text_eq r.id a) (move_credits available_delta staked_delta) db.agents;
  }

  unfoldable pub set_agent_reputation : Text → F → Db F → Db F
  set_agent_reputation a reputation db = record db {
    agents = update (λ r. text_eq r.id a) (λ r. record r { reputation = reputation }) db.agents;
  }

  unfoldable pub ensure_evidence_cluster : Text → Text → Text → Db F → Result (Db F)
  ensure_evidence_cluster c t label db = if has_cluster db c then ok db else (do
    references (has_tenant db t)
    ok (record db {
      clusters =
          append_row (record { id = c; tenant_id = t; label = label; member_count = 0 })
            db.clusters;
    }))

  unfoldable pub upsert_hypothesis : HypothesisRow F → Db F → Result (Db F)
  upsert_hypothesis row db = if has_hypothesis db row.id then ok db else (do
    references (has_tenant db row.tenant_id)
    ok (record db { hypotheses = append_row row db.hypotheses }))

  unfoldable pub set_hypothesis_status : Text → Status → Db F → Db F
  set_hypothesis_status h status db = record db {
    hypotheses = update (λ r. text_eq r.id h) (λ r. record r { status = status }) db.hypotheses;
  }

  unfoldable pub get_hypothesis : Text → Db F → Option (HypothesisRow F)
  get_hypothesis h db = fetch (λ r. text_eq r.id h) db.hypotheses

  abbrev pub by_id : HypothesisRow F → HypothesisRow F → Bool
  by_id a b = text_lt a.id b.id

  -- with `status="open"`
  unfoldable pub list_open_hypotheses : Text → Db F → List (HypothesisRow F)
  list_open_hypotheses t db =
      sorted by_id (select (λ r. text_eq r.tenant_id t && is_open r.status) db.hypotheses)

  unfoldable pub list_expired_hypotheses : Text → ℤ → Db F → List (HypothesisRow F)
  list_expired_hypotheses t now_ms db = sorted by_id (
      select (λ r. text_eq r.tenant_id t && (is_open r.status && ltb_ℤ r.deadline_ms now_ms))
        db.hypotheses)

  abbrev pub is_live : Text → Text → ForecastRow F → Bool
  is_live h a r = text_eq r.hypothesis_id h && text_eq r.agent_id a

  unfoldable pub get_live_forecast : Text → Text → Db F → Option (ForecastRow F)
  get_live_forecast h a db = fetch (is_live h a) db.forecasts

  -- DELETE of a forecast, which a settlement's reference forbids
  unfoldable pub delete_forecast : Text → Db F → Result (Db F)
  delete_forecast i db = do
    raise_if (exists (λ r. text_eq r.forecast_id i) db.settlements) integrity_error
    ok (record db { forecasts = delete (λ r. text_eq r.id i) db.forecasts })

  -- INSERT of a forecast, with its column that is not NULL, its primary key, its UNIQUE pair and its four references
  unfoldable pub insert_forecast : ⦃f : Float F⦄ → ForecastRow F → Db F → Result (Db F)
  insert_forecast row db = do
    not_null row.probability
    raise_if (has_forecast db row.id) integrity_error
    raise_if (exists (is_live row.hypothesis_id row.agent_id) db.forecasts) integrity_error
    references (has_tenant db row.tenant_id)
    references (has_hypothesis db row.hypothesis_id)
    references (has_agent db row.agent_id)
    references (has_cluster db row.evidence_cluster_id)
    ok (record db { forecasts = append_row row db.forecasts })

  -- the DELETE of the forecast that is there, if any, and the INSERT
  unfoldable pub replace_forecast :
      ⦃f : Float F⦄
      → Option (ForecastRow F)
      → ForecastRow F
      → Db F
      → Result (Option (Text × ℤ) × Db F)
  replace_forecast none row db = do db' ← insert_forecast row db; ok (none, db')
  replace_forecast (some old) row db = do
    db' ← delete_forecast old.id db
    db'' ← insert_forecast row db'
    ok (some (old.id, old.stake), db'')

  -- The previous forecast's id and stake stand for the text "id:stake".
  unfoldable pub upsert_forecast :
      ⦃f : Float F⦄ → ForecastRow F → Db F → Result (Option (Text × ℤ) × Db F)
  upsert_forecast row db =
      replace_forecast (get_live_forecast row.hypothesis_id row.agent_id db) row db

  unfoldable pub list_forecasts_for_hypothesis : Text → Db F → List (ForecastRow F)
  list_forecasts_for_hypothesis h db =
      sorted (λ a b. text_lt a.agent_id b.agent_id)
        (select (λ r. text_eq r.hypothesis_id h) db.forecasts)

  unfoldable pub insert_outcome : OutcomeRow → Db F → Result (Bool × Db F)
  insert_outcome row db =
      if exists (λ r. text_eq r.hypothesis_id row.hypothesis_id) db.outcomes
      then ok (false, db)
      else (do
        references (has_hypothesis db row.hypothesis_id)
        references (has_tenant db row.tenant_id)
        ok (true, record db { outcomes = append_row row db.outcomes }))

  -- `ON CONFLICT (forecast_id) DO NOTHING` is about the repeated id alone: a NULL fails before it.
  unfoldable pub insert_settlement : ⦃f : Float F⦄ → SettlementRow F → Db F → Result (Bool × Db F)
  insert_settlement row db = do
    not_null row.brier_score
    not_null row.prior_brier_score
    not_null row.improvement
    not_null row.reputation_before
    not_null row.reputation_after
    (if exists (λ r. text_eq r.forecast_id row.forecast_id) db.settlements
        then ok (false, db)
        else (do
          references (has_tenant db row.tenant_id)
          references (has_forecast db row.forecast_id)
          ok (true, record db { settlements = append_row row db.settlements })))

  unfoldable pub insert_rejected_forecast : ⦃f : Float F⦄ → RejectedRow F → Db F → Result (Db F)
  insert_rejected_forecast row db = do
    raise_if (not (fits_64 row.stake)) overflow_error
    not_null row.probability
    references (has_tenant db row.tenant_id)
    ok (record db { rejected = append_row row db.rejected })
