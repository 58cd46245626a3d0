-- ===== src/Storage/Queries.antt =====
-- The rest of `Repository` of src/stakeroute/storage/repository.py: attention decisions, epochs, the
-- reset, and what the dashboard and the metrics read.
use stakeroute.Prelude.{
  ℕ, suc, ◌+◌, Bool, true, false, ◌&&◌, Option, none, some, List, [], ◌∷◌, map, length, count, ℤ,
  max_ℤ, ltb_ℤ, ◌==◌, eqb_ℤ, ltb, Text, text_eq, text_lt, sorted, select, Result, ok, raise_if,
  ◌>>◌, integrity_error, if◌then◌else◌,
}
use stakeroute.Float.{Float}
use stakeroute.Storage.Rows.{
  EventRow, ForecastRow, OutcomeRow, SettlementRow, RejectedRow, Strategy, market, majority_vote,
  highest_confidence, DecisionRow, EpochRow, Db,
}
use stakeroute.Storage.Tables.{fetch, exists, delete, append_row}
use stakeroute.Storage.Repository.{references, not_null, has_tenant, has_hypothesis}

unfoldable pub same_strategy : Strategy → Strategy → Bool
same_strategy market market = true
same_strategy majority_vote majority_vote = true
same_strategy highest_confidence highest_confidence = true
same_strategy _ _ = false

-- MAX, which is NULL on no rows, and MIN
unfoldable pub maximum : List ℤ → Option ℤ
maximum [] = none
maximum (x ∷ xs) = some (elim (maximum xs) [ none ↦ x | some y ↦ max_ℤ x y ])

abbrev pub min_ℤ : ℤ → ℤ → ℤ
min_ℤ a b = if ltb_ℤ b a then b else a

unfoldable pub minimum : List ℤ → Option ℤ
minimum [] = none
minimum (x ∷ xs) = some (elim (minimum xs) [ none ↦ x | some y ↦ min_ℤ x y ])

-- GROUP BY ... HAVING COUNT(*) > 1: a group is counted at its last row but one.
unfoldable pub repeated : List Text → ℕ
repeated [] = 0
repeated (x ∷ xs) = let rest = repeated xs in if count (text_eq x) xs == 1 then rest + 1 else rest

unfoldable pub largest_id : List EpochRow → ℕ
largest_id [] = 0
largest_id (r ∷ rs) = let rest = largest_id rs in if ltb rest r.id then r.id else rest

module _ {F : Type 0} where
  unfoldable pub get_forecast : Text → Db F → Option (ForecastRow F)
  get_forecast i db = fetch (λ r. text_eq r.id i) db.forecasts

  unfoldable pub get_outcome : Text → Db F → Option OutcomeRow
  get_outcome h db = fetch (λ r. text_eq r.hypothesis_id h) db.outcomes

  -- the rows with the hypothesis, none of which a settlement may refer to
  unfoldable pub delete_forecasts_for_hypothesis : Text → Db F → Result (Db F)
  delete_forecasts_for_hypothesis h db = do
    raise_if
        (exists
          (λ (r : ForecastRow F).
            text_eq r.hypothesis_id h
            && exists (λ (s : SettlementRow F). text_eq s.forecast_id r.id) db.settlements)
          db.forecasts)
        integrity_error
    ok (record db { forecasts = delete (λ r. text_eq r.hypothesis_id h) db.forecasts })

  unfoldable pub insert_attention_decision : ⦃f : Float F⦄ → DecisionRow F → Db F → Result (Db F)
  insert_attention_decision row db = do
    not_null row.aggregated_probability
    not_null row.priority
    references (has_tenant db row.tenant_id)
    references (has_hypothesis db row.hypothesis_id)
    ok (record db { decisions = append_row row db.decisions })

  abbrev pub is_of : Text → Strategy → DecisionRow F → Bool
  is_of t s r = text_eq r.tenant_id t && same_strategy r.strategy s

  -- MAX(decided_at_ms) of a hypothesis's group
  unfoldable pub newest_of : Text → Strategy → Text → List (DecisionRow F) → Option ℤ
  newest_of t s h rows =
      maximum
        (map (λ r. r.decided_at_ms) (select (λ r. is_of t s r && text_eq r.hypothesis_id h) rows))

  -- the join with the groups
  unfoldable pub is_latest : Text → Strategy → List (DecisionRow F) → DecisionRow F → Bool
  is_latest t s rows r = is_of t s r && elim (newest_of t s r.hypothesis_id rows) [
    | none ↦ false
    | some ms ↦ eqb_ℤ r.decided_at_ms ms
  ]

  -- Rows of one rank stand in the order of the table; SQL leaves their order open.
  unfoldable pub latest_decisions : Text → Strategy → Db F → List (DecisionRow F)
  latest_decisions t s db =
      sorted (λ a b. ltb a.rank b.rank) (select (is_latest t s db.decisions) db.decisions)

  unfoldable pub count_events : Text → Db F → ℕ
  count_events t db = count (λ (r : EventRow). text_eq r.tenant_id t) db.events

  unfoldable pub list_settlements_for_hypothesis : Text → Db F → List (SettlementRow F)
  list_settlements_for_hypothesis h db =
      sorted (λ a b. text_lt a.forecast_id b.forecast_id)
        (select
          (λ s.
            exists (λ (f : ForecastRow F). text_eq f.id s.forecast_id && text_eq f.hypothesis_id h)
              db.forecasts)
          db.settlements)

  -- ORDER BY ... DESC LIMIT 1; of equal times the first row of the table, which SQL leaves open
  unfoldable pub get_last_forecast_probability : Text → Db F → Option F
  get_last_forecast_probability a db =
      elim (sorted (λ (x y : ForecastRow F). ltb_ℤ y.created_at_ms x.created_at_ms)
        (select (λ r. text_eq r.agent_id a) db.forecasts)) [
          | [] ↦ none
          | r ∷ rs ↦ some r.probability
        ]

  unfoldable pub get_last_settlement_delta : Text → Db F → Option ℤ
  get_last_settlement_delta a db =
      elim (sorted (λ (x y : SettlementRow F). ltb_ℤ y.settled_at_ms x.settled_at_ms)
        (select
          (λ s.
            exists (λ (f : ForecastRow F). text_eq f.id s.forecast_id && text_eq f.agent_id a)
              db.forecasts)
          db.settlements)) [ [] ↦ none | s ∷ ss ↦ some s.credit_delta ]

  unfoldable pub duplicate_settlement_count : Db F → ℕ
  duplicate_settlement_count db = repeated (map (λ s. s.forecast_id) db.settlements)

  unfoldable pub list_all_settlements : Text → Db F → List (SettlementRow F)
  list_all_settlements t db = select (λ r. text_eq r.tenant_id t) db.settlements

  abbrev pub ingestion_times : Text → Db F → List ℤ
  ingestion_times t db = map (λ r. r.ingested_at_ms) (select (λ r. text_eq r.tenant_id t) db.events)

  unfoldable pub event_ingestion_span_ms : Text → Db F → Option (ℕ × ℤ × ℤ)
  event_ingestion_span_ms t db =
      let times = ingestion_times t db in
      elim (minimum times) [
        | none ↦ none
        | some lo ↦ elim (maximum times) [ none ↦ none | some hi ↦ some (length times, lo, hi) ]
      ]

  unfoldable pub newest_event_ingested_at_ms : Text → Db F → Option ℤ
  newest_event_ingested_at_ms t db = maximum (ingestion_times t db)

  unfoldable pub newest_decision_ms : Text → Strategy → Db F → Option ℤ
  newest_decision_ms t s db = maximum (map (λ r. r.decided_at_ms) (select (is_of t s) db.decisions))

  -- the new row id is one more than the largest
  unfoldable pub insert_epoch : Text → ℤ → ℤ → ℤ → Db F → Result (ℕ × Db F)
  insert_epoch t started_at_ms grant_per_agent seed db = do
    references (has_tenant db t)
    let i = suc (largest_id db.epochs)
    let row : EpochRow = record {
      id = i;
      tenant_id = t;
      started_at_ms = started_at_ms;
      grant_per_agent = grant_per_agent;
      seed = seed;
    }
    ok (i, record db { epochs = append_row row db.epochs })

  unfoldable pub list_rejected_forecasts : Text → Db F → List (RejectedRow F)
  list_rejected_forecasts t db = select (λ r. text_eq r.tenant_id t) db.rejected
