-- ===== src/Metrics.antt =====
-- src/stakeroute/metrics.py. A result is the value, or none where it was not yet measured, and what
-- it was measured over.
pub mod Escalation
use stakeroute.Prelude.{
  ℕ, suc, ◌+◌, Bool, true, false, ◌==◌, Option, none, some, List, [], ◌∷◌, map, length, select, ℤ,
  pos, ◌+ℤ◌, ◌-ℤ◌, max_ℤ, eqb_ℤ, Text, Result, ok, ◌>>=◌, if◌then◌else◌,
}
use stakeroute.Float.{Float, divide}
use stakeroute.Storage.Rows.{Strategy, DecisionRow, OutcomeRow, HypothesisRow, Db}
use stakeroute.Storage.Repository.{get_hypothesis}
use stakeroute.Storage.Queries.{
  get_outcome, latest_decisions, list_all_settlements, event_ingestion_span_ms,
  newest_event_ingested_at_ms, newest_decision_ms,
}

abbrev pub Measured : Type 0 → Type 0
Measured F = Option F × ℕ

unfoldable pub sum_ℤ : List ℤ → ℤ
sum_ℤ [] = pos 0
sum_ℤ (x ∷ xs) = x +ℤ sum_ℤ xs

module _ {F : Type 0} where
  unfoldable pub routed_decisions : Text → Strategy → Db F → List (DecisionRow F)
  routed_decisions t s db = select (λ d. d.routed) (latest_decisions t s db)

  -- The loop of the two rates: how many of the decisions have the outcome `wanted`, and how many
  -- have one.
  unfoldable pub tally : (wanted : ℤ) → Db F → List (DecisionRow F) → ℕ × ℕ
  tally wanted db [] = (0, 0)
  tally wanted db (d ∷ ds) =
      let rest = tally wanted db ds in
      elim (get_outcome d.hypothesis_id db) [
        | none ↦ rest
        | some o ↦ ((if eqb_ℤ o.outcome wanted then suc rest.0 else rest.0), suc rest.1)
      ]

  -- the waits of the routed hypotheses that resolved true
  unfoldable pub waits : Db F → List (DecisionRow F) → List ℤ
  waits db [] = []
  waits db (d ∷ ds) =
      let rest = waits db ds in
      elim (get_outcome d.hypothesis_id db) [
        | none ↦ rest
        | some o ↦
            if eqb_ℤ o.outcome (pos 1)
            then (elim (get_hypothesis d.hypothesis_id db) [
              | none ↦ rest
              | some h ↦ (d.decided_at_ms -ℤ h.created_at_ms) ∷ rest
            ])
            else rest
      ]

module _ {F : Type 0} ⦃f : Float F⦄ where
  abbrev pub rate : ℕ × ℕ → Measured F
  rate (hits, measured) =
      if measured == 0 then (none, 0) else (some (f.ratio (pos hits) (pos measured)), measured)

  unfoldable pub precision_at_k : Text → Strategy → Db F → Measured F
  precision_at_k t s db = rate (tally (pos 1) db (routed_decisions t s db))

  unfoldable pub false_escalation_rate : Text → Strategy → Db F → Measured F
  false_escalation_rate t s db = rate (tally (pos 0) db (routed_decisions t s db))

  abbrev pub mean_wait : List ℤ → Measured F
  mean_wait [] = (none, 0)
  mean_wait (x ∷ xs) = (some (f.ratio (sum_ℤ (x ∷ xs)) (pos (length (x ∷ xs)))), length (x ∷ xs))

  unfoldable pub time_to_attention_ms : Text → Strategy → Db F → Measured F
  time_to_attention_ms t s db = mean_wait (waits db (routed_decisions t s db))

  abbrev pub mean_score : List F → Result (Measured F)
  mean_score [] = ok (none, 0)
  mean_score (x ∷ xs) = do
    mean ← divide (f.total (x ∷ xs)) (f.of_int (pos (length (x ∷ xs))))
    ok (some mean, length (x ∷ xs))

  unfoldable pub mean_brier_score : Text → Db F → Result (Measured F)
  mean_brier_score t db = mean_score (map (λ r. r.brier_score) (list_all_settlements t db))

  -- `max(x, y)` of floats
  abbrev pub max_f : F → F → F
  max_f x y = if f.lt x y then y else x

  unfoldable pub events_per_second : Text → Db F → Result (Measured F)
  events_per_second t db = elim (event_ingestion_span_ms t db) [
    | none ↦ ok (none, 0)
    | some (n, earliest_ms, latest_ms) ↦ (do
      seconds ← divide (f.of_int (latest_ms -ℤ earliest_ms)) (f.literal 1000 0)
      let duration_s = max_f seconds (f.literal 1 3)
      value ← divide (f.of_int (pos n)) duration_s
      ok (some value, n))
  ]

  unfoldable pub ranking_pass_lag_ms : Text → Strategy → Db F → Measured F
  ranking_pass_lag_ms t s db = elim (newest_event_ingested_at_ms t db) [
    | none ↦ (none, 0)
    | some newest_event_ms ↦ elim (newest_decision_ms t s db) [
      | none ↦ (none, 0)
      | some newest_ms ↦ (some (f.of_int (max_ℤ (newest_ms -ℤ newest_event_ms) (pos 0))), 1)
    ]
  ]
