-- ===== src/Dashboard/Measures.antt =====
-- The endpoint for the metrics of src/stakeroute/dashboard/main.py, without the id of the run, which
-- the process holds in memory.
use stakeroute.Prelude.{ℕ, Option, Text, Result, ok, ◌>>=◌}
use stakeroute.Float.{Float}
use stakeroute.Storage.Rows.{Db, market}
use stakeroute.Storage.Queries.{count_events}
use stakeroute.Metrics.{
  precision_at_k, false_escalation_rate, time_to_attention_ms, mean_brier_score, events_per_second,
  ranking_pass_lag_ms,
}

pub record MeasuredOver : Type 0 where
  pub precision_at_k : ℕ
  pub false_escalation_rate : ℕ
  pub time_to_attention_ms : ℕ
  pub mean_brier_score : ℕ
  pub events_per_second : ℕ

pub record MetricsView (F : Type 0) : Type 0 where
  pub precision_at_k : Option F
  pub false_escalation_rate : Option F
  pub time_to_attention_ms : Option F
  pub mean_brier_score : Option F
  pub events_per_second : Option F
  pub ranking_pass_lag_ms : Option F
  pub measured_over_events : ℕ
  pub measured_over : MeasuredOver

unfoldable pub metrics :
    {F : Type 0} ⦃f : Float F⦄ → (tenant_id : Text) → Db F → Result (MetricsView F)
metrics tenant_id db = do
  brier ← mean_brier_score tenant_id db
  throughput ← events_per_second tenant_id db
  ok (
      let precision = precision_at_k tenant_id market db in
      let false_escalation = false_escalation_rate tenant_id market db in
      let time_to_attention = time_to_attention_ms tenant_id market db in
      record {
        precision_at_k = precision.0;
        false_escalation_rate = false_escalation.0;
        time_to_attention_ms = time_to_attention.0;
        mean_brier_score = brier.0;
        events_per_second = throughput.0;
        ranking_pass_lag_ms = (ranking_pass_lag_ms tenant_id market db).0;
        measured_over_events = count_events tenant_id db;
        measured_over = record {
          precision_at_k = precision.1;
          false_escalation_rate = false_escalation.1;
          time_to_attention_ms = time_to_attention.1;
          mean_brier_score = brier.1;
          events_per_second = throughput.1;
        };
      })
