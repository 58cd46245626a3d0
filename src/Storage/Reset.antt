-- ===== src/Storage/Reset.antt =====
-- `Repository.reset_tenant` of src/stakeroute/storage/repository.py: ten DELETE statements, in the
-- order of the code. A statement fails if it deletes a row that another table still refers to.
use stakeroute.Prelude.{
  Bool, ◌&&◌, ◌||◌, Text, text_eq, Result, ok, raise_if, ◌>>=◌, ◌>>◌, integrity_error,
}
use stakeroute.Storage.Rows.{
  AgentRow, ClusterRow, HypothesisRow, ForecastRow, OutcomeRow, SettlementRow, DecisionRow, Db,
}
use stakeroute.Storage.Tables.{exists, delete}

module _ {F : Type 0} (t : Text) where
  abbrev pub forecast_referred : Db F → ForecastRow F → Bool
  forecast_referred db r =
      exists (λ (s : SettlementRow F). text_eq s.forecast_id r.id) db.settlements

  abbrev pub hypothesis_referred : Db F → HypothesisRow F → Bool
  hypothesis_referred db r =
      exists (λ (o : OutcomeRow). text_eq o.hypothesis_id r.id) db.outcomes
      || (exists (λ (d : DecisionRow F). text_eq d.hypothesis_id r.id) db.decisions
          || exists (λ (f : ForecastRow F). text_eq f.hypothesis_id r.id) db.forecasts)

  abbrev pub cluster_referred : Db F → ClusterRow → Bool
  cluster_referred db r =
      exists (λ (f : ForecastRow F). text_eq f.evidence_cluster_id r.id) db.forecasts

  abbrev pub agent_referred : Db F → AgentRow F → Bool
  agent_referred db r = exists (λ (f : ForecastRow F). text_eq f.agent_id r.id) db.forecasts

  -- the four tables that no other refers to
  unfoldable pub clear_leaves : Db F → Db F
  clear_leaves db = record db {
    settlements = delete (λ r. text_eq r.tenant_id t) db.settlements;
    outcomes = delete (λ r. text_eq r.tenant_id t) db.outcomes;
    decisions = delete (λ r. text_eq r.tenant_id t) db.decisions;
    rejected = delete (λ r. text_eq r.tenant_id t) db.rejected;
  }

  unfoldable pub clear_forecasts : Db F → Result (Db F)
  clear_forecasts db = do
    raise_if
        (exists (λ (r : ForecastRow F). text_eq r.tenant_id t && forecast_referred db r)
          db.forecasts)
        integrity_error
    ok (record db { forecasts = delete (λ r. text_eq r.tenant_id t) db.forecasts })

  unfoldable pub clear_hypotheses : Db F → Result (Db F)
  clear_hypotheses db = do
    raise_if
        (exists (λ (r : HypothesisRow F). text_eq r.tenant_id t && hypothesis_referred db r)
          db.hypotheses)
        integrity_error
    ok (record db { hypotheses = delete (λ r. text_eq r.tenant_id t) db.hypotheses })

  unfoldable pub clear_clusters : Db F → Result (Db F)
  clear_clusters db = do
    raise_if
        (exists (λ (r : ClusterRow). text_eq r.tenant_id t && cluster_referred db r) db.clusters)
        integrity_error
    ok (record db { clusters = delete (λ r. text_eq r.tenant_id t) db.clusters })

  unfoldable pub clear_agents : Db F → Result (Db F)
  clear_agents db = do
    raise_if (exists (λ (r : AgentRow F). text_eq r.tenant_id t && agent_referred db r) db.agents)
        integrity_error
    ok (record db { agents = delete (λ r. text_eq r.tenant_id t) db.agents })

  unfoldable pub clear_logs : Db F → Db F
  clear_logs db = record db {
    events = delete (λ r. text_eq r.tenant_id t) db.events;
    epochs = delete (λ r. text_eq r.tenant_id t) db.epochs;
  }

  unfoldable pub reset_tenant : Db F → Result (Db F)
  reset_tenant db = do
    db1 ← clear_forecasts (clear_leaves db)
    db2 ← clear_hypotheses db1
    db3 ← clear_clusters db2
    db4 ← clear_agents db3
    ok (clear_logs db4)
