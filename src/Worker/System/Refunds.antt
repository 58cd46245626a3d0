-- ===== src/Worker/System/Refunds.antt =====
-- `expire_overdue_hypotheses` of src/stakeroute/worker/settlement_runner.py and the available credits.
use stakeroute.Prelude.{
  ◌≡◌, refl, sym, subst, inl, inr, Bool, List, [], ◌∷◌, ℤ, neg, Text, text_eq, text_lt, select,
  sorted-perm, Rearranged-symm, All, All-perm, Bool-cases, arith,
}
use stakeroute.Storage.Rows.{Status, expired, HypothesisRow, ForecastRow, Db}
use stakeroute.Storage.Repository.{
  adjust_agent_credits, set_hypothesis_status, list_forecasts_for_hypothesis,
  list_expired_hypotheses,
}
use stakeroute.Storage.Ledger.Gains.{
  Gains, Gains-refl, Gains-trans, Gains-same_agents, adjust-Gains,
}
use stakeroute.Worker.Runner.{refund_all, expire_one, expire_all, expire_overdue_hypotheses}
use stakeroute.Worker.Runner.Expired.{expire_one-Kept}
use stakeroute.Worker.System.Stakes.{HasLimits, Limited}

module _ {F : Type 0} where
  All-chosen :
      (P : ForecastRow F → Type 0) (p : ForecastRow F → Bool) (rows : List (ForecastRow F))
      → All P rows
      → All P (select p rows)
  All-chosen P p [] all = tt
  All-chosen P p (r ∷ rows) (h, all) = elim (Bool-cases (p r)) [
    | inl e ↦ rw e (h, All-chosen P p rows all)
    | inr e ↦ rw e (All-chosen P p rows all)
  ]

  listed-HasLimits :
      (h : Text) (db : Db F) → Limited db → All HasLimits (list_forecasts_for_hypothesis h db)
  unfolding list_forecasts_for_hypothesis
  listed-HasLimits h db all =
      let mine = select (λ (r : ForecastRow F). text_eq r.hypothesis_id h) db.forecasts in
      All-perm HasLimits (Rearranged-symm (sorted-perm (λ a b. text_lt a.agent_id b.agent_id) mine))
        (All-chosen HasLimits (λ r. text_eq r.hypothesis_id h) db.forecasts all)

  refund_all-Gains :
      (rows : List (ForecastRow F)) (db : Db F) → All HasLimits rows → Gains db (refund_all rows db)
  unfolding refund_all
  refund_all-Gains [] db all = Gains-refl db
  refund_all-Gains (r ∷ rows) db ((low, high), all) =
      let db1 = adjust_agent_credits r.agent_id r.stake (neg r.stake) db in
      Gains-trans db db1 (refund_all rows db1)
        (adjust-Gains r.agent_id r.stake (neg r.stake) db (omega (arith, low)))
        (refund_all-Gains rows db1 all)

  status-agents :
      (h : Text) (s : Status) (db : Db F) → (set_hypothesis_status h s db).agents ≡ db.agents
  unfolding set_hypothesis_status
  status-agents h s db = refl

  expire_one-Gains : (h : HypothesisRow F) (db : Db F) → Limited db → Gains db (expire_one h db)
  unfolding expire_one
  expire_one-Gains h db all =
      let rows = list_forecasts_for_hypothesis h.id db in
      let db1 = refund_all rows db in
      let db2 = set_hypothesis_status h.id expired db1 in
      Gains-trans db db1 db2 (refund_all-Gains rows db (listed-HasLimits h.id db all))
        (Gains-same_agents db1 db2 (status-agents h.id expired db1))

  expire_all-Gains :
      (hs : List (HypothesisRow F)) (db : Db F) → Limited db → Gains db (expire_all hs db)
  unfolding expire_all
  expire_all-Gains [] db all = Gains-refl db
  expire_all-Gains (h ∷ hs) db all =
      let db1 = expire_one h db in
      let (_, _, fs, _, _) = expire_one-Kept h db in
      Gains-trans db db1 (expire_all hs db1) (expire_one-Gains h db all)
        (expire_all-Gains hs db1 (subst (All HasLimits) (sym fs) all))

  pub expire_overdue-Gains :
      (t : Text) (now_ms : ℤ) (db : Db F)
      → Limited db
      → Gains db (expire_overdue_hypotheses t now_ms db).1
  unfolding expire_overdue_hypotheses
  expire_overdue-Gains t now_ms db all =
      expire_all-Gains (list_expired_hypotheses t now_ms db) db all
