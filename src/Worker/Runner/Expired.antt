-- ===== src/Worker/Runner/Expired.antt =====
-- `expire_overdue_hypotheses`.
use stakeroute.Prelude.{◌≡◌, refl, ◌∙◌, List, [], ◌∷◌, ℤ, neg, Text}
use stakeroute.Storage.Rows.{Status, expired, HypothesisRow, ForecastRow, Db}
use stakeroute.Storage.Repository.{
  adjust_agent_credits, set_hypothesis_status, list_forecasts_for_hypothesis,
  list_expired_hypotheses,
}
use stakeroute.Storage.Ledger.{holdings, holdings-shift, standings, standings-adjust}
use stakeroute.Worker.Runner.{refund_all, expire_one, expire_all, expire_overdue_hypotheses}

module _ {F : Type 0} where
  -- What an expiry leaves alone.
  abbrev pub Kept : Db F → Db F → Type 0
  Kept db db' =
      (holdings db' ≡ holdings db)
      × (standings db' ≡ standings db)
      × (db'.forecasts ≡ db.forecasts)
      × (db'.settlements ≡ db.settlements)
      × (db'.outcomes ≡ db.outcomes)

  Kept-trans : (db1 db2 db3 : Db F) → Kept db1 db2 → Kept db2 db3 → Kept db1 db3
  Kept-trans db1 db2 db3 (a, b, c, d, e) (a', b', c', d', e') =
      (a' ∙ a, b' ∙ b, c' ∙ c, d' ∙ d, e' ∙ e)

  adjust-Kept : (a : Text) (d : ℤ) (db : Db F) → Kept db (adjust_agent_credits a d (neg d) db)
  unfolding adjust_agent_credits
  adjust-Kept a d db = (holdings-shift a d db, standings-adjust a d (neg d) db, refl, refl, refl)

  adjust-hypotheses :
      (a : Text) (d e : ℤ) (db : Db F) → (adjust_agent_credits a d e db).hypotheses ≡ db.hypotheses
  unfolding adjust_agent_credits
  adjust-hypotheses a d e db = refl

  status-Kept : (h : Text) (s : Status) (db : Db F) → Kept db (set_hypothesis_status h s db)
  unfolding set_hypothesis_status
  status-Kept h s db = (refl, refl, refl, refl, refl)

  refund_all-Kept : (rows : List (ForecastRow F)) (db : Db F) → Kept db (refund_all rows db)
  unfolding refund_all
  refund_all-Kept [] db = (refl, refl, refl, refl, refl)
  refund_all-Kept (row ∷ rows) db =
      let db1 = adjust_agent_credits row.agent_id row.stake (neg row.stake) db in
      Kept-trans db db1 (refund_all rows db1) (adjust-Kept row.agent_id row.stake db)
        (refund_all-Kept rows db1)

  pub refund_all-hypotheses :
      (rows : List (ForecastRow F)) (db : Db F) → (refund_all rows db).hypotheses ≡ db.hypotheses
  unfolding refund_all
  refund_all-hypotheses [] db = refl
  refund_all-hypotheses (row ∷ rows) db =
      refund_all-hypotheses rows (adjust_agent_credits row.agent_id row.stake (neg row.stake) db)
      ∙ adjust-hypotheses row.agent_id row.stake (neg row.stake) db

  pub expire_one-Kept : (h : HypothesisRow F) (db : Db F) → Kept db (expire_one h db)
  unfolding expire_one
  expire_one-Kept h db =
      let rows = list_forecasts_for_hypothesis h.id db in
      let db1 = refund_all rows db in
      Kept-trans db db1 (set_hypothesis_status h.id expired db1) (refund_all-Kept rows db)
        (status-Kept h.id expired db1)

  expire_all-Kept : (hs : List (HypothesisRow F)) (db : Db F) → Kept db (expire_all hs db)
  unfolding expire_all
  expire_all-Kept [] db = (refl, refl, refl, refl, refl)
  expire_all-Kept (h ∷ hs) db =
      Kept-trans db (expire_one h db) (expire_all hs (expire_one h db)) (expire_one-Kept h db)
        (expire_all-Kept hs (expire_one h db))

  -- Expiry gives stakes back and takes nothing: no agent's credits in total and no agent's reputation
  -- change, and neither the forecasts nor the settlements nor the outcomes do.
  pub expire_overdue-keeps :
      (t : Text) (now_ms : ℤ) (db : Db F) → Kept db (expire_overdue_hypotheses t now_ms db).1
  unfolding expire_overdue_hypotheses
  expire_overdue-keeps t now_ms db = expire_all-Kept (list_expired_hypotheses t now_ms db) db
