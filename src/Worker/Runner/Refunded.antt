-- ===== src/Worker/Runner/Refunded.antt =====
-- What `expire_overdue_hypotheses` gives back to each agent.
use stakeroute.Prelude.{
  ◌≡◌, refl, sym, ap, ◌∙◌, inl, inr, some, List, [], ◌∷◌, ℤ, pos, neg, ◌+ℤ◌, int_laws, Text,
  text_eq, text_eq_iff, Bool-cases, select, sorted, text_lt, arith, if◌then◌else◌,
}
use stakeroute.Storage.Rows.{Status, expired, AgentRow, HypothesisRow, ForecastRow, Db}
use stakeroute.Storage.Repository.{
  get_agent, move_credits, adjust_agent_credits, set_hypothesis_status,
  list_forecasts_for_hypothesis, list_expired_hypotheses,
}
use stakeroute.Storage.Ledger.{get_agent-adjust, get_agent-adjust_other}
use stakeroute.Worker.Runner.{refund_all, expire_one, expire_all, expire_overdue_hypotheses}
use stakeroute.Worker.Runner.Expired.{Kept, expire_one-Kept, expire_overdue-keeps}

module _ {F : Type 0} (a : Text) where
  -- The stakes of an agent among some forecasts.
  unfoldable pub staked_in : List (ForecastRow F) → ℤ
  staked_in [] = pos 0
  staked_in (row ∷ rows) =
      let rest = staked_in rows in if text_eq row.agent_id a then row.stake +ℤ rest else rest

  -- The stakes of an agent on some hypotheses.
  unfoldable pub staked_on : List (HypothesisRow F) → Db F → ℤ
  staked_on [] db = pos 0
  staked_on (h ∷ hs) db = staked_in (list_forecasts_for_hypothesis h.id db) +ℤ staked_on hs db

  abbrev moved : ℤ → AgentRow F → AgentRow F
  moved d r = move_credits d (neg d) r

  moved-none : (r : AgentRow F) → moved (pos 0) r ≡ r
  moved-none r =
      let left : r.available_credits +ℤ pos 0 ≡ r.available_credits = omega int_laws in
      let right : r.staked_credits +ℤ neg (pos 0) ≡ r.staked_credits = omega int_laws in
      λ i. record r { available_credits = left i; staked_credits = right i }

  moved-moved : (d e : ℤ) (r : AgentRow F) → moved e (moved d r) ≡ moved (d +ℤ e) r
  moved-moved d e r =
      let left : r.available_credits +ℤ d +ℤ e ≡ r.available_credits +ℤ (d +ℤ e) = omega int_laws in
      let right : r.staked_credits +ℤ neg d +ℤ neg e ≡ r.staked_credits +ℤ neg (d +ℤ e) =
        omega int_laws in
      λ i. record r { available_credits = left i; staked_credits = right i }

  status-agent :
      (h : Text) (s : Status) (db : Db F)
      → get_agent a (set_hypothesis_status h s db) ≡ get_agent a db
  unfolding get_agent set_hypothesis_status
  status-agent h s db = refl

  one_refund :
      (row : ForecastRow F) (db : Db F) (r : AgentRow F)
      → get_agent a db ≡ some r
      → get_agent a (adjust_agent_credits row.agent_id row.stake (neg row.stake) db)
        ≡ some (if text_eq row.agent_id a then moved row.stake r else r)
  one_refund row db r g = elim (Bool-cases (text_eq row.agent_id a)) [
    | inl mine ↦
        let same : a ≡ row.agent_id = sym ((text_eq_iff row.agent_id a).0 mine) in
        rw mine (
          ap (λ b. get_agent b (adjust_agent_credits row.agent_id row.stake (neg row.stake) db))
            same
          ∙ get_agent-adjust row.agent_id row.stake (neg row.stake) db
              (ap (λ b. get_agent b db) (sym same) ∙ g))
    | inr other ↦ rw other (
        get_agent-adjust_other row.agent_id a row.stake (neg row.stake) db
          (λ same. ground (arith, other, text_eq_iff row.agent_id a, sym same))
        ∙ g)
  ]

  refund_all-refunds :
      (rows : List (ForecastRow F)) (db : Db F) (r : AgentRow F)
      → get_agent a db ≡ some r
      → get_agent a (refund_all rows db) ≡ some (moved (staked_in rows) r)
  unfolding refund_all staked_in
  refund_all-refunds [] db r g = g ∙ ap some (sym (moved-none r))
  refund_all-refunds (row ∷ rows) db r g =
      let db1 = adjust_agent_credits row.agent_id row.stake (neg row.stake) db in
      let next = if text_eq row.agent_id a then moved row.stake r else r in
      refund_all-refunds rows db1 next (one_refund row db r g)
      ∙ ap some (elim (Bool-cases (text_eq row.agent_id a)) [
        | inl mine ↦ rw mine (moved-moved row.stake (staked_in rows) r)
        | inr other ↦ rw other refl
      ])

  same_stakes :
      (hs : List (HypothesisRow F)) (db db' : Db F)
      → db'.forecasts ≡ db.forecasts
      → staked_on hs db' ≡ staked_on hs db
  unfolding staked_on list_forecasts_for_hypothesis
  same_stakes [] db db' same = refl
  same_stakes (h ∷ hs) db db' same =
      let listed = λ (rows : List (ForecastRow F)). staked_in (
        sorted (λ a b. text_lt a.agent_id b.agent_id)
          (select (λ r. text_eq r.hypothesis_id h.id) rows)) in
      λ i. listed (same i) +ℤ same_stakes hs db db' same i

  expire_one-refunds :
      (h : HypothesisRow F) (db : Db F) (r : AgentRow F)
      → get_agent a db ≡ some r
      → get_agent a (expire_one h db)
        ≡ some (moved (staked_in (list_forecasts_for_hypothesis h.id db)) r)
  unfolding expire_one
  expire_one-refunds h db r g =
      let rows = list_forecasts_for_hypothesis h.id db in
      status-agent h.id expired (refund_all rows db) ∙ refund_all-refunds rows db r g

  expire_all-refunds :
      (hs : List (HypothesisRow F)) (db : Db F) (r : AgentRow F)
      → get_agent a db ≡ some r
      → get_agent a (expire_all hs db) ≡ some (moved (staked_on hs db) r)
  unfolding expire_all staked_on
  expire_all-refunds [] db r g = g ∙ ap some (sym (moved-none r))
  expire_all-refunds (h ∷ hs) db r g =
      let d = staked_in (list_forecasts_for_hypothesis h.id db) in
      let (_, _, forecasts, _, _) = expire_one-Kept h db in
      expire_all-refunds hs (expire_one h db) (moved d r) (expire_one-refunds h db r g)
      ∙ ap (λ e. some (moved e (moved d r))) (same_stakes hs db (expire_one h db) forecasts)
      ∙ ap some (moved-moved d (staked_on hs db) r)

  -- Expiry gives each agent back what it has staked on the overdue hypotheses: that much moves from
  -- its staked to its available credits, and nothing else of its row changes. No agent's credits in
  -- total and no reputation change, and neither the forecasts nor the settlements nor the outcomes.
  pub expire_overdue-refunds :
      (t : Text) (now_ms : ℤ) (db : Db F) (r : AgentRow F)
      → get_agent a db ≡ some r
      → let back = staked_on (list_expired_hypotheses t now_ms db) db in
        let db' = (expire_overdue_hypotheses t now_ms db).1 in
        (get_agent a db'
          ≡ some (record r {
            available_credits = r.available_credits +ℤ back;
            staked_credits = r.staked_credits +ℤ neg back;
          }))
        × Kept db db'
  unfolding expire_overdue_hypotheses
  expire_overdue-refunds t now_ms db r g = (
    expire_all-refunds (list_expired_hypotheses t now_ms db) db r g,
    expire_overdue-keeps t now_ms db,
  )
