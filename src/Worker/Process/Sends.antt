-- ===== src/Worker/Process/Sends.antt =====
-- What a round of src/stakeroute/worker/run_worker.py sends.
use stakeroute.Prelude.{
  ℕ, ◌≡◌, refl, sym, ap, subst, ◌∙◌, inl, inr, false, ◌==◌, ◌&&◌, Option, none, some, List, [], ◌∷◌,
  map, ℤ, Text, codes, Pairs, Result, Error, Result-cases, Bool-cases, arith,
}
use stakeroute.Float.{Float}
use stakeroute.Storage.Rows.{Db}
use stakeroute.Storage.Repository.{list_open_hypotheses}
use stakeroute.Worker.Messages.{Message, ForecastBody, OutcomeBody}
use stakeroute.Worker.Consume.{consume_once, handle_signal}
use stakeroute.Worker.Forecasts.{handle_forecast_created}
use stakeroute.Worker.Runner.{handle_outcome_resolved}
use stakeroute.Worker.Pipeline.{run_ranking_pass}
use stakeroute.Worker.Pipeline.Pass.{run_ranking_pass-effect}
use stakeroute.Worker.Updates.{HypothesisUpdate, hypothesis_updates}
use stakeroute.Worker.Updates.Named.{Unlike}
use stakeroute.Worker.Updates.Complete.{IsComplete, hypothesis_updates-IsComplete}
use stakeroute.Worker.Process.History.{run_db, Run-cases}
use stakeroute.Worker.Process.{
  attention_budget, finished, send_all, publish_round, rank_and_publish, after_outcomes,
  worker_round,
}

module _ {F : Type 0} where
  -- Without an exception everything is sent.
  send_all-all :
      (send : HypothesisUpdate F → Result (Unit {0})) (us : List (HypothesisUpdate F))
      → (send_all send us).1 ≡ none
      → (send_all send us).0 ≡ us
  unfolding send_all
  send_all-all send [] h = refl
  send_all-all send (u ∷ us) h = elim (Result-cases (send u)) [
    | inl (done, e) ↦ ground (arith, e, send_all-all send us)
    | inr (x, e) ↦ ground (arith, e)
  ]

  publish_round-finished :
      (applied resolved a r : ℕ) (out : List (HypothesisUpdate F) × Option Error)
      (sent : List (HypothesisUpdate F)) (db db' : Db F)
      → publish_round applied resolved out db ≡ finished a r sent db'
      → (out.1 ≡ none) × (out.0 ≡ sent) × (db ≡ db')
  publish_round-finished applied resolved a r (us, none) sent db db' h = (refl, cc, cc)
  publish_round-finished applied resolved a r (us, some e) sent db db' h = cc

  same_open :
      (t : Text) (db db' : Db F)
      → db'.hypotheses ≡ db.hypotheses
      → list_open_hypotheses t db' ≡ list_open_hypotheses t db
  unfolding list_open_hypotheses
  same_open t db db' same = rw same refl

module _ {F : Type 0} ⦃f : Float F⦄
    (event_id : (tenant_id source source_event_id : Text) (emitted_at_ms : ℤ) → Text)
    (send : HypothesisUpdate F → Result (Unit {0})) (t : Text) (now_ms : ℤ) where
  abbrev pub Sent : List (HypothesisUpdate F) → Db F → Type 0
  Sent sent db = IsComplete (map (λ h. h.id) (list_open_hypotheses t db)) sent

  abbrev pub DistinctIds : Db F → Type 0
  DistinctIds db = Pairs Unlike (map (λ h. h.id) (list_open_hypotheses t db))

  rank_and_publish-Sent :
      (applied resolved a r : ℕ) (sent : List (HypothesisUpdate F)) (db db' : Db F)
      → rank_and_publish event_id send t now_ms applied resolved db ≡ finished a r sent db'
      → DistinctIds db'
      → Sent sent db'
  unfolding rank_and_publish
  rank_and_publish-Sent applied resolved a r sent db db' h unlike =
      elim (Result-cases (run_ranking_pass t attention_budget now_ms db)) [
        | inr (e, why) ↦ ground (arith, why)
        | inl ((results, db1), e) ↦
            let us = hypothesis_updates event_id t now_ms results in
            let (clean, all, same) =
              publish_round-finished applied resolved a r (send_all send us) sent db1 db'
                (ground (arith, e)) in
            let (_, _, _, pass, _, _, _) =
              run_ranking_pass-effect t attention_budget now_ms db db1 results e in
            let hyps : db'.hypotheses ≡ db.hypotheses =
              ap (λ (d : Db F). d.hypotheses) (sym same) ∙ ap (λ (d : Db F). d.hypotheses) pass in
            let open_same = same_open t db db' hyps in
            let every : us ≡ sent = sym (send_all-all send us clean) ∙ all in
            let complete =
              hypothesis_updates-IsComplete event_id t attention_budget now_ms db db1 results
                (subst (λ hs. Pairs Unlike (map (λ h. h.id) hs)) open_same unlike) e in
            subst (λ l. Sent l db') every
              (subst (λ hs. IsComplete (map (λ h. h.id) hs) us) (sym open_same) complete)
      ]

  -- A round that finishes and has applied a forecast or an outcome has sent exactly one update for
  -- each hypothesis that is open when it ends, each with the entries of all three strategies, if the
  -- ids of those hypotheses are different.
  pub worker_round-Sent :
      {B : Type 0} (signals : List (ℤ × Message B))
      (forecasts : List (ℤ × Message (ForecastBody F))) (outcomes : List (ℤ × Message OutcomeBody))
      (db db' : Db F) (applied resolved : ℕ) (sent : List (HypothesisUpdate F))
      → worker_round event_id send t now_ms signals forecasts outcomes db
        ≡ finished applied resolved sent db'
      → (applied == 0 && resolved == 0) ≡ false
      → DistinctIds db'
      → Sent sent db'
  unfolding worker_round after_outcomes
  worker_round-Sent signals forecasts outcomes db db' applied resolved sent h busy unlike =
      let run1 = consume_once (codes "signals.raw") t handle_signal signals db in
      let db1 = run_db run1 in
      let run2 = consume_once (codes "forecasts.created") t handle_forecast_created forecasts db1 in
      let db2 = run_db run2 in
      let run3 = consume_once (codes "outcomes.resolved") t handle_outcome_resolved outcomes db2 in
      let db3 = run_db run3 in
      elim (Run-cases run1) [
        | inr (e, left, e1) ↦ ground (arith, e1)
        | inl (noted, e1) ↦ elim (Run-cases run2) [
          | inr (e, left, e2) ↦ ground (arith, e1, e2)
          | inl (n, e2) ↦ elim (Run-cases run3) [
            | inr (e, left, e3) ↦ ground (arith, e1, e2, e3)
            | inl (k, e3) ↦ elim (Bool-cases (n == 0 && k == 0)) [
              | inl idle ↦ ground (arith, e1, e2, e3)
              | inr some_applied ↦
                  rank_and_publish-Sent n k applied resolved sent db3 db'
                    (ground (arith, e1, e2, e3)) unlike
            ]
          ]
        ]
      ]
