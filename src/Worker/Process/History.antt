-- ===== src/Worker/Process/History.antt =====
-- The worker process of src/stakeroute/worker/run_worker.py as a history of commits.
use stakeroute.Prelude.{
  ℕ, ◌≡◌, refl, sym, ap, ◌∙◌, ◌⊎◌, subst, inl, inr, Bool, true, false, ◌==◌, ◌&&◌, Option, none,
  some, List, [], ◌∷◌, ℤ, Text, codes, Result, ok, err, Error, Result-cases, Bool-cases, arith,
}
use stakeroute.Float.{Float}
use stakeroute.Storage.Rows.{Db}
use stakeroute.Worker.Messages.{Message, ForecastBody, OutcomeBody}
use stakeroute.Worker.Consume.{
  Run, drained, raised, counted, consume_message, consume_once, handle_signal,
}
use stakeroute.Worker.Forecasts.{handle_forecast_created}
use stakeroute.Worker.Runner.{handle_outcome_resolved}
use stakeroute.Worker.Pipeline.{run_ranking_pass}
use stakeroute.Worker.Updates.{HypothesisUpdate, hypothesis_updates}
use stakeroute.Worker.System.{Step, signal, forecast, outcome, ranking, Reach, here, next}
use stakeroute.Worker.Process.{
  attention_budget, round_db, send_all, publish_round, rank_and_publish, after_outcomes,
  worker_round,
}

module _ {F : Type 0} where
  abbrev pub run_db : {M : Type 0} → Run F M → Db F
  run_db (drained n db) = db
  run_db (raised e left db) = db

  run_db-counted : {M : Type 0} (new : Bool) (r : Run F M) → run_db (counted new r) ≡ run_db r
  run_db-counted false r = refl
  run_db-counted true (drained n db) = refl
  run_db-counted true (raised e left db) = refl

  pub Run-cases :
      {M : Type 0} (r : Run F M)
      → ((n : ℕ) × (r ≡ drained n (run_db r)))
        ⊎ ((e : Error) × (left : List (ℤ × Message M)) × (r ≡ raised e left (run_db r)))
  Run-cases (drained n db) = inl (n, refl)
  Run-cases (raised e left db) = inr (e, left, refl)

  publish_round-db :
      (applied resolved : ℕ) (out : List (HypothesisUpdate F) × Option Error) (db : Db F)
      → round_db (publish_round applied resolved out db) ≡ db
  publish_round-db applied resolved (sent, none) db = refl
  publish_round-db applied resolved (sent, some e) db = refl

module _ {F : Type 0} ⦃f : Float F⦄ (B : Type 0) where
  pub Reach-trans : {a b c : Db F} → Reach B a b → Reach B b c → Reach B a c
  Reach-trans r here = r
  Reach-trans r (next s step) = next (Reach-trans r s) step

  pub one-Step : {a b : Db F} → Step B a b → Reach B a b
  one-Step step = next here step

  consumed :
      {M : Type 0} (subject t : Text) (handler : Text → Message M → Db F → Result (Db F))
      (now_ms : ℤ) (m : Message M) (ms : List (ℤ × Message M)) (db db1 : Db F) (new : Bool)
      → consume_message subject t handler now_ms m db ≡ ok (new, db1)
      → consume_once subject t handler ((now_ms, m) ∷ ms) db
        ≡ counted new (consume_once subject t handler ms db1)
  unfolding consume_once
  consumed subject t handler now_ms m ms db db1 new e = ground (arith, e)

  stopped :
      {M : Type 0} (subject t : Text) (handler : Text → Message M → Db F → Result (Db F))
      (now_ms : ℤ) (m : Message M) (ms : List (ℤ × Message M)) (db : Db F) (e : Error)
      → consume_message subject t handler now_ms m db ≡ err e
      → consume_once subject t handler ((now_ms, m) ∷ ms) db ≡ raised e ((now_ms, m) ∷ ms) db
  unfolding consume_once
  stopped subject t handler now_ms m ms db e why = ground (arith, why)

  -- A run of the loop is a history, one step for each message that is committed.
  consume_once-Reach :
      {M : Type 0} (subject t : Text) (handler : Text → Message M → Db F → Result (Db F))
      → ((now_ms : ℤ) (m : Message M) (db db' : Db F) (new : Bool)
          → consume_message subject t handler now_ms m db ≡ ok (new, db')
          → Step B db db')
      → (ms : List (ℤ × Message M)) (db : Db F)
      → Reach B db (run_db (consume_once subject t handler ms db))
  unfolding consume_once
  consume_once-Reach subject t handler step [] db = here
  consume_once-Reach subject t handler step ((now_ms, m) ∷ ms) db =
      elim (Result-cases (consume_message subject t handler now_ms m db)) [
        | inl ((new, db1), e) ↦
            let rest = consume_once subject t handler ms db1 in
            let same =
              ap run_db (consumed subject t handler now_ms m ms db db1 new e)
              ∙ run_db-counted new rest in
            subst (Reach B db) (sym same) (
              Reach-trans (one-Step (step now_ms m db db1 new e))
                (consume_once-Reach subject t handler step ms db1))
        | inr (e, why) ↦
            subst (Reach B db) (sym (ap run_db (stopped subject t handler now_ms m ms db e why)))
              here
      ]

  signals-Reach :
      (subject t : Text) (ms : List (ℤ × Message B)) (db : Db F)
      → Reach B db (run_db (consume_once subject t handle_signal ms db))
  signals-Reach subject t =
      consume_once-Reach subject t handle_signal
        (λ now_ms m db db' new e. signal subject t now_ms m new e)

  forecasts-Reach :
      (subject t : Text) (ms : List (ℤ × Message (ForecastBody F))) (db : Db F)
      → Reach B db (run_db (consume_once subject t handle_forecast_created ms db))
  forecasts-Reach subject t =
      consume_once-Reach subject t handle_forecast_created
        (λ now_ms m db db' new e. forecast subject t now_ms m new e)

  outcomes-Reach :
      (subject t : Text) (ms : List (ℤ × Message OutcomeBody)) (db : Db F)
      → Reach B db (run_db (consume_once subject t handle_outcome_resolved ms db))
  outcomes-Reach subject t =
      consume_once-Reach subject t handle_outcome_resolved
        (λ now_ms m db db' new e. outcome subject t now_ms m new e)

module _ {F : Type 0} ⦃f : Float F⦄ (B : Type 0)
    (event_id : (tenant_id source source_event_id : Text) (emitted_at_ms : ℤ) → Text)
    (send : HypothesisUpdate F → Result (Unit {0})) (t : Text) (now_ms : ℤ) where
  rank_and_publish-Reach :
      (applied resolved : ℕ) (db : Db F)
      → Reach B db (round_db (rank_and_publish event_id send t now_ms applied resolved db))
  unfolding rank_and_publish
  rank_and_publish-Reach applied resolved db =
      elim (Result-cases (run_ranking_pass t attention_budget now_ms db)) [
        | inl ((results, db'), e) ↦
            let out = send_all send (hypothesis_updates event_id t now_ms results) in
            let same : round_db (rank_and_publish event_id send t now_ms applied resolved db)
                ≡ db' =
              ground (arith, e, publish_round-db applied resolved out db') in
            subst (Reach B db) (sym same) (one-Step B (ranking t attention_budget now_ms results e))
        | inr (e, why) ↦
            let same : round_db (rank_and_publish event_id send t now_ms applied resolved db) ≡ db =
              ground (arith, why) in
            subst (Reach B db) (sym same) here
      ]

  after_outcomes-Reach :
      (applied resolved : ℕ) (db : Db F)
      → Reach B db (round_db (after_outcomes event_id send t now_ms applied resolved db))
  unfolding after_outcomes
  after_outcomes-Reach applied resolved db = elim (Bool-cases (applied == 0 && resolved == 0)) [
    | inl idle ↦ rw (idle, round_db) here
    | inr busy ↦ rw busy (rank_and_publish-Reach applied resolved db)
  ]

  -- A round of the worker, whether it finishes or raises, is a history of commits.
  pub worker_round-Reach :
      (signals : List (ℤ × Message B)) (forecasts : List (ℤ × Message (ForecastBody F)))
      (outcomes : List (ℤ × Message OutcomeBody)) (db : Db F)
      → Reach B db (round_db (worker_round event_id send t now_ms signals forecasts outcomes db))
  unfolding worker_round
  worker_round-Reach signals forecasts outcomes db =
      let end = round_db (worker_round event_id send t now_ms signals forecasts outcomes db) in
      let run1 = consume_once (codes "signals.raw") t handle_signal signals db in
      let db1 = run_db run1 in
      let run2 = consume_once (codes "forecasts.created") t handle_forecast_created forecasts db1 in
      let db2 = run_db run2 in
      let run3 = consume_once (codes "outcomes.resolved") t handle_outcome_resolved outcomes db2 in
      let db3 = run_db run3 in
      let to1 = signals-Reach B (codes "signals.raw") t signals db in
      let to2 = Reach-trans B to1 (forecasts-Reach B (codes "forecasts.created") t forecasts db1) in
      let to3 = Reach-trans B to2 (outcomes-Reach B (codes "outcomes.resolved") t outcomes db2) in
      elim (Run-cases run1) [
        | inr (e, left, e1) ↦
            let same : end ≡ db1 = ground (arith, e1) in subst (Reach B db) (sym same) to1
        | inl (noted, e1) ↦ elim (Run-cases run2) [
          | inr (e, left, e2) ↦
              let same : end ≡ db2 = ground (arith, e1, e2) in subst (Reach B db) (sym same) to2
          | inl (applied, e2) ↦ elim (Run-cases run3) [
            | inr (e, left, e3) ↦
                let same : end ≡ db3 = ground (arith, e1, e2, e3) in
                subst (Reach B db) (sym same) to3
            | inl (resolved, e3) ↦
                let same : end
                    ≡ round_db (after_outcomes event_id send t now_ms applied resolved db3) =
                  ground (arith, e1, e2, e3) in
                subst (Reach B db) (sym same)
                  (Reach-trans B to3 (after_outcomes-Reach applied resolved db3))
          ]
        ]
      ]
