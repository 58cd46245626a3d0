-- ===== src/Worker/Process/Life.antt =====
-- The worker process of src/stakeroute/worker/run_worker.py with its restarts.
use stakeroute.Prelude.{
  ◌≡◌, refl, sym, subst, inl, inr, List, [], ◌∷◌, ℤ, Text, text_eq, Result, ok, bind-eq-ok, ok-inj,
  Result-cases, Bool-cases, arith,
}
use stakeroute.Float.{Float}
use stakeroute.Storage.Rows.{HypothesisRow, Db}
use stakeroute.Storage.Tables.{exists}
use stakeroute.Storage.Repository.{ensure_tenant, upsert_agent, upsert_hypothesis}
use stakeroute.Storage.Queries.{duplicate_settlement_count}
use stakeroute.Worker.Messages.{Message, ForecastBody, OutcomeBody}
use stakeroute.Worker.Updates.{HypothesisUpdate}
use stakeroute.Worker.System.{tenant, agent, hypothesis, Reach, here}
use stakeroute.Worker.System.Invariant.{Sound, Reach-Sound}
use stakeroute.Worker.Process.History.{Reach-trans, one-Step, worker_round-Reach}
use stakeroute.Simulator.{HypothesisSpec, AgentProfile}
use stakeroute.Worker.Process.{
  hypothesis_row, agent_row, seed_hypotheses, seed_agents, seed_world, worker_start, Process,
  running, stopped, process_db, Round, finished, failed, round_db, worker_round,
}

module _ {F : Type 0} ⦃f : Float F⦄ (B : Type 0) (t : Text) where
  seed_hypotheses-Reach :
      (specs : List (HypothesisSpec F)) (db db' : Db F)
      → seed_hypotheses t specs db ≡ ok db'
      → Reach B db db'
  unfolding seed_hypotheses
  seed_hypotheses-Reach [] db db' h = subst (Reach B db) (ok-inj h) here
  seed_hypotheses-Reach (spec ∷ specs) db db' h =
      let (db1, h1, h2) = bind-eq-ok (upsert_hypothesis (hypothesis_row t spec) db) _ h in
      Reach-trans B (one-Step B (hypothesis (hypothesis_row t spec) h1))
        (seed_hypotheses-Reach specs db1 db' h2)

  seed_agents-Reach :
      (now_ms : ℤ) (profiles : List (AgentProfile F)) (db db' : Db F)
      → seed_agents t now_ms profiles db ≡ ok db'
      → Reach B db db'
  unfolding seed_agents
  seed_agents-Reach now_ms [] db db' h = subst (Reach B db) (ok-inj h) here
  seed_agents-Reach now_ms (profile ∷ profiles) db db' h =
      let (db1, h1, h2) = bind-eq-ok (upsert_agent (agent_row t now_ms profile) db) _ h in
      Reach-trans B (one-Step B (agent (agent_row t now_ms profile) (omega arith) h1))
        (seed_agents-Reach now_ms profiles db1 db' h2)

  seed_world-Reach :
      (now_ms : ℤ) (specs : List (HypothesisSpec F)) (profiles : List (AgentProfile F))
      (db db' : Db F)
      → seed_world t now_ms specs profiles db ≡ ok db'
      → Reach B db db'
  unfolding seed_world
  seed_world-Reach now_ms specs profiles db db' h =
      elim (Bool-cases (exists (λ (r : HypothesisRow F). text_eq r.tenant_id t) db.hypotheses)) [
        | inl seeded ↦ subst (Reach B db) (ok-inj {v = db} {w = db'} (ground arith)) here
        | inr new ↦
            let (db1, h1, h2) =
              bind-eq-ok (seed_hypotheses t specs db) (seed_agents t now_ms profiles) {b = db'}
                (ground arith) in
            Reach-trans B (seed_hypotheses-Reach specs db db1 h1)
              (seed_agents-Reach now_ms profiles db1 db' h2)
      ]

  worker_start-Reach :
      (now_ms : ℤ) (specs : List (HypothesisSpec F)) (profiles : List (AgentProfile F)) (db : Db F)
      → Reach B db (process_db (worker_start t now_ms specs profiles db))
  unfolding worker_start
  worker_start-Reach now_ms specs profiles db =
      let known = ensure_tenant t db in
      let end = process_db (worker_start t now_ms specs profiles db) in
      let to_known : Reach B db known = one-Step B (tenant t refl) in
      elim (Result-cases (seed_world t now_ms specs profiles known)) [
        | inl (db', e) ↦
            let same : end ≡ db' = ground (arith, e) in
            subst (Reach B db) (sym same)
              (Reach-trans B to_known (seed_world-Reach now_ms specs profiles known db' e))
        | inr (e, why) ↦
            let same : end ≡ known = ground (arith, why) in subst (Reach B db) (sym same) to_known
      ]

-- What the transport, the clock and the generator of the scenario give: for one round, or for a
-- start of the process.
pub record Turn (F B : Type 0) : Type 0 where
  pub signals : List (ℤ × Message B)
  pub forecasts : List (ℤ × Message (ForecastBody F))
  pub outcomes : List (ℤ × Message OutcomeBody)
  pub now_ms : ℤ
  pub send : HypothesisUpdate F → Result (Unit {0})
  pub hypotheses : List (HypothesisSpec F)
  pub agents : List (AgentProfile F)

abbrev pub after_round : {F : Type 0} → Round F → Process F
after_round (finished applied resolved sent db) = running db
after_round (failed e sent db) = stopped db

after_round-db : {F : Type 0} (r : Round F) → process_db (after_round r) ≡ round_db r
after_round-db (finished applied resolved sent db) = refl
after_round-db (failed e sent db) = refl

module _ {F : Type 0} ⦃f : Float F⦄ {B : Type 0}
    (event_id : (tenant_id source source_event_id : Text) (emitted_at_ms : ℤ) → Text)
    (t : Text) where
  abbrev pub turn_round : Turn F B → Db F → Round F
  turn_round turn =
      worker_round event_id turn.send t turn.now_ms turn.signals turn.forecasts turn.outcomes

  -- A process that runs does a round; one that has stopped is started.
  abbrev pub worker_turn : Turn F B → Process F → Process F
  worker_turn turn (running db) = after_round (turn_round turn db)
  worker_turn turn (stopped db) = worker_start t turn.now_ms turn.hypotheses turn.agents db

  abbrev pub worker_life : List (Turn F B) → Process F → Process F
  worker_life [] p = p
  worker_life (turn ∷ turns) p = worker_life turns (worker_turn turn p)

  worker_turn-Reach :
      (turn : Turn F B) (p : Process F) → Reach B (process_db p) (process_db (worker_turn turn p))
  worker_turn-Reach turn (running db) =
      subst (Reach B db) (sym (after_round-db (turn_round turn db))) (
        worker_round-Reach B event_id turn.send t turn.now_ms turn.signals turn.forecasts
          turn.outcomes db)
  worker_turn-Reach turn (stopped db) =
      worker_start-Reach B t turn.now_ms turn.hypotheses turn.agents db

  worker_life-Reach :
      (turns : List (Turn F B)) (p : Process F)
      → Reach B (process_db p) (process_db (worker_life turns p))
  worker_life-Reach [] p = here
  worker_life-Reach (turn ∷ turns) p =
      Reach-trans B (worker_turn-Reach turn p) (worker_life-Reach turns (worker_turn turn p))

  -- A worker process on a sound database runs any number of rounds, each on whatever the transport
  -- delivers; when a round raises, the process ends, and it is started again, with whatever world.
  -- Then the database is sound: no agent has negative available credits, every stored stake is
  -- within the limits, and no forecast has two settlements, so `duplicate_settlement_count` is 0.
  pub worker_life-Sound :
      (turns : List (Turn F B)) (p : Process F)
      → Sound (process_db p)
      → let db' = process_db (worker_life turns p) in
        Sound db' × (duplicate_settlement_count db' ≡ 0)
  worker_life-Sound turns p sound =
      Reach-Sound (process_db p) (process_db (worker_life turns p)) sound
        (worker_life-Reach turns p)
