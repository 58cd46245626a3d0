-- ===== src/Worker/System/Invariant.antt =====
-- What every history of the worker of src/stakeroute/worker keeps.
use stakeroute.Prelude.{
  ◌≡◌, sym, ap, subst, inl, inr, Bool, true, false, ℤ, pos, ◌≤ℤ◌, Text, Result, ok, bind-eq-ok,
  ok-inj, Bool-cases, All, arith,
}
use stakeroute.Float.{Float}
use stakeroute.Storage.Rows.{AgentRow, HypothesisRow, EventRow, Db}
use stakeroute.Storage.Repository.{insert_event, ensure_tenant, upsert_agent, upsert_hypothesis}
use stakeroute.Storage.Queries.{duplicate_settlement_count}
use stakeroute.Storage.Ledger.Gains.{Solvent, Gains-same_agents, Gains-Solvent}
use stakeroute.Worker.Messages.{Message, ForecastBody, OutcomeBody}
use stakeroute.Worker.Forecasts.{handle_forecast_created}
use stakeroute.Worker.Consume.{event_row, consume_message, handle_signal}
use stakeroute.Worker.Forecasts.Solvent.{handle_forecast_created-Solvent}
use stakeroute.Worker.Runner.Settled.{handle_outcome_resolved-Solvent}
use stakeroute.Worker.Runner.Expired.{expire_overdue-keeps}
use stakeroute.Worker.Runner.{handle_outcome_resolved, expire_overdue_hypotheses}
use stakeroute.Worker.Pipeline.{PassResults, run_ranking_pass}
use stakeroute.Worker.Pipeline.Pass.{run_ranking_pass-effect}
use stakeroute.Worker.System.Stakes.{HasLimits, Limited, handle_forecast_created-KeepsStakes}
use stakeroute.Worker.System.Settlements.{handle_outcome_resolved-Settles}
use stakeroute.Worker.System.Unrepeated.{Unrepeated, Unrepeated-duplicates}
use stakeroute.Worker.System.Refunds.{expire_overdue-Gains}
use stakeroute.Worker.System.Agents.{upsert_agent-tables, upsert_agent-Solvent}
use stakeroute.Worker.System.{
  Step, signal, forecast, outcome, expiry, ranking, tenant, agent, hypothesis, Reach, here, next,
}

module _ {F : Type 0} where
  -- No agent has negative available credits, every stake that is stored is within the limits, and no
  -- forecast has two settlements.
  abbrev pub Sound : Db F → Type 0
  Sound db = Solvent db × Limited db × Unrepeated db.settlements

  -- the tables that `Sound` reads
  abbrev SameBooks : Db F → Db F → Type 0
  SameBooks db db' =
      (db'.agents ≡ db.agents) × (db'.forecasts ≡ db.forecasts) × (db'.settlements ≡ db.settlements)

  SameBooks-Sound : (db db' : Db F) → SameBooks db db' → Sound db → Sound db'
  SameBooks-Sound db db' (agents, fs, ss) (solvent, limited, unique) = (
    Gains-Solvent db db' (Gains-same_agents db db' agents) solvent,
    subst (All HasLimits) (sym fs) limited,
    subst Unrepeated (sym ss) unique,
  )

  insert_event-books :
      (row : EventRow) (db : Db F) (r : Bool × Db F) → insert_event row db ≡ ok r → SameBooks db r.1
  unfolding insert_event
  insert_event-books row db r h = (ground arith, ground arith, ground arith)

  ensure_tenant-books : (t : Text) (db : Db F) → SameBooks db (ensure_tenant t db)
  unfolding ensure_tenant
  ensure_tenant-books t db = (ground arith, ground arith, ground arith)

  upsert_hypothesis-books :
      (row : HypothesisRow F) (db db' : Db F) → upsert_hypothesis row db ≡ ok db' → SameBooks db db'
  unfolding upsert_hypothesis
  upsert_hypothesis-books row db db' h = (ground arith, ground arith, ground arith)

  -- A message changes what its handler changes.
  consume-Sound :
      {B : Type 0} (subject t : Text) (handler : Text → Message B → Db F → Result (Db F))
      → ((m : Message B) (db db' : Db F) → handler t m db ≡ ok db' → Sound db → Sound db')
      → (now_ms : ℤ) (m : Message B) (db db' : Db F) (new : Bool)
      → consume_message subject t handler now_ms m db ≡ ok (new, db')
      → Sound db
      → Sound db'
  unfolding consume_message
  consume-Sound subject t handler step now_ms m db db' new h sound =
      let (r, hr, h1) = bind-eq-ok (insert_event (event_row subject t now_ms m) db) _ h in
      let sound1 =
        SameBooks-Sound db r.1 (insert_event-books (event_row subject t now_ms m) db r hr) sound in
      elim (Bool-cases r.0) [
        | inl fresh ↦
            let (db1, h2, e) =
              bind-eq-ok (handler t m r.1) (λ d. ok (true, d)) {b = (new, db')} (ground arith) in
            subst Sound (ap (λ (x : Bool × Db F). x.1) (ok-inj e)) (step m r.1 db1 h2 sound1)
        | inr seen ↦
            subst Sound
              (ap (λ (x : Bool × Db F). x.1)
                (ok-inj {v = (false, r.1)} {w = (new, db')} (ground arith)))
              sound1
      ]

  handle_signal-Sound :
      {B : Type 0} (t : Text) (m : Message B) (db db' : Db F)
      → handle_signal t m db ≡ ok db'
      → Sound db
      → Sound db'
  unfolding handle_signal
  handle_signal-Sound t m db db' h sound = subst Sound (ok-inj h) sound

  expire_overdue-Sound :
      (t : Text) (now_ms : ℤ) (db : Db F)
      → Sound db
      → Sound (expire_overdue_hypotheses t now_ms db).1
  expire_overdue-Sound t now_ms db (solvent, limited, unique) =
      let db' = (expire_overdue_hypotheses t now_ms db).1 in
      let (_, _, fs, ss, _) = expire_overdue-keeps t now_ms db in
      (
        Gains-Solvent db db' (expire_overdue-Gains t now_ms db limited) solvent,
        subst (All HasLimits) (sym fs) limited,
        subst Unrepeated (sym ss) unique,
      )

  upsert_agent-Sound :
      (row : AgentRow F) (db db' : Db F)
      → pos 0 ≤ℤ row.available_credits
      → upsert_agent row db ≡ ok db'
      → Sound db
      → Sound db'
  upsert_agent-Sound row db db' up h (solvent, limited, unique) =
      let (fs, ss) = upsert_agent-tables row db db' h in
      (
        upsert_agent-Solvent row db db' up h solvent,
        subst (All HasLimits) (sym fs) limited,
        subst Unrepeated (sym ss) unique,
      )

module _ {F : Type 0} ⦃f : Float F⦄ where
  handle_forecast_created-Sound :
      (t : Text) (m : Message (ForecastBody F)) (db db' : Db F)
      → handle_forecast_created t m db ≡ ok db'
      → Sound db
      → Sound db'
  handle_forecast_created-Sound t m db db' h (solvent, limited, unique) =
      let (keeps, ss) = handle_forecast_created-KeepsStakes t m db db' h in
      (
        handle_forecast_created-Solvent t m db db' solvent h,
        keeps limited,
        subst Unrepeated (sym ss) unique,
      )

  handle_outcome_resolved-Sound :
      (t : Text) (m : Message OutcomeBody) (db db' : Db F)
      → handle_outcome_resolved t m db ≡ ok db'
      → Sound db
      → Sound db'
  handle_outcome_resolved-Sound t m db db' h (solvent, limited, unique) =
      let (fs, still) = handle_outcome_resolved-Settles t m db db' h in
      (
        handle_outcome_resolved-Solvent t m db db' solvent h,
        subst (All HasLimits) (sym fs) limited,
        still unique,
      )

  run_ranking_pass-Sound :
      (t : Text) (budget ms : ℤ) (db db' : Db F) (results : PassResults F)
      → run_ranking_pass t budget ms db ≡ ok (results, db')
      → Sound db
      → Sound db'
  run_ranking_pass-Sound t budget ms db db' results h sound =
      let (_, _, _, same, _, _, _) = run_ranking_pass-effect t budget ms db db' results h in
      let books : SameBooks db db' = (
        ap (λ (d : Db F). d.agents) same,
        ap (λ (d : Db F). d.forecasts) same,
        ap (λ (d : Db F). d.settlements) same,
      ) in
      SameBooks-Sound db db' books sound

module _ {F : Type 0} ⦃f : Float F⦄ {B : Type 0} where
  Step-Sound : {db db' : Db F} → Step B db db' → Sound db → Sound db'
  Step-Sound {db} {db'} (signal subject t now_ms m new h) sound =
      consume-Sound subject t handle_signal (handle_signal-Sound t) now_ms m db db' new h sound
  Step-Sound {db} {db'} (forecast subject t now_ms m new h) sound =
      consume-Sound subject t handle_forecast_created (handle_forecast_created-Sound t) now_ms m db
        db' new h sound
  Step-Sound {db} {db'} (outcome subject t now_ms m new h) sound =
      consume-Sound subject t handle_outcome_resolved (handle_outcome_resolved-Sound t) now_ms m db
        db' new h sound
  Step-Sound {db} {db'} (expiry t now_ms h) sound =
      subst Sound h (expire_overdue-Sound t now_ms db sound)
  Step-Sound {db} {db'} (ranking t budget ms results h) sound =
      run_ranking_pass-Sound t budget ms db db' results h sound
  Step-Sound {db} {db'} (tenant t h) sound =
      subst Sound h (SameBooks-Sound db (ensure_tenant t db) (ensure_tenant-books t db) sound)
  Step-Sound {db} {db'} (agent row up h) sound = upsert_agent-Sound row db db' up h sound
  Step-Sound {db} {db'} (hypothesis row h) sound =
      SameBooks-Sound db db' (upsert_hypothesis-books row db db' h) sound

  -- From a sound database, whatever the worker does next and in whatever order, with messages that
  -- are delivered again, late or not at all: the database stays sound, that is, no agent has negative
  -- available credits, every stored stake is within the limits, and no forecast has two settlements,
  -- so that the count of duplicate settlements is 0.
  pub Reach-Sound :
      (start db : Db F)
      → Sound start
      → Reach B start db
      → Sound db × (duplicate_settlement_count db ≡ 0)
  Reach-Sound start db sound here = (sound, Unrepeated-duplicates start sound.2)
  Reach-Sound start db sound (next {db = middle} reached step) =
      let (before, _) = Reach-Sound start middle sound reached in
      let after = Step-Sound step before in (after, Unrepeated-duplicates db after.2)
