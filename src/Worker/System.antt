-- ===== src/Worker/System.antt =====
-- The worker of src/stakeroute/worker/main.py as a whole: what may happen to its database, one commit
-- after another, in any order. What raises is rolled back, and so is no step. `reset_tenant`, which
-- the dashboard alone calls, starts a new history.
pub mod Stakes
pub mod Unrepeated
pub mod Settlements
pub mod Refunds
pub mod Agents
pub mod Invariant
use stakeroute.Prelude.{◌≡◌, Bool, ℤ, pos, ◌≤ℤ◌, Text, Result, ok}
use stakeroute.Float.{Float}
use stakeroute.Storage.Rows.{AgentRow, HypothesisRow, Db}
use stakeroute.Storage.Repository.{ensure_tenant, upsert_agent, upsert_hypothesis}
use stakeroute.Worker.Messages.{Message, ForecastBody, OutcomeBody}
use stakeroute.Worker.Consume.{consume_message, handle_signal}
use stakeroute.Worker.Forecasts.{handle_forecast_created}
use stakeroute.Worker.Runner.{handle_outcome_resolved, expire_overdue_hypotheses}
use stakeroute.Worker.Pipeline.{PassResults, run_ranking_pass}

-- `B` is what the payload of a signal is.
pub data Step {F : Type 0} ⦃f : Float F⦄ (B : Type 0) (db db' : Db F) : Type 0 where
  signal :
      (subject t : Text) (now_ms : ℤ) (m : Message B) (new : Bool)
      → consume_message subject t handle_signal now_ms m db ≡ ok (new, db')
      → Step B db db'
  forecast :
      (subject t : Text) (now_ms : ℤ) (m : Message (ForecastBody F)) (new : Bool)
      → consume_message subject t handle_forecast_created now_ms m db ≡ ok (new, db')
      → Step B db db'
  outcome :
      (subject t : Text) (now_ms : ℤ) (m : Message OutcomeBody) (new : Bool)
      → consume_message subject t handle_outcome_resolved now_ms m db ≡ ok (new, db')
      → Step B db db'
  expiry : (t : Text) (now_ms : ℤ) → (expire_overdue_hypotheses t now_ms db).1 ≡ db' → Step B db db'
  ranking :
      (t : Text) (budget decided_at_ms : ℤ) (results : PassResults F)
      → run_ranking_pass t budget decided_at_ms db ≡ ok (results, db')
      → Step B db db'
  tenant : (t : Text) → ensure_tenant t db ≡ db' → Step B db db'
  agent :
      (row : AgentRow F)
      → pos 0 ≤ℤ row.available_credits
      → upsert_agent row db ≡ ok db'
      → Step B db db'
  hypothesis : (row : HypothesisRow F) → upsert_hypothesis row db ≡ ok db' → Step B db db'

pub data Reach {F : Type 0} ⦃f : Float F⦄ (B : Type 0) (start : Db F) : Db F → Type 0 where
  here : Reach B start start
  next : {db db' : Db F} → Reach B start db → Step B db db' → Reach B start db'
