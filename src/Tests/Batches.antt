-- ===== src/Tests/Batches.antt =====
-- Batches of messages, delivered again and cut short.
use stakeroute.Core.Types.{clamp_probability}
use stakeroute.Prelude.{
  Bool, Result, ℕ, ◌≡◌, refl, ◌∷◌, ◌++◌, [], List, ℤ, true, false, pos, ok, integrity_error,
  text_eq, ◌+ℤ◌, neg, codes,
}
use stakeroute.Float.Fixed.{Fixed, fixed_float}
use stakeroute.Storage.Rows.{Db}
use stakeroute.Storage.Tables.{fetch, exists, update, append_row}
use stakeroute.Storage.Repository.{
  insert_event, get_agent, get_live_forecast, ensure_evidence_cluster, insert_forecast,
  replace_forecast, upsert_forecast, adjust_agent_credits,
}
use stakeroute.Worker.Messages.{Message, ForecastBody}
use stakeroute.Worker.Forecasts.{
  forecast_key, release, accept, handle_known, handle_forecast_created,
}
use stakeroute.Worker.Consume.{Run, drained, raised, consume_message, consume_once}
use stakeroute.Worker.Consume.Redelivery.{consume_message-twice}
use stakeroute.Worker.Consume.Crash.{consume_once-crash, consume_once-again}
use stakeroute.Worker.Consume.Handlers.{handle_forecast_created-KeepsEvents}
use stakeroute.Tests.Data.{acme, start, bid, returned}

abbrev pub subject : List ℕ
subject = codes "forecasts.created"

-- A forecast on a hypothesis that is not there.
abbrev stray : Message (ForecastBody Fixed)
stray = record bid { event_id = codes "e3"; body = record bid.body { hypothesis_id = codes "z" } }

abbrev handle : ℤ → Message (ForecastBody Fixed) → Db Fixed → Result (Bool × Db Fixed)
handle = consume_message subject acme handle_forecast_created

abbrev go : List (ℤ × Message (ForecastBody Fixed)) → Db Fixed → Run Fixed (ForecastBody Fixed)
go = consume_once subject acme handle_forecast_created

abbrev pub once : Db Fixed
once = (returned (false, start) (handle (pos 7) bid start)).1

pub bid-consumed : handle (pos 7) bid start ≡ ok (true, once)
unfolding consume_message insert_event handle_forecast_created handle_known accept
    ensure_evidence_cluster upsert_forecast replace_forecast insert_forecast get_agent
    get_live_forecast adjust_agent_credits release fetch exists append_row text_eq ◌+ℤ◌
    clamp_probability
bid-consumed = refl

consume_message-twice_example : handle (pos 8) bid once ≡ ok (false, once)
consume_message-twice_example =
    consume_message-twice subject acme handle_forecast_created handle_forecast_created-KeepsEvents
      (pos 7) (pos 8) bid bid start once true bid-consumed refl

abbrev batch : List (ℤ × Message (ForecastBody Fixed))
batch = (pos 7, bid) ∷ (pos 8, stray) ∷ []

batch-raised : go batch start ≡ raised integrity_error ((pos 8, stray) ∷ []) once
unfolding consume_once consume_message insert_event handle_forecast_created handle_known accept
    ensure_evidence_cluster upsert_forecast replace_forecast insert_forecast get_agent
    get_live_forecast adjust_agent_credits release fetch exists append_row text_eq ◌+ℤ◌ update neg
    forecast_key clamp_probability
batch-raised = refl

consume_once-crash_example :
    (done : List (ℤ × Message (ForecastBody Fixed))) × (n : ℕ) × (batch
      ≡ done ++ ((pos 8, stray) ∷ []))
    × (go done start ≡ drained n once)
    × (go batch once ≡ go ((pos 8, stray) ∷ []) once)
consume_once-crash_example =
    consume_once-crash subject acme handle_forecast_created handle_forecast_created-KeepsEvents
      batch ((pos 8, stray) ∷ []) start once integrity_error batch-raised

abbrev pub pair : List (ℤ × Message (ForecastBody Fixed))
pair = (pos 7, bid) ∷ (pos 8, bid) ∷ []

pair-drained : go pair start ≡ drained 1 once
unfolding consume_once consume_message insert_event handle_forecast_created handle_known accept
    ensure_evidence_cluster upsert_forecast replace_forecast insert_forecast get_agent
    get_live_forecast adjust_agent_credits release fetch exists append_row text_eq ◌+ℤ◌
    clamp_probability
pair-drained = refl

consume_once-again_test : go pair once ≡ drained 0 once
consume_once-again_test =
    consume_once-again subject acme handle_forecast_created handle_forecast_created-KeepsEvents pair
      start once 1 pair-drained
