-- ===== src/Tests/Forecasts.antt =====
-- Forecasts, on the example's database.
use stakeroute.Core.Types.{clamp_probability}
use stakeroute.Prelude.{◌≡◌, ◌≢◌, refl, ◌⊎◌, ok, text_eq, neg, ◌+ℤ◌, codes, arith}
use stakeroute.Float.Fixed.{Fixed, fixed_float}
use stakeroute.Storage.Rows.{Db}
use stakeroute.Storage.Tables.{fetch, exists, append_row}
use stakeroute.Storage.Repository.{
  fits_64, get_agent, get_live_forecast, ensure_evidence_cluster, insert_forecast, replace_forecast,
  upsert_forecast, adjust_agent_credits,
}
use stakeroute.Storage.Ledger.Gains.{Solvent}
use stakeroute.Worker.Forecasts.{release, accept, handle_known, handle_forecast_created}
use stakeroute.Worker.Forecasts.Accepted.{Rejected, Accepted, handle_forecast_created-effect}
use stakeroute.Worker.Forecasts.Total.{handle_forecast_created-returns}
use stakeroute.Worker.Forecasts.Solvent.{
  handle_forecast_created-Solvent, handle_forecast_created-others,
}
use stakeroute.Tests.Data.{acme, ann, start, bid, returned}

abbrev pub booked : Db Fixed
booked = returned start (handle_forecast_created acme bid start)

pub bid-booked : handle_forecast_created acme bid start ≡ ok booked
unfolding handle_forecast_created handle_known accept ensure_evidence_cluster upsert_forecast
    replace_forecast insert_forecast get_agent get_live_forecast adjust_agent_credits release fetch
    exists append_row text_eq ◌+ℤ◌ clamp_probability
bid-booked = refl

handle_forecast_created-effect_example :
    Rejected acme bid start booked ⊎ Accepted acme bid start booked
handle_forecast_created-effect_example =
    handle_forecast_created-effect acme bid start booked bid-booked

handle_forecast_created-returns_example :
    (db' : Db Fixed) × (handle_forecast_created acme bid start ≡ ok db')
unfolding exists text_eq get_live_forecast fetch fits_64 neg clamp_probability
handle_forecast_created-returns_example =
    handle_forecast_created-returns acme bid start refl refl refl refl refl refl

bob-apart : codes "b" ≢ ann
bob-apart e = absurd (ground (arith, e))

handle_forecast_created-others_example : get_agent (codes "b") booked ≡ get_agent (codes "b") start
handle_forecast_created-others_example =
    handle_forecast_created-others acme bid (codes "b") start booked bob-apart bid-booked

pub start-Solvent : Solvent start
unfolding get_agent fetch
start-Solvent b r h = ground arith

handle_forecast_created-Solvent_example : Solvent booked
handle_forecast_created-Solvent_example =
    handle_forecast_created-Solvent acme bid start booked start-Solvent bid-booked
