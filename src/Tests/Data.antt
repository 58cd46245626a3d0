-- ===== src/Tests/Data.antt =====
-- A small database: a tenant, two agents and an open hypothesis.
use stakeroute.Prelude.{true, none, some, [], ◌∷◌, pos, Text, codes, Result, ok, err}
use stakeroute.Float.Fixed.{Fixed}
use stakeroute.Storage.Rows.{opened, AgentRow, HypothesisRow, Db}
use stakeroute.Worker.Messages.{Message, ForecastBody, OutcomeBody}

abbrev pub acme : Text
acme = codes "t"

abbrev pub ann : Text
ann = codes "a"

abbrev pub outage : Text
outage = codes "h"

abbrev pub ann_row : AgentRow Fixed
ann_row = record {
  id = ann;
  tenant_id = acme;
  display_name = codes "Ann";
  reputation = pos 100;
  available_credits = pos 20;
  staked_credits = pos 0;
  attested = true;
  created_at_ms = pos 0;
}

abbrev pub bob_row : AgentRow Fixed
bob_row = record ann_row { id = codes "b"; available_credits = pos 3 }

abbrev pub outage_row : HypothesisRow Fixed
outage_row = record {
  id = outage;
  tenant_id = acme;
  statement = codes "s";
  prior_probability = pos 50;
  impact_minor_units = pos 100;
  urgency = pos 100;
  review_cost = pos 100;
  deadline_ms = pos 1000;
  status = opened;
  created_at_ms = pos 0;
}

abbrev pub start : Db Fixed
start = record {
  tenants = acme ∷ [];
  agents = ann_row ∷ bob_row ∷ [];
  events = [];
  clusters = [];
  hypotheses = outage_row ∷ [];
  forecasts = [];
  outcomes = [];
  settlements = [];
  rejected = [];
  decisions = [];
  epochs = [];
}

-- Ann's forecast, of 0.90 with 10 credits.
abbrev pub bid : Message (ForecastBody Fixed)
bid = record {
  event_id = codes "e1";
  tenant_id = none;
  emitted_at_ms = some (pos 5);
  source_event_id = none;
  provenance = none;
  raw = codes "{}";
  body = record {
    hypothesis_id = outage;
    agent_id = ann;
    stake = pos 10;
    probability = pos 90;
    evidence_cluster_id = codes "c";
    evidence_refs = [];
    expires_at_ms = none;
  };
}

-- The hypothesis turns out true.
abbrev pub verdict : Message OutcomeBody
verdict = record {
  event_id = codes "e2";
  tenant_id = none;
  emitted_at_ms = some (pos 9);
  source_event_id = none;
  provenance = none;
  raw = codes "{}";
  body = record { hypothesis_id = outage; outcome = pos 1; resolved_by = none };
}

-- What a computation returns, or else `d`.
abbrev pub returned : {A : Type 0} → A → Result A → A
returned d (ok a) = a
returned d (err e) = d
