-- ===== src/Worker/Messages.antt =====
-- The messages of src/stakeroute/worker/main.py, as their JSON is read. A key that the code reads
-- with a default is optional.
use stakeroute.Prelude.{Option, none, some, List, ℤ, pos, Text}

pub record Message (B : Type 0) : Type 0 where
  pub event_id : Text
  pub tenant_id : Option Text
  pub emitted_at_ms : Option ℤ
  pub source_event_id : Option Text
  pub provenance : Option Text
  pub raw : Text
  pub body : B

pub record ForecastBody (F : Type 0) : Type 0 where
  pub hypothesis_id : Text
  pub agent_id : Text
  pub stake : ℤ
  pub probability : F
  pub evidence_cluster_id : Text
  pub evidence_refs : List Text
  pub expires_at_ms : Option ℤ

pub record OutcomeBody : Type 0 where
  pub hypothesis_id : Text
  pub outcome : ℤ
  pub resolved_by : Option Text

-- `payload.get(key, default)`
abbrev pub get_or : {A : Type 0} → Option A → A → A
get_or none d = d
get_or (some a) d = a

abbrev pub emitted : {B : Type 0} → Message B → ℤ
emitted m = get_or m.emitted_at_ms (pos 0)
