-- ===== src/Worker/Consume.antt =====
-- `consume_once` of src/stakeroute/worker/main.py, and the transaction around a message. The
-- connection of storage/repository.py works on a copy that others do not see until `commit`, and
-- that is lost if the process dies.
pub mod Redelivery
pub mod Crash
pub mod Distinct
pub mod Invalid
pub mod Handlers
pub mod Outcomes
use stakeroute.Prelude.{
  ℕ, suc, ◌+◌, ◌≡◌, Bool, true, false, Option, none, some, List, [], ◌∷◌, ℤ, pos, Text, codes,
  Result, ok, err, Error, ◌>>=◌, if◌then◌else◌,
}
use stakeroute.Storage.Rows.{EventRow, Db}
use stakeroute.Storage.Repository.{insert_event}
use stakeroute.Worker.Messages.{Message, get_or, emitted}

-- What became of a batch of messages, each with the time at which it is handled: all are committed
-- and acknowledged, `applied` of them new; or one raises, which leaves the database as it was last
-- committed, and that message and those after it unacknowledged.
pub data Run (F B : Type 0) : Type 0 where
  drained : (applied : ℕ) → Db F → Run F B
  raised : Error → (unacknowledged : List (ℤ × Message B)) → Db F → Run F B

abbrev pub counted : {F B : Type 0} → Bool → Run F B → Run F B
counted false run = run
counted true (drained n db) = drained (n + 1) db
counted true (raised e ms db) = raised e ms db

module _ {B : Type 0} (subject tenant_id : Text) where
  -- `now_ms` is int(time.time() * 1000) as the message is handled.
  abbrev pub event_row : (now_ms : ℤ) → Message B → EventRow
  event_row now_ms m = record {
    event_id = m.event_id;
    tenant_id = get_or m.tenant_id tenant_id;
    source = subject;
    source_event_id = get_or m.source_event_id m.event_id;
    observed_at_ms = emitted m;
    ingested_at_ms = now_ms;
    provenance = get_or m.provenance (codes "{}");
    payload = m.raw;
  }

module _ {F B : Type 0} (subject tenant_id : Text)
    (handler : Text → Message B → Db F → Result (Db F)) where
  -- One round of the loop, up to the commit: whether the message was new, and the database.
  unfoldable pub consume_message : (now_ms : ℤ) → Message B → Db F → Result (Bool × Db F)
  consume_message now_ms m db = do
    inserted ← insert_event (event_row subject tenant_id now_ms m) db
    (if inserted.0
        then (do db' ← handler tenant_id m inserted.1; ok (true, db'))
        else ok (false, inserted.1))

  unfoldable pub consume_once : List (ℤ × Message B) → Db F → Run F B
  consume_once [] db = drained 0 db
  consume_once ((now_ms, m) ∷ ms) db = elim (consume_message now_ms m db) [
    | err e ↦ raised e ((now_ms, m) ∷ ms) db
    | ok (new, db') ↦ counted new (consume_once ms db')
  ]

-- `signals.raw`: the event is the entire effect.
unfoldable pub handle_signal : {F B : Type 0} → Text → Message B → Db F → Result (Db F)
handle_signal tenant_id m db = ok db
