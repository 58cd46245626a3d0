-- ===== src/Transport/Memory.antt =====
-- src/stakeroute/transport/memory.py. The dicts by subject are functions, empty where nothing has
-- been put, as a `defaultdict` reads; a message is its id, its payload and its delivery count.
pub mod Messages
use stakeroute.Prelude.{
  ℕ, suc, ◌+◌, Bool, leb, ltb, ◌==◌, Option, none, some, List, [], ◌∷◌, length, Text, text_eq,
  sorted, if◌then◌else◌,
}
use stakeroute.Storage.Tables.{append_row}

pub record Delivery (P : Type 0) : Type 0 where
  pub id : ℕ
  pub payload : P
  pub delivery_count : ℕ

-- what the three dicts hold for one subject
pub record Queue (P : Type 0) : Type 0 where
  pub pending : List (Delivery P)
  pub in_flight : List (Delivery P)
  pub dead_letter : List P

pub record MemoryTransport (P : Type 0) : Type 0 where
  pub queues : Text → Queue P
  pub max_redeliveries : ℕ
  pub next_id : ℕ

module _ {P : Type 0} where
  abbrev pub set_queue : Text → Queue P → MemoryTransport P → MemoryTransport P
  set_queue subject q t = record t { queues = λ s. if text_eq s subject then q else t.queues s }

  unfoldable pub enqueue : Delivery P → Queue P → Queue P
  enqueue m q = record q { pending = append_row m q.pending }

  unfoldable pub publish : Text → P → MemoryTransport P → MemoryTransport P
  publish subject payload t =
      let m : Delivery P = record { id = t.next_id; payload = payload; delivery_count = 0 } in
      record (set_queue subject (enqueue m (t.queues subject)) t) { next_id = suc t.next_id }

  -- `in_flight[msg_id] = ...`
  unfoldable pub put : Delivery P → List (Delivery P) → List (Delivery P)
  put m [] = m ∷ []
  put m (n ∷ ns) = if n.id == m.id then m ∷ ns else n ∷ put m ns

  -- `in_flight.pop(msg_id, None)`
  unfoldable pub pop : ℕ → List (Delivery P) → List (Delivery P)
  pop i [] = []
  pop i (n ∷ ns) = if n.id == i then ns else n ∷ pop i ns

  -- one round of the generator `subscribe`: the message that it yields, if one is pending
  unfoldable pub receive : Queue P → Option (Delivery P × Queue P)
  receive q = elim q.pending [
    | [] ↦ none
    | m ∷ ms ↦ some (m, record q { pending = ms; in_flight = put m q.in_flight })
  ]

  unfoldable pub ack : Text → ℕ → MemoryTransport P → MemoryTransport P
  ack subject i t =
      let q = t.queues subject in set_queue subject (record q { in_flight = pop i q.in_flight }) t

  -- the loop of `simulate_crash`, with `redelivered` so far
  unfoldable pub redeliver : (limit redelivered : ℕ) → List (Delivery P) → Queue P → ℕ × Queue P
  redeliver limit redelivered [] q = (redelivered, q)
  redeliver limit redelivered (m ∷ ms) q =
      if leb limit m.delivery_count
      then redeliver limit redelivered ms
          (record q { dead_letter = append_row m.payload q.dead_letter })
      else redeliver limit (redelivered + 1) ms
          (enqueue (record m { delivery_count = m.delivery_count + 1 }) q)

  unfoldable pub crash : ℕ → Queue P → ℕ × Queue P
  crash limit q =
      let done = redeliver limit 0 (sorted (λ a b. ltb a.id b.id) q.in_flight) q in
      (done.0, record done.1 { in_flight = [] })

  unfoldable pub simulate_crash : Text → MemoryTransport P → ℕ × MemoryTransport P
  simulate_crash subject t =
      let crashed = crash t.max_redeliveries (t.queues subject) in
      (crashed.0, set_queue subject crashed.1 t)

  abbrev pub dead_letters : Text → MemoryTransport P → List P
  dead_letters subject t = (t.queues subject).dead_letter

  abbrev pub pending_count : Text → MemoryTransport P → ℕ
  pending_count subject t = length (t.queues subject).pending

  abbrev pub in_flight_count : Text → MemoryTransport P → ℕ
  in_flight_count subject t = length (t.queues subject).in_flight
