-- ===== src/Tests/Transport.antt =====
-- A crash with one message that may be delivered again and one that may not.
use stakeroute.Prelude.{ℕ, ◌==◌, ◌≡◌, refl, [], ◌∷◌, All, codes, sorted, insert}
use stakeroute.Storage.Tables.{append_row}
use stakeroute.Transport.Memory.{MemoryTransport, enqueue, redeliver, crash, simulate_crash}
use stakeroute.Transport.Memory.Messages.{tally, IsWithin, simulate_crash-conserves}

abbrev busy : MemoryTransport ℕ
busy = record {
  queues = λ s. record {
    pending = [];
    in_flight =
        record { id = 1; payload = 7; delivery_count = 0 }
        ∷ record { id = 2; payload = 8; delivery_count = 1 }
        ∷ [];
    dead_letter = [];
  };
  max_redeliveries = 1;
  next_id = 3;
}

simulate_crash-conserves_example :
    let q = (simulate_crash (codes "s") busy).1.queues (codes "s") in
    (tally (λ p. p == 7) q ≡ 1) × (q.in_flight ≡ []) × All (IsWithin 1) q.pending
simulate_crash-conserves_example = simulate_crash-conserves (codes "s") (λ p. p == 7) busy tt

-- One of the two messages is delivered again.
redelivered_test : (simulate_crash (codes "s") busy).0 ≡ 1
unfolding simulate_crash crash redeliver enqueue sorted insert append_row
redelivered_test = refl
