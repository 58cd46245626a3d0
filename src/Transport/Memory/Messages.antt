-- ===== src/Transport/Memory/Messages.antt =====
-- Messages across a crash.
use stakeroute.Prelude.{
  ℕ, ◌+◌, ◌≤◌, ◌≡◌, refl, Bool, leb, ltb, List, [], ◌∷◌, count, count-perm, sorted, sorted-perm,
  All, arith, if◌then◌else◌, Text, text_eq_refl, Bool-cases, inl, inr,
}
use stakeroute.Storage.Tables.{append_row}
use stakeroute.Transport.Memory.{
  Delivery, Queue, MemoryTransport, enqueue, redeliver, crash, simulate_crash,
}

count-append_row :
    {A : Type 0} (t : A → Bool) (r : A) (xs : List A)
    → count t (append_row r xs) ≡ count t xs + (if t r then 1 else 0)
unfolding append_row
count-append_row t r [] = omega arith
count-append_row t r (x ∷ xs) = omega (arith, count-append_row t r xs)

All-append_row :
    {A : Type 0} (Q : A → Type 0) (r : A) (xs : List A) → Q r → All Q xs → All Q (append_row r xs)
unfolding append_row
All-append_row Q r [] h all = (h, tt)
All-append_row Q r (x ∷ xs) h (k, all) = (k, All-append_row Q r xs h all)

module _ {P : Type 0} where
  -- How many of the messages waiting or dead pass a test on their payload.
  abbrev pub waiting : (P → Bool) → Queue P → ℕ
  waiting t q = count (λ m. t m.payload) q.pending + count t q.dead_letter

  abbrev pub tally : (P → Bool) → Queue P → ℕ
  tally t q = waiting t q + count (λ m. t m.payload) q.in_flight

  redeliver-waiting :
      (t : P → Bool) (limit n : ℕ) (ms : List (Delivery P)) (q : Queue P)
      → waiting t (redeliver limit n ms q).1 ≡ waiting t q + count (λ m. t m.payload) ms
  unfolding redeliver enqueue
  redeliver-waiting t limit n [] q = omega arith
  redeliver-waiting t limit n (m ∷ ms) q = elim (Bool-cases (leb limit m.delivery_count)) [
    | inl dead ↦ rw dead (
        omega (
          arith,
          redeliver-waiting t limit n ms
              (record q { dead_letter = append_row m.payload q.dead_letter }),
          count-append_row t m.payload q.dead_letter,
        ))
    | inr again ↦ rw again (
        omega (
          arith,
          redeliver-waiting t limit (n + 1) ms
              (enqueue (record m { delivery_count = m.delivery_count + 1 }) q),
          count-append_row (λ (m : Delivery P). t m.payload)
              (record m { delivery_count = m.delivery_count + 1 }) q.pending,
        ))
  ]

  abbrev pub IsWithin : ℕ → Delivery P → Type 0
  IsWithin limit m = m.delivery_count ≤ limit

  redeliver-IsWithin :
      (limit n : ℕ) (ms : List (Delivery P)) (q : Queue P)
      → All (IsWithin limit) q.pending
      → All (IsWithin limit) (redeliver limit n ms q).1.pending
  unfolding redeliver enqueue
  redeliver-IsWithin limit n [] q all = all
  redeliver-IsWithin limit n (m ∷ ms) q all = elim (Bool-cases (leb limit m.delivery_count)) [
    | inl dead ↦ rw dead (
        redeliver-IsWithin limit n ms
          (record q { dead_letter = append_row m.payload q.dead_letter }) all)
    | inr again ↦ rw again (
        redeliver-IsWithin limit (n + 1) ms
          (enqueue (record m { delivery_count = m.delivery_count + 1 }) q)
          (All-append_row (IsWithin limit) (record m { delivery_count = m.delivery_count + 1 })
            q.pending (ground arith) all))
  ]

  -- A crash loses no message and makes none up: for every test on payloads, as many messages of the
  -- subject pass it afterwards as before, among those pending, in flight and dead. Nothing is in
  -- flight any more; and if no pending message was beyond the limit of redeliveries, none is.
  pub simulate_crash-conserves :
      (subject : Text) (test : P → Bool) (t : MemoryTransport P)
      → All (IsWithin t.max_redeliveries) (t.queues subject).pending
      → let q = (simulate_crash subject t).1.queues subject in
        (tally test q ≡ tally test (t.queues subject))
        × (q.in_flight ≡ [])
        × All (IsWithin t.max_redeliveries) q.pending
  unfolding simulate_crash crash
  simulate_crash-conserves subject test t all =
      let q = t.queues subject in
      let ms = sorted (λ (a b : Delivery P). ltb a.id b.id) q.in_flight in
      rw (text_eq_refl subject) (
        omega (
          arith,
          redeliver-waiting test t.max_redeliveries 0 ms q,
          count-perm (λ (m : Delivery P). test m.payload)
              (sorted-perm (λ (a b : Delivery P). ltb a.id b.id) q.in_flight),
        ),
        refl,
        redeliver-IsWithin t.max_redeliveries 0 ms q all,
      )
