-- ===== src/Worker/Consume/Distinct.antt =====
-- `consume_once` of src/stakeroute/worker/main.py against a loop that needs no table of seen events:
-- its batch has every event once, and none that is stored.
use stakeroute.Prelude.{
  ℕ, suc, ◌+◌, ◌≡◌, refl, ap, ◌∙◌, inl, inr, Bool, true, false, Option, none, some, List, [], ◌∷◌,
  map, length, ℤ, Text, text_eq, Result, ok, err, Error, ◌>>=◌, ◌>>◌, Result-cases, Bool-cases,
  integrity_error, arith, if◌then◌else◌,
}
use stakeroute.Storage.Rows.{EventRow, Db}
use stakeroute.Storage.Tables.{exists, append_row}
use stakeroute.Storage.Repository.{references, has_tenant, insert_event}
use stakeroute.Worker.Messages.{Message}
use stakeroute.Worker.Consume.{
  Run, drained, raised, counted, event_row, consume_message, consume_once,
}
use stakeroute.Worker.Consume.Redelivery.{has_event, KeepsEvents}

-- The messages without those whose event id was seen, in the batch or before.
abbrev pub distinct :
    {B : Type 0} → (seen : List Text) → List (ℤ × Message B) → List (ℤ × Message B)
distinct seen [] = []
distinct seen ((now_ms, m) ∷ ms) =
    if exists (λ i. text_eq i m.event_id) seen
    then distinct seen ms
    else (now_ms, m) ∷ distinct (m.event_id ∷ seen) ms

abbrev pub seen_events : {F : Type 0} → Db F → List Text
seen_events db = map (λ r. r.event_id) db.events

-- What is committed of a run that was drained.
abbrev pub committed : {F B : Type 0} → Run F B → Option (ℕ × Db F)
committed (drained n db) = some (n, db)
committed (raised e ms db) = none

abbrev pub completed : {F : Type 0} → ℕ → Result (Db F) → Option (ℕ × Db F)
completed n (err e) = none
completed n (ok db) = some (n, db)

module _ {F B : Type 0} (subject t : Text) (handler : Text → Message B → Db F → Result (Db F)) where
  -- Every event is recorded and handled, without a look at those that are recorded.
  abbrev pub apply_each : List (ℤ × Message B) → Db F → Result (Db F)
  apply_each [] db = ok db
  apply_each ((now_ms, m) ∷ ms) db = do
    let row = event_row subject t now_ms m
    references (has_tenant db row.tenant_id)
    db' ← handler t m (record db { events = append_row row db.events })
    apply_each ms db'

exists-map :
    {A C : Type 0} (p : C → Bool) (g : A → C) (xs : List A)
    → exists p (map g xs) ≡ exists (λ x. p (g x)) xs
unfolding exists
exists-map p g [] = refl
exists-map p g (x ∷ xs) = ground (arith, exists-map p g xs)

exists-append_row :
    {A : Type 0} (p : A → Bool) (r : A) (xs : List A)
    → exists p (append_row r xs) ≡ (if p r then true else exists p xs)
unfolding exists append_row
exists-append_row p r [] = refl
exists-append_row p r (x ∷ xs) = ground (arith, exists-append_row p r xs)

module _ {F : Type 0} where
  -- The ids are those of the stored events.
  abbrev Agrees : List Text → Db F → Type 0
  Agrees seen db = (i : Text) → exists (λ j. text_eq j i) seen ≡ has_event i db

  seen-Agrees : (db : Db F) → Agrees (seen_events db) db
  seen-Agrees db i = exists-map (λ j. text_eq j i) (λ (r : EventRow). r.event_id) db.events

  stored-Agrees :
      (row : EventRow) (seen : List Text) (db db' : Db F)
      → db'.events ≡ append_row row db.events
      → Agrees seen db
      → Agrees (row.event_id ∷ seen) db'
  unfolding exists
  stored-Agrees row seen db db' added agrees i =
      let here = λ (r : EventRow). text_eq r.event_id i in
      ground (arith, agrees i, exists-append_row here row db.events, ap (exists here) added)

  abbrev one_more : Option (ℕ × Db F) → Option (ℕ × Db F)
  one_more none = none
  one_more (some (n, db)) = some (n + 1, db)

  completed-suc : (n : ℕ) (s : Result (Db F)) → one_more (completed n s) ≡ completed (suc n) s
  completed-suc n (ok db) = ap (λ k. some (k, db)) (omega arith)
  completed-suc n (err e) = refl

module _ {F B : Type 0} where
  committed-counted : (r : Run F B) → committed (counted true r) ≡ one_more (committed r)
  committed-counted (drained k db) = refl
  committed-counted (raised e ms db) = refl

module _ {F B : Type 0} (subject t : Text) (handler : Text → Message B → Db F → Result (Db F))
    (keeps : KeepsEvents handler) where
  abbrev go : List (ℤ × Message B) → Db F → Run F B
  go = consume_once subject t handler

  abbrev stored : ℤ → Message B → Db F → Db F
  stored now_ms m db = record db { events = append_row (event_row subject t now_ms m) db.events }

  seen-consumed :
      (now_ms : ℤ) (m : Message B) (db : Db F)
      → has_event m.event_id db ≡ true
      → consume_message subject t handler now_ms m db ≡ ok (false, db)
  unfolding consume_message insert_event
  seen-consumed now_ms m db there = ground arith

  -- A new message: what goes wrong is a missing tenant or the handler.
  no_tenant :
      (now_ms : ℤ) (m : Message B) (db : Db F)
      → has_event m.event_id db ≡ false
      → has_tenant db (event_row subject t now_ms m).tenant_id ≡ false
      → consume_message subject t handler now_ms m db ≡ err integrity_error
  unfolding consume_message insert_event
  no_tenant now_ms m db absent missing = ground arith

  not_handled :
      (now_ms : ℤ) (m : Message B) (db : Db F) (e : Error)
      → has_event m.event_id db ≡ false
      → has_tenant db (event_row subject t now_ms m).tenant_id ≡ true
      → handler t m (stored now_ms m db) ≡ err e
      → consume_message subject t handler now_ms m db ≡ err e
  unfolding consume_message insert_event
  not_handled now_ms m db e absent known failed = ground (arith, failed)

  handled :
      (now_ms : ℤ) (m : Message B) (db db' : Db F)
      → has_event m.event_id db ≡ false
      → has_tenant db (event_row subject t now_ms m).tenant_id ≡ true
      → handler t m (stored now_ms m db) ≡ ok db'
      → consume_message subject t handler now_ms m db ≡ ok (true, db')
  unfolding consume_message insert_event
  handled now_ms m db db' absent known done = ground (arith, done)

  Distinct-run :
      (ms : List (ℤ × Message B)) (seen : List Text) (db : Db F)
      → Agrees seen db
      → committed (go ms db)
        ≡ completed (length (distinct seen ms)) (apply_each subject t handler (distinct seen ms) db)
  unfolding consume_once
  Distinct-run [] seen db agrees = refl
  Distinct-run ((now_ms, m) ∷ ms) seen db agrees =
      let row = event_row subject t now_ms m in
      let known = agrees m.event_id in
      elim (Bool-cases (has_event m.event_id db)) [
        | inl there ↦
            ground (arith, known, seen-consumed now_ms m db there, Distinct-run ms seen db agrees)
        | inr absent ↦ elim (Bool-cases (has_tenant db row.tenant_id)) [
          | inr missing ↦ ground (arith, known, no_tenant now_ms m db absent missing)
          | inl tenant ↦ elim (Result-cases (handler t m (stored now_ms m db))) [
            | inr (e, failed) ↦
                ground (arith, known, failed, not_handled now_ms m db e absent tenant failed)
            | inl (db2, done) ↦
                let kept = keeps t m (stored now_ms m db) db2 done in
                let agrees2 = stored-Agrees row seen db db2 kept agrees in
                let seen2 = m.event_id ∷ seen in
                let rest = Distinct-run ms seen2 db2 agrees2 in
                let spec = apply_each subject t handler (distinct seen2 ms) db2 in
                let up =
                  committed-counted (go ms db2)
                  ∙ ap one_more rest
                  ∙ completed-suc (length (distinct seen2 ms)) spec in
                ground (arith, known, done, handled now_ms m db db2 absent tenant done, up)
          ]
        ]
      ]

  -- For a handler that leaves the table of events alone: a batch with messages delivered more than
  -- once, or again after earlier runs, commits what a run commits that records and handles every
  -- event once, in the order of the first deliveries, and that compares no ids: the same database,
  -- and as many messages applied as there are new event ids. If that run raises an exception then so
  -- does this one, and the other way round.
  pub consume_once-distinct :
      (ms : List (ℤ × Message B)) (db : Db F)
      → let once = distinct (seen_events db) ms in
        committed (go ms db) ≡ completed (length once) (apply_each subject t handler once db)
  consume_once-distinct ms db = Distinct-run ms (seen_events db) db (seen-Agrees db)
