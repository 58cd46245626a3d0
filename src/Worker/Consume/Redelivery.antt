-- ===== src/Worker/Consume/Redelivery.antt =====
-- Messages that are delivered again: duplicates, and what follows a crash.
use stakeroute.Prelude.{
  ◌≡◌, refl, sym, ap, subst, ◌∙◌, inl, inr, Bool, true, false, List, [], ◌∷◌, ◌++◌, ℤ, Text,
  text_eq, text_eq_refl, Result, ok, bind-eq-ok, ok-inj, Bool-cases, All, arith,
}
use stakeroute.Storage.Rows.{EventRow, Db}
use stakeroute.Storage.Tables.{exists, exists-append_row_self, exists-append_row_some}
use stakeroute.Storage.Repository.{insert_event}
use stakeroute.Worker.Messages.{Message}
use stakeroute.Worker.Consume.{Run, event_row, consume_message, consume_once}

module _ {F : Type 0} where
  abbrev pub has_event : Text → Db F → Bool
  has_event i db = exists (λ (r : EventRow). text_eq r.event_id i) db.events

  insert_event-there :
      (row : EventRow) (db : Db F)
      → has_event row.event_id db ≡ true
      → insert_event row db ≡ ok (false, db)
  unfolding insert_event
  insert_event-there row db there = ground arith

  -- the event is there afterwards, and those that were there still are
  insert_event-adds :
      (row : EventRow) (db db' : Db F) (b : Bool)
      → insert_event row db ≡ ok (b, db')
      → (has_event row.event_id db' ≡ true)
        × ((i : Text) → has_event i db ≡ true → has_event i db' ≡ true)
  unfolding insert_event
  insert_event-adds row db db' b h = (
    ground (
      arith,
      exists-append_row_self (λ (r : EventRow). text_eq r.event_id row.event_id) row db.events,
      text_eq_refl row.event_id,
    ),
    λ i there.
        ground
          (arith, exists-append_row_some (λ (r : EventRow). text_eq r.event_id i) row db.events),
  )

  kept :
      (i : Text) (db db' : Db F)
      → db'.events ≡ db.events
      → has_event i db ≡ true
      → has_event i db' ≡ true
  kept i db db' same there = ap (exists (λ (r : EventRow). text_eq r.event_id i)) same ∙ there

module _ {F B : Type 0} where
  -- A handler leaves the table of events to the loop.
  abbrev pub KeepsEvents : (Text → Message B → Db F → Result (Db F)) → Type 0
  KeepsEvents handler =
      (t : Text) (m : Message B) (db db' : Db F) → handler t m db ≡ ok db' → db'.events ≡ db.events

module _ {F B : Type 0} (subject t : Text) (handler : Text → Message B → Db F → Result (Db F))
    (keeps : KeepsEvents handler) where
  abbrev pub consume : ℤ → Message B → Db F → Result (Bool × Db F)
  consume = consume_message subject t handler

  abbrev pub run : List (ℤ × Message B) → Db F → Run F B
  run = consume_once subject t handler

  -- A message whose event is recorded changes nothing and runs no handler.
  seen_before :
      (now_ms : ℤ) (m : Message B) (db : Db F)
      → has_event m.event_id db ≡ true
      → consume now_ms m db ≡ ok (false, db)
  unfolding consume_message
  seen_before now_ms m db there =
      ground (arith, insert_event-there (event_row subject t now_ms m) db there)

  pub consume-adds :
      (now_ms : ℤ) (m : Message B) (db db' : Db F) (b : Bool)
      → consume now_ms m db ≡ ok (b, db')
      → (has_event m.event_id db' ≡ true)
        × ((i : Text) → has_event i db ≡ true → has_event i db' ≡ true)
  unfolding consume_message
  consume-adds now_ms m db db' b h =
      let (r, hr, h1) = bind-eq-ok (insert_event (event_row subject t now_ms m) db) _ h in
      let (there, more) = insert_event-adds (event_row subject t now_ms m) db r.1 r.0 hr in
      elim (Bool-cases r.0) [
        | inl new ↦
            let (db1, h2, e) =
              bind-eq-ok (handler t m r.1) (λ d. ok (true, d)) {b = (b, db')} (ground arith) in
            let same : db1 ≡ db' = ap (λ (x : Bool × Db F). x.1) (ok-inj e) in
            let events = ap (λ (d : Db F). d.events) (sym same) ∙ keeps t m r.1 db1 h2 in
            (kept m.event_id r.1 db' events there, λ i was. kept i r.1 db' events (more i was))
        | inr old ↦
            let same : r.1 ≡ db' =
              ap (λ (x : Bool × Db F). x.1)
                (ok-inj {v = (false, r.1)} {w = (b, db')} (ground arith)) in
            let events = ap (λ (d : Db F). d.events) (sym same) in
            (kept m.event_id r.1 db' events there, λ i was. kept i r.1 db' events (more i was))
      ]

  -- A message that is handled and then delivered again, at whatever time and with whatever other
  -- content, has its effect once: the second delivery runs no handler and changes nothing.
  pub consume_message-twice :
      (now_ms now_ms' : ℤ) (m m' : Message B) (db db' : Db F) (b : Bool)
      → consume now_ms m db ≡ ok (b, db')
      → m'.event_id ≡ m.event_id
      → consume now_ms' m' db' ≡ ok (false, db')
  consume_message-twice now_ms now_ms' m m' db db' b h same =
      let (there, more) = consume-adds now_ms m db db' b h in
      seen_before now_ms' m' db' (subst (λ i. has_event i db' ≡ true) (sym same) there)

  abbrev pub Recorded : List (ℤ × Message B) → Db F → Type 0
  Recorded ms db = All (λ d. has_event d.1.event_id db ≡ true) ms

  -- Messages that are recorded are passed over, in front of whatever follows.
  pub run-Recorded :
      (done ms : List (ℤ × Message B)) (db : Db F)
      → Recorded done db
      → run (done ++ ms) db ≡ run ms db
  unfolding consume_once
  run-Recorded [] ms db _ = refl
  run-Recorded ((now_ms, m) ∷ done) ms db (there, more) =
      ground (arith, seen_before now_ms m db there, run-Recorded done ms db more)
