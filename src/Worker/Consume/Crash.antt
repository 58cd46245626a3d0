-- ===== src/Worker/Consume/Crash.antt =====
-- Runs that end with an exception, and the run after the restart.
use mathlib.Core.List.{append-nil}
use stakeroute.Prelude.{
  ℕ, ◌+◌, ◌≡◌, refl, sym, ap, subst, ◌∙◌, inl, inr, Bool, true, false, List, [], ◌∷◌, ◌++◌, ℤ, Text,
  Result, Error, Result-cases, arith,
}
use stakeroute.Storage.Rows.{Db}
use stakeroute.Worker.Messages.{Message}
use stakeroute.Worker.Consume.{Run, drained, raised, counted, consume_message, consume_once}
use stakeroute.Worker.Consume.Redelivery.{
  has_event, KeepsEvents, run, Recorded, run-Recorded, consume-adds,
}

module _ {F B : Type 0} where
  counted-drained :
      (new : Bool) (r : Run F B) (n : ℕ) (db : Db F)
      → counted new r ≡ drained n db
      → (n' : ℕ) × (r ≡ drained n' db)
  counted-drained false r n db h = (n, h)
  counted-drained true (drained n' db') n db h = (n', cc)
  counted-drained true (raised e ms db') n db h = cc

  counted-raised :
      (new : Bool) (r : Run F B) (e : Error) (ms : List (ℤ × Message B)) (db : Db F)
      → counted new r ≡ raised e ms db
      → r ≡ raised e ms db
  counted-raised false r e ms db h = h
  counted-raised true (drained n' db') e ms db h = cc
  counted-raised true (raised e' ms' db') e ms db h = h

  count_up :
      (new : Bool) (r : Run F B) (n : ℕ) (db : Db F)
      → r ≡ drained n db
      → (n' : ℕ) × (counted new r ≡ drained n' db)
  count_up false r n db h = (n, h)
  count_up true r n db h = (n + 1, cc)

  same_db :
      (r : Run F B) (n n' : ℕ) (db db' : Db F) → r ≡ drained n db → r ≡ drained n' db' → db ≡ db'
  same_db r n n' db db' h h' = cc

module _ {F B : Type 0} (subject t : Text) (handler : Text → Message B → Db F → Result (Db F))
    (keeps : KeepsEvents handler) where
  abbrev go : List (ℤ × Message B) → Db F → Run F B
  go = run subject t handler keeps

  abbrev Done : List (ℤ × Message B) → Db F → Type 0
  Done = Recorded subject t handler keeps

  -- Every message of a batch that was drained is recorded, and what was recorded still is.
  drained-Done :
      (ms : List (ℤ × Message B)) (db db' : Db F) (n : ℕ)
      → go ms db ≡ drained n db'
      → Done ms db' × ((i : Text) → has_event i db ≡ true → has_event i db' ≡ true)
  unfolding consume_once
  drained-Done [] db db' n h = (
    tt,
    λ i there. subst (λ d. has_event i d ≡ true) (same_db (drained 0 db) 0 n db db' refl h) there,
  )
  drained-Done ((now_ms, m) ∷ ms) db db' n h =
      elim (Result-cases (consume_message subject t handler now_ms m db)) [
        | inl ((new, db1), e) ↦
            let (n', h') = counted-drained new (go ms db1) n db' (ground (arith, e)) in
            let (there, more) = consume-adds subject t handler keeps now_ms m db db1 new e in
            let (all, still) = drained-Done ms db1 db' n' h' in
            ((still m.event_id there, all), λ i was. still i (more i was))
        | inr (e, failed) ↦ ground (arith, failed)
      ]

  -- A run that ends with an exception has drained what comes before the message that raised.
  raised-splits :
      (ms rest : List (ℤ × Message B)) (db db' : Db F) (e : Error)
      → go ms db ≡ raised e rest db'
      → (done : List (ℤ × Message B)) × (n : ℕ) × (ms ≡ done ++ rest) × (go done db ≡ drained n db')
  unfolding consume_once
  raised-splits [] rest db db' e h = cc
  raised-splits ((now_ms, m) ∷ ms) rest db db' e h =
      elim (Result-cases (consume_message subject t handler now_ms m db)) [
        | inl ((new, db1), made) ↦
            let h' = counted-raised new (go ms db1) e rest db' (ground (arith, made)) in
            let (done, n, split, clean) = raised-splits ms rest db1 db' e h' in
            let (n', more) = count_up new (go done db1) n db' clean in
            ((now_ms, m) ∷ done, n', ap (λ l. (now_ms, m) ∷ l) split, ground (arith, made, more))
        | inr (failed, made) ↦ ([], 0, cc, cc)
      ]

  -- If a message raises, then the database is what the messages before it alone make of it: nothing of
  -- the failed message is left. And if after the restart the whole batch is delivered again, also what
  -- had been committed without being acknowledged, the run goes on where it stopped.
  pub consume_once-crash :
      (ms rest : List (ℤ × Message B)) (db db' : Db F) (e : Error)
      → go ms db ≡ raised e rest db'
      → (done : List (ℤ × Message B)) × (n : ℕ) × (ms ≡ done ++ rest)
        × (go done db ≡ drained n db')
        × (go ms db' ≡ go rest db')
  consume_once-crash ms rest db db' e h =
      let (done, n, split, clean) = raised-splits ms rest db db' e h in
      let (all, _) = drained-Done done db db' n clean in
      (
        done,
        n,
        split,
        clean,
        ap (λ l. go l db') split ∙ run-Recorded subject t handler keeps done rest db' all,
      )

  -- A batch that is drained and then delivered again, as a whole, has no new effect.
  pub consume_once-again :
      (ms : List (ℤ × Message B)) (db db' : Db F) (n : ℕ)
      → go ms db ≡ drained n db'
      → go ms db' ≡ drained 0 db'
  unfolding consume_once
  consume_once-again ms db db' n h =
      let (all, _) = drained-Done ms db db' n h in
      ap (λ l. go l db') (sym (append-nil ms)) ∙ run-Recorded subject t handler keeps ms [] db' all
