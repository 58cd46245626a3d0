-- ===== src/Worker/Process/Seeded.antt =====
-- The agents that `_seed_world` of src/stakeroute/worker/run_worker.py stores.
use stakeroute.Prelude.{
  ◌≡◌, refl, Bool, true, false, none, some, List, [], ◌∷◌, ℤ, pos, Text, text_eq, text_eq_refl, ok,
  All, Pairs, arith,
}
use stakeroute.Storage.Rows.{AgentRow, Db}
use stakeroute.Storage.Tables.{fetch, append_row, fetch-append_row, fetch-none}
use stakeroute.Storage.Repository.{get_agent, has_tenant, upsert_agent}
use stakeroute.Simulator.{AgentProfile}
use stakeroute.Worker.Process.{epoch_grant, agent_row, seed_agents}

module _ {A : Type 0} where
  fetch-append_row_kept :
      (p : A → Bool) (r x : A) (xs : List A)
      → fetch p xs ≡ some x
      → fetch p (append_row r xs) ≡ some x
  unfolding fetch append_row
  fetch-append_row_kept p r x [] h = cc
  fetch-append_row_kept p r x (y ∷ ys) h = ground (arith, fetch-append_row_kept p r x ys)

  fetch-append_row_missing :
      (p : A → Bool) (r : A) (xs : List A)
      → fetch p xs ≡ none
      → p r ≡ false
      → fetch p (append_row r xs) ≡ none
  unfolding fetch append_row
  fetch-append_row_missing p r [] h k = ground arith
  fetch-append_row_missing p r (y ∷ ys) h k = ground (arith, fetch-append_row_missing p r ys)

module _ {F : Type 0} where
  -- What is found by an id in the one is found in the other.
  abbrev pub Keeps : Db F → Db F → Type 0
  Keeps db db' = (a : Text) (r : AgentRow F) → get_agent a db ≡ some r → get_agent a db' ≡ some r

  abbrev pub Absent : Db F → AgentProfile F → Type 0
  Absent db p = get_agent p.agent_id db ≡ none

  abbrev pub Differ : AgentProfile F → AgentProfile F → Type 0
  Differ p q = text_eq p.agent_id q.agent_id ≡ false

  abbrev with_agent : AgentRow F → Db F → Db F
  with_agent row db = record db { agents = append_row row db.agents }

  upsert_agent-new :
      (row : AgentRow F) (db : Db F)
      → get_agent row.id db ≡ none
      → has_tenant db row.tenant_id ≡ true
      → upsert_agent row db ≡ ok (with_agent row db)
  unfolding upsert_agent get_agent
  upsert_agent-new row db h k = ground (arith, fetch-none (λ r. text_eq r.id row.id) db.agents h)

  with_agent-found :
      (row : AgentRow F) (db : Db F)
      → get_agent row.id db ≡ none
      → get_agent row.id (with_agent row db) ≡ some row
  unfolding get_agent
  with_agent-found row db h =
      let mine = λ (r : AgentRow F). text_eq r.id row.id in
      fetch-append_row mine row db.agents (fetch-none mine db.agents h) (text_eq_refl row.id)

  with_agent-Keeps : (row : AgentRow F) (db : Db F) → Keeps db (with_agent row db)
  unfolding get_agent
  with_agent-Keeps row db a r h = fetch-append_row_kept (λ x. text_eq x.id a) row r db.agents h

  with_agent-Absent :
      (row : AgentRow F) (db : Db F) (profiles : List (AgentProfile F))
      → All (Absent db) profiles
      → All (λ p. text_eq row.id p.agent_id ≡ false) profiles
      → All (Absent (with_agent row db)) profiles
  unfolding get_agent
  with_agent-Absent row db [] h k = tt
  with_agent-Absent row db (p ∷ ps) (h, hs) (k, ks) = (
    fetch-append_row_missing (λ r. text_eq r.id p.agent_id) row db.agents h k,
    with_agent-Absent row db ps hs ks,
  )

module _ {F : Type 0} (t : Text) (now_ms : ℤ) where
  abbrev pub Stored : Db F → AgentProfile F → Type 0
  Stored db p =
      get_agent p.agent_id db
      ≡ some (record {
        id = p.agent_id;
        tenant_id = t;
        display_name = p.display_name;
        reputation = p.starting_reputation;
        available_credits = epoch_grant;
        staked_credits = pos 0;
        attested = p.attested;
        created_at_ms = now_ms;
      })

  -- Seeding agents with different ids, none of them in the database, for a tenant that is there,
  -- succeeds. After it each of them is found by its id, with its profile's name, reputation and
  -- attestation, the whole grant available and nothing staked; and every agent found before is
  -- found as it was.
  pub seed_agents-Stored :
      (profiles : List (AgentProfile F)) (db : Db F)
      → has_tenant db t ≡ true
      → Pairs Differ profiles
      → All (Absent db) profiles
      → (db' : Db F) × (seed_agents t now_ms profiles db ≡ ok db')
        × All (Stored db') profiles
        × Keeps db db'
  unfolding seed_agents
  seed_agents-Stored [] db known differ absent = (db, refl, tt, λ a r h. h)
  seed_agents-Stored (p ∷ ps) db known (apart, differ) (absent, others) =
      let row = agent_row t now_ms p in
      let added = upsert_agent-new row db absent known in
      let (db', done, stored, keeps) =
        seed_agents-Stored ps (with_agent row db) known differ
          (with_agent-Absent row db ps others apart) in
      (
        db',
        ground (arith, added, done),
        (keeps row.id row (with_agent-found row db absent), stored),
        λ a r h. keeps a r (with_agent-Keeps row db a r h),
      )
