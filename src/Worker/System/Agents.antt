-- ===== src/Worker/System/Agents.antt =====
-- `upsert_agent` of src/stakeroute/storage/repository.py and the available credits.
use stakeroute.Prelude.{
  ◌≡◌, refl, sym, ap, subst, ◌∙◌, ◌⊎◌, inl, inr, Bool, some, List, [], ◌∷◌, pos, ◌≤ℤ◌, Text,
  text_eq, ok, Option-cases, Bool-cases, arith,
}
use stakeroute.Storage.Rows.{AgentRow, Db}
use stakeroute.Storage.Tables.{fetch, update, append_row, fetch-update}
use stakeroute.Storage.Repository.{get_agent, has_agent, upsert_agent}
use stakeroute.Storage.Ledger.Gains.{Solvent}

module _ {F : Type 0} where
  pub upsert_agent-tables :
      (row : AgentRow F) (db db' : Db F)
      → upsert_agent row db ≡ ok db'
      → (db'.forecasts ≡ db.forecasts) × (db'.settlements ≡ db.settlements)
  unfolding upsert_agent
  upsert_agent-tables row db db' h = ground arith

  fetch-append_row_cases :
      (p : AgentRow F → Bool) (row r : AgentRow F) (rows : List (AgentRow F))
      → fetch p (append_row row rows) ≡ some r
      → (fetch p rows ≡ some r) ⊎ (r ≡ row)
  unfolding fetch append_row
  fetch-append_row_cases p row r [] h = elim (Bool-cases (p row)) [
    | inl e ↦ inr (ground arith)
    | inr e ↦ ground arith
  ]
  fetch-append_row_cases p row r (x ∷ rows) h = elim (Bool-cases (p x)) [
    | inl e ↦ inl (ground arith)
    | inr e ↦ elim (fetch-append_row_cases p row r rows (ground arith)) [
      | inl there ↦ inl (ground arith)
      | inr new ↦ inr new
    ]
  ]

  abbrev renew : AgentRow F → AgentRow F → AgentRow F
  renew row r = record r {
    reputation = row.reputation;
    available_credits = row.available_credits;
    staked_credits = row.staked_credits;
  }

  upsert_agent-agents :
      (row : AgentRow F) (db db' : Db F)
      → upsert_agent row db ≡ ok db'
      → (db'.agents ≡ update (λ r. text_eq r.id row.id) (renew row) db.agents)
        ⊎ (db'.agents ≡ append_row row db.agents)
  unfolding upsert_agent
  upsert_agent-agents row db db' h = elim (Bool-cases (has_agent db row.id)) [
    | inl e ↦ inl (ground arith)
    | inr e ↦ inr (ground arith)
  ]

  get_agent-fetch : (b : Text) (db : Db F) → get_agent b db ≡ fetch (λ r. text_eq r.id b) db.agents
  unfolding get_agent
  get_agent-fetch b db = refl

  renewed :
      (row r : AgentRow F) (b : Text) (db : Db F)
      → pos 0 ≤ℤ row.available_credits
      → Solvent db
      → fetch (λ r. text_eq r.id b) (update (λ r. text_eq r.id row.id) (renew row) db.agents)
        ≡ some r
      → pos 0 ≤ℤ r.available_credits
  renewed row r b db up solvent h =
      let mine = λ (x : AgentRow F). text_eq x.id b in
      let found = fetch-update mine (λ x. text_eq x.id row.id) (renew row) db.agents (λ x. refl) in
      elim (Option-cases (fetch mine db.agents)) [
        | inl missing ↦ ground (arith, found)
        | inr (old, e) ↦
            let before = solvent b old (get_agent-fetch b db ∙ e) in
            elim (Bool-cases (text_eq old.id row.id)) [
              | inl same ↦
                  let is : renew row old ≡ r = ground (arith, found) in
                  subst (λ (x : AgentRow F). pos 0 ≤ℤ x.available_credits) is up
              | inr other ↦
                  let is : old ≡ r = ground (arith, found) in
                  subst (λ (x : AgentRow F). pos 0 ≤ℤ x.available_credits) is before
            ]
      ]

  pub upsert_agent-Solvent :
      (row : AgentRow F) (db db' : Db F)
      → pos 0 ≤ℤ row.available_credits
      → upsert_agent row db ≡ ok db'
      → Solvent db
      → Solvent db'
  upsert_agent-Solvent row db db' up h solvent b r found =
      let mine = λ (x : AgentRow F). text_eq x.id b in
      elim (upsert_agent-agents row db db' h) [
        | inl changed ↦
            renewed row r b db up solvent
              (sym (ap (fetch mine) changed) ∙ sym (get_agent-fetch b db') ∙ found)
        | inr added ↦
            elim (fetch-append_row_cases mine row r db.agents
              (sym (ap (fetch mine) added) ∙ sym (get_agent-fetch b db') ∙ found)) [
                | inl there ↦ solvent b r (get_agent-fetch b db ∙ there)
                | inr new ↦ subst (λ (x : AgentRow F). pos 0 ≤ℤ x.available_credits) (sym new) up
              ]
      ]
