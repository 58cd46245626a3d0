-- ===== src/Storage/Ledger/Gains.antt =====
-- Changes to the database that lower no agent's available credits.
use stakeroute.Prelude.{
  ◌≡◌, refl, subst, Option-cases, inl, inr, none, some, ℤ, pos, ◌≤ℤ◌, +ℤ_parts, Text, text_eq,
  arith, if◌then◌else◌,
}
use stakeroute.Storage.Rows.{AgentRow, Db}
use stakeroute.Storage.Tables.{fetch-update}
use stakeroute.Storage.Repository.{
  get_agent, move_credits, adjust_agent_credits, set_agent_reputation,
}

module _ {F : Type 0} where
  -- Every agent is still there, with no fewer available credits, and no agent is new.
  abbrev pub Gains : Db F → Db F → Type 0
  Gains db db' =
      (b : Text)
      → (get_agent b db ≡ none → get_agent b db' ≡ none)
        × ((r : AgentRow F)
            → get_agent b db ≡ some r
            → (r' : AgentRow F) × (get_agent b db' ≡ some r')
              × (r.available_credits ≤ℤ r'.available_credits))

  pub Gains-refl : (db : Db F) → Gains db db
  Gains-refl db b = (λ h. h, λ r h. (r, h, omega arith))

  pub Gains-trans : (db1 db2 db3 : Db F) → Gains db1 db2 → Gains db2 db3 → Gains db1 db3
  Gains-trans db1 db2 db3 g g' b = (
    λ h. (g' b).0 ((g b).0 h),
    λ r h.
        let (r1, h1, up1) = (g b).1 r h in
        let (r2, h2, up2) = (g' b).1 r1 h1 in (r2, h2, omega arith),
  )

  pub Gains-same_agents : (db db' : Db F) → db'.agents ≡ db.agents → Gains db db'
  unfolding get_agent
  Gains-same_agents db db' same b = (λ h. cc, λ r h. (r, cc, omega arith))

  pub adjust-Gains :
      (a : Text) (d e : ℤ) (db : Db F) → pos 0 ≤ℤ d → Gains db (adjust_agent_credits a d e db)
  unfolding get_agent adjust_agent_credits
  adjust-Gains a d e db up b =
      let found =
        fetch-update (λ r. text_eq r.id b) (λ r. text_eq r.id a) (move_credits d e) db.agents
          (λ x. refl) in
      (
        λ h. ground (arith, found),
        λ r h. (
          if text_eq r.id a then move_credits d e r else r,
          ground (arith, found),
          ground (arith, +ℤ_parts r.available_credits d),
        ),
      )

  pub reputation-Gains :
      (a : Text) (reputation : F) (db : Db F) → Gains db (set_agent_reputation a reputation db)
  unfolding get_agent set_agent_reputation
  reputation-Gains a reputation db b =
      let found =
        fetch-update (λ r. text_eq r.id b) (λ r. text_eq r.id a)
          (λ r. record r { reputation = reputation }) db.agents (λ x. refl) in
      (
        λ h. ground (arith, found),
        λ r h. (
          if text_eq r.id a then record r { reputation = reputation } else r,
          ground (arith, found),
          ground arith,
        ),
      )

  -- No agent the database knows has negative available credits.
  abbrev pub Solvent : Db F → Type 0
  Solvent db = (b : Text) (r : AgentRow F) → get_agent b db ≡ some r → pos 0 ≤ℤ r.available_credits

  pub Gains-Solvent : (db db' : Db F) → Gains db db' → Solvent db → Solvent db'
  Gains-Solvent db db' g solvent b r' h' = elim (Option-cases (get_agent b db)) [
    | inl missing ↦ let gone = (g b).0 missing in cc
    | inr (r, h) ↦
        let (r1, h1, up) = (g b).1 r h in
        let start = solvent b r h in
        let same : r1 ≡ r' = cc in
        subst (λ (x : AgentRow F). pos 0 ≤ℤ x.available_credits) same (omega (arith, up, start))
  ]
