-- ===== src/Storage/Ledger.antt =====
-- What the agents hold, and how the statements of the repository change it.
pub mod Gains
use stakeroute.Prelude.{
  ◌≡◌, ◌≢◌, text_eq_iff, Bool, true, false, ap, Option, none, some, List, map, ℤ, neg, ◌+ℤ◌,
  int_laws, Text, text_eq, text_eq_refl, arith, if◌then◌else◌, refl,
}
use stakeroute.Storage.Rows.{AgentRow, Db}
use stakeroute.Storage.Tables.{
  fetch, update, map-update, fetch-update, fetch-passes, fetch-update_other,
}
use stakeroute.Storage.Repository.{
  get_agent, move_credits, adjust_agent_credits, set_agent_reputation,
}

two_ids : (i a b : Text) → b ≢ a → text_eq i b ≡ true → text_eq i a ≡ false
two_ids i a b other h = ground (arith, text_eq_iff i b, text_eq_iff i a)

module _ {F : Type 0} where
  -- An agent's id with all that it holds, available or staked.
  abbrev pub holding : AgentRow F → Text × ℤ
  holding r = (r.id, r.available_credits +ℤ r.staked_credits)

  abbrev pub holdings : Db F → List (Text × ℤ)
  holdings db = map holding db.agents

  -- An agent's id with its reputation.
  abbrev pub standings : Db F → List (Text × F)
  standings db = map (λ r. (r.id, r.reputation)) db.agents

  holding-shift : (d : ℤ) (r : AgentRow F) → holding (move_credits d (neg d) r) ≡ holding r
  holding-shift d r = ap (λ (z : ℤ). (r.id, z)) (omega int_laws)

  -- Credits that move between the two columns stay with the agent.
  pub holdings-shift :
      (a : Text) (d : ℤ) (db : Db F) → holdings (adjust_agent_credits a d (neg d) db) ≡ holdings db
  unfolding adjust_agent_credits
  holdings-shift a d db =
      map-update (λ r. text_eq r.id a) (move_credits d (neg d)) holding db.agents (holding-shift d)

  holding-shift_back : (d : ℤ) (r : AgentRow F) → holding (move_credits (neg d) d r) ≡ holding r
  holding-shift_back d r = ap (λ (z : ℤ). (r.id, z)) (omega int_laws)

  pub holdings-shift_back :
      (a : Text) (d : ℤ) (db : Db F) → holdings (adjust_agent_credits a (neg d) d db) ≡ holdings db
  unfolding adjust_agent_credits
  holdings-shift_back a d db =
      map-update (λ r. text_eq r.id a) (move_credits (neg d) d) holding db.agents
        (holding-shift_back d)

  pub standings-adjust :
      (a : Text) (d e : ℤ) (db : Db F) → standings (adjust_agent_credits a d e db) ≡ standings db
  unfolding adjust_agent_credits
  standings-adjust a d e db =
      map-update (λ r. text_eq r.id a) (move_credits d e) (λ r. (r.id, r.reputation)) db.agents
        (λ r. refl)

  -- The row of an agent after its credits are adjusted.
  pub get_agent-adjust :
      (a : Text) (d e : ℤ) (db : Db F) {r : AgentRow F}
      → get_agent a db ≡ some r
      → get_agent a (adjust_agent_credits a d e db) ≡ some (move_credits d e r)
  unfolding get_agent adjust_agent_credits
  get_agent-adjust a d e db {r} h = ground (
    arith,
    fetch-update (λ r. text_eq r.id a) (λ r. text_eq r.id a) (move_credits d e) db.agents
        (λ x. refl),
    fetch-passes (λ r. text_eq r.id a) db.agents r h,
  )

  -- The rows of the other agents stay as they are.
  pub get_agent-adjust_other :
      (a b : Text) (d e : ℤ) (db : Db F)
      → b ≢ a
      → get_agent b (adjust_agent_credits a d e db) ≡ get_agent b db
  unfolding get_agent adjust_agent_credits
  get_agent-adjust_other a b d e db other =
      fetch-update_other (λ r. text_eq r.id b) (λ r. text_eq r.id a) (move_credits d e) db.agents
        (λ x. refl) (λ r found. two_ids r.id a b other found)
