-- ===== src/Metrics/Escalation.antt =====
-- The two rates of the routed hypotheses.
use stakeroute.Prelude.{
  ℕ, ◌+◌, ◌≡◌, ◌≢◌, ◌⊎◌, inl, inr, Bool, true, false, ◌==◌, ◌||◌, none, some, List, [], ◌∷◌, count,
  ℤ, pos, eqb_ℤ, Text, Option-cases, Bool-cases, arith, if◌then◌else◌,
}
use stakeroute.Float.{Float}
use stakeroute.Storage.Rows.{Strategy, DecisionRow, Db}
use stakeroute.Storage.Queries.{get_outcome}
use stakeroute.Metrics.{
  Measured, routed_decisions, tally, rate, precision_at_k, false_escalation_rate,
}

module _ {F : Type 0} where
  abbrev pub has_value : (ℤ → Bool) → Db F → DecisionRow F → Bool
  has_value p db d = elim (get_outcome d.hypothesis_id db) [ none ↦ false | some o ↦ p o.outcome ]

  -- how many of the decisions are on a hypothesis with such an outcome
  abbrev pub decided : (ℤ → Bool) → Db F → List (DecisionRow F) → ℕ
  decided p db = count (has_value p db)

  tally-counts :
      (wanted : ℤ) (db : Db F) (ds : List (DecisionRow F))
      → ((tally wanted db ds).0 ≡ decided (λ o. eqb_ℤ o wanted) db ds)
        × ((tally wanted db ds).1 ≡ decided (λ o. true) db ds)
  unfolding tally
  tally-counts wanted db [] = ground arith
  tally-counts wanted db (d ∷ ds) = elim (Option-cases (get_outcome d.hypothesis_id db)) [
    | inl e ↦ ground (arith, e, tally-counts wanted db ds)
    | inr (o, e) ↦ ground (arith, e, tally-counts wanted db ds)
  ]

  decided_split :
      (db : Db F) (ds : List (DecisionRow F))
      → decided (λ o. true) db ds
        ≡ decided (λ o. eqb_ℤ o (pos 1)) db ds
          + decided (λ o. eqb_ℤ o (pos 0)) db ds
          + decided (λ o. if eqb_ℤ o (pos 1) || eqb_ℤ o (pos 0) then false else true) db ds
  decided_split db [] = omega arith
  decided_split db (d ∷ ds) = elim (Option-cases (get_outcome d.hypothesis_id db)) [
    | inl e ↦ ground (arith, e, decided_split db ds)
    | inr (o, e) ↦ ground (arith, e, decided_split db ds)
  ]

abbrev pub is_other : ℤ → Bool
is_other o = if eqb_ℤ o (pos 1) || eqb_ℤ o (pos 0) then false else true

module _ {F : Type 0} ⦃f : Float F⦄ where
  -- A result is the share of `hits` in `measured`, and there is none exactly of nothing.
  abbrev pub IsShare : (hits measured : ℕ) → Measured F → Type 0
  IsShare hits measured r =
      ((measured ≡ 0) × (r ≡ (none, 0)))
      ⊎ ((measured ≢ 0) × (r ≡ (some (f.ratio (pos hits) (pos measured)), measured)))

  rate-IsShare :
      (wanted : ℤ) (db : Db F) (ds : List (DecisionRow F))
      → IsShare
          (decided (λ o. eqb_ℤ o wanted) db ds)
          (decided (λ o. true) db ds)
          (rate (tally wanted db ds))
  rate-IsShare wanted db ds =
      let (hits, all) = tally-counts wanted db ds in
      elim (Bool-cases ((tally wanted db ds).1 == 0)) [
        | inl e ↦ inl (ground (arith, e, all), ground (arith, e))
        | inr e ↦ inr (ground (arith, e, all), ground (arith, e, all, hits))
      ]

-- The precision and the false escalation rate are shares of one number, that of the routed hypotheses
-- with an outcome, which need not be all that are routed; there is none of either exactly if that
-- number is 0. The hypotheses that the
-- two count, with those whose outcome is neither 1 nor 0, make up that number.
pub escalation_rates :
    {F : Type 0} ⦃f : Float F⦄ (t : Text) (s : Strategy) (db : Db F)
    → let ds = routed_decisions t s db in
      let measured = decided (λ o. true) db ds in
      let hits = decided (λ o. eqb_ℤ o (pos 1)) db ds in
      let misses = decided (λ o. eqb_ℤ o (pos 0)) db ds in
      IsShare hits measured (precision_at_k t s db)
      × IsShare misses measured (false_escalation_rate t s db)
      × (measured ≡ hits + misses + decided is_other db ds)
unfolding precision_at_k false_escalation_rate
escalation_rates t s db =
    let ds = routed_decisions t s db in
    (rate-IsShare (pos 1) db ds, rate-IsShare (pos 0) db ds, decided_split db ds)
