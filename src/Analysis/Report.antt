-- ===== src/Analysis/Report.antt =====
-- The report of src/stakeroute/analysis/cost_of_attack.py as a whole.
use stakeroute.Prelude.{
  ◌≤◌, ◌≡◌, ◌≢◌, refl, sym, ap, subst, ◌∙◌, ◌⊎◌, inl, inr, Bool, false, Option, none, some, List,
  [], ◌∷◌, ◌++◌, map, count, length, ℤ, pos, ◌≤ℤ◌, Text, text_eq, text_eq_iff, codes, All, Pairs,
  sorted-ordered, ok, bind-eq-ok, ok-inj, Bool-cases, Option-cases, arith,
}
use stakeroute.Float.{Float, le}
use stakeroute.Core.Types.{probability_ceil}
use stakeroute.Core.Attack.{required_probability}
use stakeroute.Core.Attack.Cost.{
  AttackCost, stakeroute_attack_cost, baseline_attack_cost, attack_frontier,
}
use stakeroute.Core.Attack.Bill.{IsBill, stakeroute_attack_cost-IsBill}
use stakeroute.Storage.Rows.{
  HypothesisRow, ForecastRow, market, majority_vote, highest_confidence, DecisionRow, Db,
}
use stakeroute.Storage.Tables.{fetch, fetch-passes, fetch-split}
use stakeroute.Storage.Repository.{get_hypothesis, list_forecasts_for_hypothesis}
use stakeroute.Storage.Queries.{latest_decisions}
use stakeroute.Analysis.Charges.{IsFree, baseline_attack_cost-IsFree, attack_frontier-sweep}
use stakeroute.Analysis.{
  AttackReport, recorded, ranked_decisions, pick_target, pick_rows, reputation_sweep,
  honest_weight_of, largest_probability, baseline_defender_probability, economic_priority,
  price_report, build_report,
}

module _ {F : Type 0} where
  -- A row of a list, by what stands before it and after it.
  abbrev pub Among : DecisionRow F → List (DecisionRow F) → Type 0
  Among row rows =
      (before : List (DecisionRow F)) × (after : List (DecisionRow F)) × (rows
        ≡ before ++ (row ∷ after))

  -- The row that is attacked, when one is asked for and when not.
  abbrev pub IsTarget :
      Option Text → DecisionRow F → DecisionRow F → List (DecisionRow F) → DecisionRow F → Type 0
  IsTarget none defender second rest target = target ≡ second
  IsTarget (some h) defender second rest target =
      Among target (defender ∷ second ∷ rest)
      × (target.hypothesis_id ≡ h)
      × (h ≢ defender.hypothesis_id)

  pick_target-IsTarget :
      (wanted : Option Text) (defender second : DecisionRow F) (rest : List (DecisionRow F))
      (target : DecisionRow F)
      → pick_target wanted defender second rest ≡ ok target
      → IsTarget wanted defender second rest target
  unfolding pick_target
  pick_target-IsTarget none defender second rest target h = sym (ok-inj h)
  pick_target-IsTarget (some i) defender second rest target h =
      let wanted = λ (d : DecisionRow F). text_eq d.hypothesis_id i in
      elim (Option-cases (fetch wanted (defender ∷ second ∷ rest))) [
        | inl missing ↦ ground (arith, missing)
        | inr (row, found) ↦ elim (Bool-cases (text_eq row.hypothesis_id defender.hypothesis_id)) [
          | inl same ↦ ground (arith, found)
          | inr other ↦
              let is : row ≡ target = ground (arith, found) in
              let asked : row.hypothesis_id ≡ i =
                (text_eq_iff row.hypothesis_id i).0
                  (fetch-passes wanted (defender ∷ second ∷ rest) row found) in
              subst (IsTarget (some i) defender second rest) is (
                fetch-split wanted (defender ∷ second ∷ rest) row found,
                asked,
                λ e.
                    ground (
                      arith,
                      other,
                      text_eq_iff row.hypothesis_id defender.hypothesis_id,
                      asked ∙ e,
                    ),
              )
        ]
      ]

  abbrev pub Picked : Option Text → List (DecisionRow F) → DecisionRow F → DecisionRow F → Type 0
  Picked wanted rows defender target =
      (second : DecisionRow F) × (rest : List (DecisionRow F)) × (rows ≡ defender ∷ second ∷ rest)
      × IsTarget wanted defender second rest target

  pick_rows-Picked :
      (wanted : Option Text) (rows : List (DecisionRow F)) (r : DecisionRow F × DecisionRow F)
      → pick_rows wanted rows ≡ ok r
      → Picked wanted rows r.0 r.1
  unfolding pick_rows
  pick_rows-Picked wanted [] r h = ground arith
  pick_rows-Picked wanted (defender ∷ []) r h = ground arith
  pick_rows-Picked wanted (defender ∷ second ∷ rest) r h =
      let (target, ht, e) = bind-eq-ok (pick_target wanted defender second rest) _ h in
      subst
        (λ (x : DecisionRow F × DecisionRow F). Picked wanted (defender ∷ second ∷ rest) x.0 x.1)
        (ok-inj e) (second, rest, refl, pick_target-IsTarget wanted defender second rest target ht)

recorded-some : {A : Type 0} (o : Option A) (a : A) → recorded o ≡ ok a → o ≡ some a
recorded-some none a h = cc
recorded-some (some b) a h = ap some (ok-inj h)

module _ {F : Type 0} ⦃f : Float F⦄ (t : Text) (stake : ℤ) (shared : Bool) where
  -- A cost for the market, with the priority to beat and the target's hypothesis and aggregate: not
  -- feasible, or a bill; the target leads if its probability reaches the one that is required.
  abbrev pub IsCharged : (bar : F) → HypothesisRow F → (probability : F) → AttackCost F → Type 0
  IsCharged bar h probability c =
      (c.feasible ≡ false)
      ⊎ ((threshold : F) × (required_probability bar h.impact_minor_units h.urgency h.review_cost
            ≡ ok threshold)
          × IsBill stake (le threshold probability) c)

  charged :
      (r d : F) (target : HypothesisRow F) (w q : F) (c : AttackCost F)
      → pos 0 ≤ℤ stake
      → stakeroute_attack_cost r stake shared probability_ceil target.prior_probability d
          target.impact_minor_units target.urgency target.review_cost w q
        ≡ ok c
      → IsCharged d target q c
  charged r d target w q c hs h = elim (Bool-cases c.feasible) [
    | inl works ↦ inr (
        stakeroute_attack_cost-IsBill r stake shared probability_ceil target.prior_probability hs d
          target.impact_minor_units target.urgency target.review_cost w q c h works)
    | inr fails ↦ inl fails
  ]

  -- What the report charges.
  abbrev pub Charges : DecisionRow F → DecisionRow F → HypothesisRow F → AttackReport F → Type 0
  Charges defender target h r =
      IsFree r.by_majority_vote
      × IsFree r.by_highest_confidence
      × IsCharged defender.priority h target.aggregated_probability r.by_market
      × ((bar : F) × (economic_priority defender h ≡ ok bar)
          × IsCharged bar h target.aggregated_probability r.economic_defence_only)
      × (map (λ c. c.reputation_per_identity) r.frontier ≡ reputation_sweep)

  -- Whom the report is about.
  abbrev pub About : DecisionRow F → DecisionRow F → AttackReport F → Type 0
  About defender target r =
      (r.defender.hypothesis_id ≡ defender.hypothesis_id)
      × (r.defender.probability ≡ defender.aggregated_probability)
      × (r.defender.priority ≡ defender.priority)
      × (r.target.hypothesis_id ≡ target.hypothesis_id)
      × (r.target.probability ≡ target.aggregated_probability)
      × (r.target.priority ≡ target.priority)
      × (r.honest_weight ≡ honest_weight_of target.contributions)

  price_report-Charges :
      (defender_row target_row : DecisionRow F) (defender target : HypothesisRow F) (db : Db F)
      (r : AttackReport F)
      → pos 0 ≤ℤ stake
      → price_report t stake shared defender_row target_row defender target db ≡ ok r
      → Charges defender_row target_row target r × About defender_row target_row r
  unfolding price_report
  price_report-Charges defender_row target_row defender target db r hs h =
      let weight = honest_weight_of target_row.contributions in
      let probability = target_row.aggregated_probability in
      let forecasts = list_forecasts_for_hypothesis target.id db in
      let n = pos (length forecasts) in
      let v = pos (count (λ (x : ForecastRow F). f.lt (f.literal 5 1) x.probability) forecasts) in
      let largest = largest_probability forecasts target.prior_probability in
      let low = f.literal 1 1 in
      let prior = target.prior_probability in
      let cost = λ (bar : F).
        stakeroute_attack_cost low stake shared probability_ceil prior bar target.impact_minor_units
          target.urgency target.review_cost weight probability in
      let (market_cost, h1, e1) = bind-eq-ok (cost defender_row.priority) _ h in
      let (bar, h2, e2) = bind-eq-ok (economic_priority defender_row target) _ e1 in
      let (economic, h3, e3) = bind-eq-ok (cost bar) _ e2 in
      let (majority_bar, h4, e4) =
        bind-eq-ok (baseline_defender_probability t majority_vote db) _ e3 in
      let (by_majority, h5, e5) =
        bind-eq-ok (baseline_attack_cost (codes "majority_vote") majority_bar n v largest (pos 0)) _
          e4 in
      let (confidence_bar, h6, e6) =
        bind-eq-ok (baseline_defender_probability t highest_confidence db) _ e5 in
      let (by_confidence, h7, e7) =
        bind-eq-ok
          (baseline_attack_cost (codes "highest_confidence") confidence_bar n v largest (pos 0)) _
          e6 in
      let (frontier, h8, e8) =
        bind-eq-ok
          (attack_frontier bar target.impact_minor_units target.urgency target.review_cost weight
            probability reputation_sweep stake shared prior)
          _ e7 in
      let bill = λ (bar : F) (c : AttackCost F) (e : cost bar ≡ ok c).
        charged low bar target weight probability c hs e in
      subst
        (λ (x : AttackReport F).
          Charges defender_row target_row target x × About defender_row target_row x)
        (ok-inj e8)
        (
          (
            baseline_attack_cost-IsFree (codes "majority_vote") majority_bar n v largest by_majority
                h5,
            baseline_attack_cost-IsFree (codes "highest_confidence") confidence_bar n v largest
                by_confidence h7,
            bill defender_row.priority market_cost h1,
            (bar, h2, bill bar economic h3),
            attack_frontier-sweep bar target.impact_minor_units target.urgency target.review_cost
                weight probability reputation_sweep stake shared prior frontier h8,
          ),
          (refl, refl, refl, refl, refl, refl, refl),
        )

  -- A report that is made, for a stake that is not negative, is about the latest StakeRoute decisions
  -- of the tenant. Its defender is one of least rank. Its target is one of these decisions: one for
  -- the hypothesis that was asked for, which is then not the defender's, and otherwise the next after
  -- the defender. Both are reported with their probability and priority, and the honest weight is
  -- that of the target's contributions. Each of the two attacks on the market is infeasible or has a
  -- bill of at least one identity, unless the target's probability already reaches the one that is
  -- required for its bar: the defender's priority, or the defender's probability at the target's
  -- impact, urgency and review cost. The attacks on the two baselines cost no credits, up front or at
  -- settlement; and the frontier has one cost for each of the five reputations, in their order.
  pub build_report-IsReport :
      (wanted : Option Text) (db : Db F) (r : AttackReport F)
      → pos 0 ≤ℤ stake
      → build_report t stake shared wanted db ≡ ok r
      → (defender : DecisionRow F) × (second : DecisionRow F) × (rest : List (DecisionRow F))
        × (target : DecisionRow F) × (ranked_decisions t market db ≡ defender ∷ second ∷ rest)
        × All (λ d. defender.rank ≤ d.rank) (second ∷ rest)
        × IsTarget wanted defender second rest target
        × About defender target r
        × ((h : HypothesisRow F) × (get_hypothesis target.hypothesis_id db ≡ some h)
            × Charges defender target h r)
  unfolding build_report ranked_decisions
  build_report-IsReport wanted db r hs h =
      let rows = ranked_decisions t market db in
      let (picked, h1, e1) = bind-eq-ok (pick_rows wanted rows) _ h in
      let (target, h2, e2) =
        bind-eq-ok (recorded (get_hypothesis picked.1.hypothesis_id db)) _ e1 in
      let (defender, h3, e3) =
        bind-eq-ok (recorded (get_hypothesis picked.0.hypothesis_id db)) _ e2 in
      let (second, rest, same, is_target) = pick_rows-Picked wanted rows picked h1 in
      let (charges, about) = price_report-Charges picked.0 picked.1 defender target db r hs e3 in
      let ordered =
        subst (Pairs (λ (a : DecisionRow F) (b : DecisionRow F). a.rank ≤ b.rank)) same
          (sorted-ordered (λ (d : DecisionRow F). d.rank) (latest_decisions t market db)) in
      (
        picked.0,
        second,
        rest,
        picked.1,
        same,
        ordered.0,
        is_target,
        about,
        (target, recorded-some (get_hypothesis picked.1.hypothesis_id db) target h2, charges),
      )
