-- ===== src/Worker/Pipeline/Decisions.antt =====
-- What a ranking pass records.
use mathlib.Core.List.{append-nil}
use stakeroute.Prelude.{
  ℕ, ◌≡◌, refl, sym, ap, subst, ◌∙◌, inl, inr, Bool, List, [], ◌∷◌, ◌++◌, map, ℤ, Text, Bool-cases,
  text_eq, text_eq_iff, ok, bind-eq-ok, ok-inj, All, All-map, arith,
}
use stakeroute.Float.{Float}
use stakeroute.Core.Types.{AggregationResult, RankedHypothesis, AllocationDecision}
use stakeroute.Core.Market.{Agents}
use stakeroute.Storage.Rows.{HypothesisRow, Strategy, DecisionRow, Db}
use stakeroute.Storage.Tables.{append_row, append_row-append}
use stakeroute.Storage.Queries.{insert_attention_decision}
use stakeroute.Worker.Pipeline.{
  find, forecast_snapshots, strategy_result, strategy_priority, rank_all, decision_row, record_all,
}

-- what a decision and its row have in common
abbrev pub from_decision : AllocationDecision → Text × ℕ × Bool
from_decision d = (d.hypothesis_id, d.rank, d.routed)

-- What is found has the property that all have.
find-All :
    {A : Type 0} (P : Text × A → Type 0) (k : Text) (l : List (Text × A)) (a : A)
    → find k l ≡ ok a
    → All P l
    → P (k, a)
unfolding find
find-All P k [] a h all = cc
find-All P k ((j, b) ∷ l) a h (p, all) = elim (Bool-cases (text_eq j k)) [
  | inl same ↦
      let key : j ≡ k = ground (arith, text_eq_iff j k) in
      let value : b ≡ a = ground arith in subst P (λ i. (key i, value i)) p
  | inr other ↦ find-All P k l a (ground arith) all
]

module _ {F : Type 0} where
  insert_decision-effect :
      ⦃f : Float F⦄ (row : DecisionRow F) (db db' : Db F)
      → insert_attention_decision row db ≡ ok db'
      → db' ≡ record db { decisions = append_row row db.decisions }
  unfolding insert_attention_decision
  insert_decision-effect row db db' h = ground arith

  abbrev pub from_row : DecisionRow F → Text × ℕ × Bool
  from_row r = (r.hypothesis_id, r.rank, r.routed)

  -- A row of a list, by what stands before it and after it.
  abbrev pub Among : HypothesisRow F → List (HypothesisRow F) → Type 0
  Among h hs =
      (before : List (HypothesisRow F)) × (after : List (HypothesisRow F)) × (hs
        ≡ before ++ (h ∷ after))

module _ {F : Type 0} ⦃f : Float F⦄ (s : Strategy) (agents : Agents F) (db : Db F) where
  -- The strategy's result for the hypothesis of a list that has the id.
  abbrev pub IsResult : List (HypothesisRow F) → Text × AggregationResult F → Type 0
  IsResult hs (i, result) =
      (h : HypothesisRow F) × Among h hs
      × (h.id ≡ i)
      × (strategy_result s agents h (forecast_snapshots h.id db) ≡ ok result)

  later :
      (g : HypothesisRow F) (hs : List (HypothesisRow F)) (x : Text × AggregationResult F)
      → IsResult hs x
      → IsResult (g ∷ hs) x
  later g hs (i, result) (h, (before, after, split), same, made) =
      (h, (g ∷ before, after, ap (λ l. g ∷ l) split), same, made)

  abbrev pub Ranking : Type 0
  Ranking = List (Text × AggregationResult F) × List (RankedHypothesis F)

  abbrev pub IsRanking : List (HypothesisRow F) → Ranking → Type 0
  IsRanking hs r = (map (λ r. r.hypothesis_id) r.1 ≡ map (λ h. h.id) hs) × All (IsResult hs) r.0

  pub rank_all-IsRanking :
      (hs : List (HypothesisRow F)) (r : Ranking) → rank_all s agents db hs ≡ ok r → IsRanking hs r
  unfolding rank_all
  rank_all-IsRanking [] r h = subst (IsRanking []) (ok-inj h) (refl, tt)
  rank_all-IsRanking (h ∷ hs) r e =
      let (result, h1, e1) =
        bind-eq-ok (strategy_result s agents h (forecast_snapshots h.id db)) _ e in
      let (priority, h2, e2) = bind-eq-ok (strategy_priority s h result) _ e1 in
      let (rest, h3, e3) = bind-eq-ok (rank_all s agents db hs) _ e2 in
      let (ids, all) = rank_all-IsRanking hs rest h3 in
      subst (IsRanking (h ∷ hs)) (ok-inj e3)
        (ap (λ l. h.id ∷ l) ids, ((h, ([], hs, refl), refl, h1), All-map rest.0 (later h hs) all))

module _ {F : Type 0} ⦃f : Float F⦄ (t : Text) (ms : ℤ) (s : Strategy) (hs : List (HypothesisRow F))
    (agents : Agents F) (start : Db F) where
  -- A row of the pass, with the probability and the contributions of the strategy's result.
  abbrev pub IsOfPass : DecisionRow F → Type 0
  IsOfPass r =
      (r.tenant_id ≡ t)
      × (r.strategy ≡ s)
      × (r.decided_at_ms ≡ ms)
      × ((result : AggregationResult F) × IsResult s agents start hs (r.hypothesis_id, result)
          × (r.aggregated_probability ≡ result.probability)
          × (r.contributions ≡ result.contributions))

  abbrev pub Appended : List AllocationDecision → Db F → Db F → Type 0
  Appended ds db db' =
      (rows : List (DecisionRow F)) × (db' ≡ record db { decisions = db.decisions ++ rows })
      × (map from_row rows ≡ map from_decision ds)
      × All IsOfPass rows

  none_appended : (db : Db F) → db ≡ record db { decisions = db.decisions ++ [] }
  none_appended db = ap (λ l. record db { decisions = l }) (sym (append-nil db.decisions))

  one_more :
      (row : DecisionRow F) (rows : List (DecisionRow F)) (db db1 db' : Db F)
      → db1 ≡ record db { decisions = append_row row db.decisions }
      → db' ≡ record db1 { decisions = db1.decisions ++ rows }
      → db' ≡ record db { decisions = db.decisions ++ (row ∷ rows) }
  one_more row rows db db1 db' first rest =
      rest
      ∙ ap (λ (d : Db F). record d { decisions = d.decisions ++ rows }) first
      ∙ ap (λ l. record db { decisions = l }) (append_row-append row db.decisions rows)

  pub record_all-Appended :
      (aggregates : List (Text × AggregationResult F)) (by_id : List (Text × RankedHypothesis F))
      (ds : List AllocationDecision) (db db' : Db F)
      → All (IsResult s agents start hs) aggregates
      → record_all t ms s aggregates by_id ds db ≡ ok db'
      → Appended ds db db'
  unfolding record_all
  record_all-Appended aggregates by_id [] db db' good h =
      ([], sym (ok-inj h) ∙ none_appended db, refl, tt)
  record_all-Appended aggregates by_id (d ∷ ds) db db' good h =
      let (result, h1, e1) = bind-eq-ok (find d.hypothesis_id aggregates) _ h in
      let (ranked, h2, e2) = bind-eq-ok (find d.hypothesis_id by_id) _ e1 in
      let row = decision_row t ms s d result ranked in
      let (db1, h3, e3) = bind-eq-ok (insert_attention_decision row db) _ e2 in
      let (rows, same, kept, all) = record_all-Appended aggregates by_id ds db1 db' good e3 in
      let of_pass =
        find-All (IsResult s agents start hs) d.hypothesis_id aggregates result h1 good in
      (
        row ∷ rows,
        one_more row rows db db1 db' (insert_decision-effect row db db1 h3) same,
        ap (λ l. from_decision d ∷ l) kept,
        ((refl, refl, refl, (result, of_pass, refl, refl)), all),
      )
