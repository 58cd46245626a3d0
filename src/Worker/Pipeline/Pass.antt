-- ===== src/Worker/Pipeline/Pass.antt =====
-- The decisions of a whole ranking pass.
use stakeroute.Prelude.{
  ℕ, min, ◌≡◌, refl, sym, ap, subst, ◌∙◌, Bool, List, [], ◌∷◌, ◌++◌, map, map-map, map-perm,
  count-map, length-map, length, count, ℤ, pos_part, Text, Rearranged, sorted, sorted-perm, ok,
  bind-eq-ok, ok-inj, All,
}
use stakeroute.Float.{Float}
use stakeroute.Core.Types.{RankedHypothesis}
use stakeroute.Core.Market.{Agents}
use stakeroute.Core.Ranking.{ranks_before, allocate_attention}
use stakeroute.Core.Ranking.Budget.{
  ranks_from, allocate_spends_budget, allocate-IsByRank, allocate_from-ids,
}
use stakeroute.Storage.Rows.{
  HypothesisRow, Strategy, market, majority_vote, highest_confidence, DecisionRow, Db,
}
use stakeroute.Storage.Repository.{list_forecasts_for_hypothesis, list_open_hypotheses}
use stakeroute.Worker.Pipeline.{
  RankingPassResult, PassResults, forecast_snapshots, load_agent_snapshots, rank_all, record_all,
  run_one_strategy, run_ranking_pass,
}
use stakeroute.Worker.Pipeline.Decisions.{
  from_decision, from_row, IsOfPass, rank_all-IsRanking, record_all-Appended,
}

module _ {F : Type 0} ⦃f : Float F⦄ where
  -- the ids of the decisions are those of the ranked hypotheses
  pub allocate-ids :
      (rk : List (RankedHypothesis F)) (budget : ℤ)
      → Rearranged
          (map (λ d. d.hypothesis_id) (allocate_attention rk budget).decisions)
          (map (λ r. r.hypothesis_id) rk)
  unfolding allocate_attention
  allocate-ids rk budget =
      let ordered = sorted ranks_before rk in
      subst (λ l. Rearranged l (map (λ r. r.hypothesis_id) rk))
        (sym (allocate_from-ids budget (length ordered) 1 0 ordered))
        (map-perm (λ (r : RankedHypothesis F). r.hypothesis_id) (sorted-perm ranks_before rk))

module _ {F : Type 0} ⦃f : Float F⦄ (t : Text) (budget ms : ℤ) (hs : List (HypothesisRow F))
    (agents : Agents F) (db : Db F) where
  -- The rows that one strategy records for the hypotheses: one for each, ranked 1, 2, ... in their
  -- order, as many of them routed as the budget allows.
  abbrev pub Decided : Strategy → List (DecisionRow F) → Type 0
  Decided s rows =
      Rearranged (map (λ r. r.hypothesis_id) rows) (map (λ h. h.id) hs)
      × (map (λ r. r.rank) rows ≡ ranks_from 1 (length hs))
      × (count (λ r. r.routed) rows ≡ min (pos_part budget) (length hs))
      × All (IsOfPass t ms s hs agents db) rows

  rows-Decided :
      (s : Strategy) (rk : List (RankedHypothesis F)) (rows : List (DecisionRow F))
      → map (λ r. r.hypothesis_id) rk ≡ map (λ h. h.id) hs
      → map from_row rows ≡ map from_decision (allocate_attention rk budget).decisions
      → All (IsOfPass t ms s hs agents db) rows
      → Decided s rows
  rows-Decided s rk rows ids kept all =
      let ds = (allocate_attention rk budget).decisions in
      let as_many : length rk ≡ length hs =
        sym (length-map (λ (r : RankedHypothesis F). r.hypothesis_id) rk)
        ∙ ap length ids
        ∙ length-map (λ (h : HypothesisRow F). h.id) hs in
      let row_ids =
        sym (map-map (λ (x : Text × ℕ × Bool). x.0) from_row rows)
        ∙ ap (map (λ (x : Text × ℕ × Bool). x.0)) kept
        ∙ map-map (λ (x : Text × ℕ × Bool). x.0) from_decision ds in
      let row_ranks =
        sym (map-map (λ (x : Text × ℕ × Bool). x.1) from_row rows)
        ∙ ap (map (λ (x : Text × ℕ × Bool). x.1)) kept
        ∙ map-map (λ (x : Text × ℕ × Bool). x.1) from_decision ds in
      let row_routed =
        sym (count-map (λ (x : Text × ℕ × Bool). x.2) from_row rows)
        ∙ ap (count (λ (x : Text × ℕ × Bool). x.2)) kept
        ∙ count-map (λ (x : Text × ℕ × Bool). x.2) from_decision ds in
      (
        subst (λ l. Rearranged l (map (λ h. h.id) hs)) (sym row_ids)
            (subst (Rearranged (map (λ d. d.hypothesis_id) ds)) ids (allocate-ids rk budget)),
        row_ranks ∙ (allocate-IsByRank rk budget).1 ∙ ap (ranks_from 1) as_many,
        row_routed ∙ (allocate_spends_budget rk budget).1 ∙ ap (min (pos_part budget)) as_many,
        all,
      )

  -- The decisions recorded so far change nothing for the ranking.
  rank_all-decisions :
      (s : Strategy) (l : List (DecisionRow F)) (gs : List (HypothesisRow F))
      → rank_all s agents (record db { decisions = l }) gs ≡ rank_all s agents db gs
  unfolding rank_all forecast_snapshots list_forecasts_for_hypothesis
  rank_all-decisions s l [] = refl
  rank_all-decisions s l (g ∷ gs) = rw (rank_all-decisions s l gs)

  run_one_strategy-Decided :
      (s : Strategy) (l : List (DecisionRow F)) (r : RankingPassResult F × Db F)
      → run_one_strategy t ms s hs agents budget (record db { decisions = l }) ≡ ok r
      → (rows : List (DecisionRow F)) × (r.1 ≡ record db { decisions = l ++ rows }) × Decided s rows
  unfolding run_one_strategy
  run_one_strategy-Decided s l r h =
      let base = record db { decisions = l } in
      let (ranking, h1, e1) = bind-eq-ok (rank_all s agents base hs) _ h in
      let by_id = map (λ (r : RankedHypothesis F). (r.hypothesis_id, r)) ranking.1 in
      let ds = (allocate_attention ranking.1 budget).decisions in
      let (db', h2, e2) = bind-eq-ok (record_all t ms s ranking.0 by_id ds base) _ e1 in
      let (ids, good) =
        rank_all-IsRanking s agents db hs ranking (sym (rank_all-decisions s l hs) ∙ h1) in
      let (rows, same, kept, all) =
        record_all-Appended t ms s hs agents db ranking.0 by_id ds base db' good h2 in
      (
        rows,
        sym (ap (λ (x : RankingPassResult F × Db F). x.1) (ok-inj e2)) ∙ same,
        rows-Decided s ranking.1 rows ids kept all,
      )

module _ {F : Type 0} ⦃f : Float F⦄ where
  -- A ranking pass that raises nothing changes no table but the one of decisions, where it adds
  -- the rows of its three strategies, in their order. Each strategy decides on every open
  -- hypothesis of the tenant once, with the ranks 1, 2, ..., and routes as many as the budget and
  -- their number allow; each row has the tenant, the strategy and the time of the pass, and the
  -- probability and the contributions that the strategy gives for the hypothesis's forecasts.
  pub run_ranking_pass-effect :
      (t : Text) (budget ms : ℤ) (db db' : Db F) (results : PassResults F)
      → run_ranking_pass t budget ms db ≡ ok (results, db')
      → let decided =
          Decided t budget ms (list_open_hypotheses t db) (load_agent_snapshots t db) db in
        (first : List (DecisionRow F)) × (second : List (DecisionRow F)) × (third : List
          (DecisionRow F))
        × (db' ≡ record db { decisions = ((db.decisions ++ first) ++ second) ++ third })
        × decided market first
        × decided majority_vote second
        × decided highest_confidence third
  unfolding run_ranking_pass
  run_ranking_pass-effect t budget ms db db' results h =
      let hs = list_open_hypotheses t db in
      let agents = load_agent_snapshots t db in
      let step = run_one_strategy-Decided t budget ms hs agents db in
      let (r1, h1, e1) = bind-eq-ok (run_one_strategy t ms market hs agents budget db) _ h in
      let (first, same1, decided1) = step market db.decisions r1 h1 in
      let (r2, h2, e2) =
        bind-eq-ok (run_one_strategy t ms majority_vote hs agents budget r1.1) _ e1 in
      let (second, same2, decided2) =
        step majority_vote (db.decisions ++ first) r2
          (ap (run_one_strategy t ms majority_vote hs agents budget) (sym same1) ∙ h2) in
      let (r3, h3, e3) =
        bind-eq-ok (run_one_strategy t ms highest_confidence hs agents budget r2.1) _ e2 in
      let (third, same3, decided3) =
        step highest_confidence ((db.decisions ++ first) ++ second) r3
          (ap (run_one_strategy t ms highest_confidence hs agents budget) (sym same2) ∙ h3) in
      (
        first,
        second,
        third,
        sym (ap (λ (x : PassResults F × Db F). x.1) (ok-inj e3)) ∙ same3,
        decided1,
        decided2,
        decided3,
      )
