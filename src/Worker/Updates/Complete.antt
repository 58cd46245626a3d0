-- ===== src/Worker/Updates/Complete.antt =====
-- What `publish_hypothesis_updates` of src/stakeroute/worker/pipeline.py covers.
use stakeroute.Prelude.{
  ◌≡◌, sym, ap, subst, ◌∙◌, true, Option, none, some, List, [], ◌∷◌, map, map-map, ℤ, Text, text_eq,
  text_eq_refl, text_lt, sorted, sorted-perm, Rearranged, Rearranged-symm, All, All-perm, Pairs, ok,
  bind-eq-ok, ok-inj,
}
use stakeroute.Float.{Float}
use stakeroute.Core.Types.{RankedHypothesis, AllocationDecision}
use stakeroute.Core.Ranking.{allocate_attention}
use stakeroute.Storage.Rows.{HypothesisRow, Strategy, market, majority_vote, highest_confidence, Db}
use stakeroute.Storage.Tables.{exists-perm, exists_self}
use stakeroute.Storage.Repository.{list_open_hypotheses}
use stakeroute.Worker.Pipeline.{
  RankingPassResult, PassResults, load_agent_snapshots, rank_all, record_all, run_one_strategy,
  run_ranking_pass,
}
use stakeroute.Worker.Pipeline.Decisions.{rank_all-IsRanking}
use stakeroute.Worker.Pipeline.Pass.{allocate-ids}
use stakeroute.Worker.Updates.{
  unrepeated, decision_of, ranked_of, strategy_update, put_strategy, strategies_payload,
  hypothesis_update, hypothesis_updates, HypothesisUpdate, StrategyUpdate,
}
use stakeroute.Worker.Updates.Named.{
  named, last_by-named, Unlike, unrepeated-same, map_id, All-image,
}

abbrev pub every_strategy : List Strategy
every_strategy = market ∷ majority_vote ∷ highest_confidence ∷ []

module _ {F : Type 0} (ids : List Text) where
  -- The strategy has ranked and decided on the hypotheses with the ids.
  abbrev Covers : RankingPassResult F → Type 0
  Covers r =
      (map (λ x. x.hypothesis_id) r.ranked ≡ ids)
      × Rearranged (map (λ d. d.hypothesis_id) r.allocation.decisions) ids

  Covers-decision :
      (r : RankingPassResult F) (i : Text)
      → Covers r
      → named i ids ≡ true
      → (d : AllocationDecision) × (decision_of i r ≡ some d)
  Covers-decision r i (ranked, decided) h =
      last_by-named (λ (d : AllocationDecision). d.hypothesis_id) i r.allocation.decisions
        (exists-perm (λ j. text_eq j i) decided ∙ h)

  Covers-ranked :
      (r : RankingPassResult F) (i : Text)
      → Covers r
      → named i ids ≡ true
      → (x : RankedHypothesis F) × (ranked_of i r ≡ some x)
  Covers-ranked r i (ranked, decided) h =
      last_by-named (λ (x : RankedHypothesis F). x.hypothesis_id) i r.ranked
        (ap (named i) ranked ∙ h)

  -- One update for each of the ids, with the entries of all strategies.
  abbrev pub IsComplete : List (HypothesisUpdate F) → Type 0
  IsComplete us =
      All (λ u. map (λ s. s.0) u.strategies ≡ every_strategy) us
      × Rearranged (map (λ u. u.hypothesis_id) us) ids

  abbrev strategies_of : List (Strategy × StrategyUpdate F) → List Strategy
  strategies_of = map λ s. s.0

  put_strategy-named :
      (s : Strategy) (r : RankingPassResult F) (i : Text)
      (rest : List (Strategy × StrategyUpdate F))
      → Covers r
      → named i ids ≡ true
      → strategies_of (put_strategy i s r rest) ≡ s ∷ strategies_of rest
  put_strategy-named s r i rest covers h =
      let (d, e) = Covers-decision r i covers h in
      let (x, k) = Covers-ranked r i covers h in
      ap
        (λ (o : Option (StrategyUpdate F)).
          strategies_of (elim o [ none ↦ rest | some entry ↦ (s, entry) ∷ rest ]))
        (λ j. strategy_update (e j) (k j))

  payload_complete :
      (first second third : RankingPassResult F) (i : Text)
      → Covers first
      → Covers second
      → Covers third
      → named i ids ≡ true
      → strategies_of (strategies_payload i (first, second, third)) ≡ every_strategy
  unfolding strategies_payload
  payload_complete first second third i c1 c2 c3 h =
      let tail3 = put_strategy i highest_confidence third [] in
      let tail2 = put_strategy i majority_vote second tail3 in
      put_strategy-named market first i tail2 c1 h
      ∙ ap (λ l. market ∷ l)
          (put_strategy-named majority_vote second i tail3 c2 h
            ∙ ap (λ l. majority_vote ∷ l) (put_strategy-named highest_confidence third i [] c3 h))

module _ {F : Type 0} ⦃f : Float F⦄ (t : Text) (budget ms : ℤ) (hs : List (HypothesisRow F))
    (db : Db F) where
  abbrev ids_of : List Text
  ids_of = map (λ h. h.id) hs

  run_one_strategy-Covers :
      (s : Strategy) (now : Db F) (r : RankingPassResult F × Db F)
      → run_one_strategy t ms s hs (load_agent_snapshots t db) budget now ≡ ok r
      → Covers ids_of r.0
  unfolding run_one_strategy
  run_one_strategy-Covers s now r h =
      let agents = load_agent_snapshots t db in
      let (ranking, h1, e1) = bind-eq-ok (rank_all s agents now hs) _ h in
      let by_id = map (λ (x : RankedHypothesis F). (x.hypothesis_id, x)) ranking.1 in
      let ds = (allocate_attention ranking.1 budget).decisions in
      let (db', h2, e2) = bind-eq-ok (record_all t ms s ranking.0 by_id ds now) _ e1 in
      let (ids, _) = rank_all-IsRanking s agents now hs ranking h1 in
      subst (λ (x : RankingPassResult F × Db F). Covers ids_of x.0) (ok-inj e2)
        (
          ids,
          subst (Rearranged (map (λ d. d.hypothesis_id) ds)) ids (allocate-ids ranking.1 budget),
        )

  updates-IsComplete :
      (event_id : (tenant_id source source_event_id : Text) (emitted_at_ms : ℤ) → Text)
      (results : PassResults F)
      → Pairs Unlike ids_of
      → Covers ids_of results.0
      → Covers ids_of results.1
      → Covers ids_of results.2
      → IsComplete ids_of (hypothesis_updates event_id t ms results)
  unfolding hypothesis_updates
  updates-IsComplete event_id results unlike c1 c2 c3 =
      let ids = map (λ (r : RankedHypothesis F). r.hypothesis_id) results.0.ranked in
      let order = sorted text_lt (unrepeated ids) in
      let update = hypothesis_update event_id t ms results in
      let once : unrepeated ids ≡ ids_of = ap unrepeated c1.0 ∙ unrepeated-same ids_of unlike in
      let perm = subst (Rearranged order) once (sorted-perm text_lt (unrepeated ids)) in
      let known =
        All-perm (λ i. named i ids_of ≡ true) (Rearranged-symm perm)
          (exists_self (λ i j. text_eq j i) text_eq_refl ids_of) in
      (
        All-image (λ (u : HypothesisUpdate F). map (λ s. s.0) u.strategies ≡ every_strategy) update
            order
            (λ i there. payload_complete ids_of results.0 results.1 results.2 i c1 c2 c3 there)
            known,
        subst (λ l. Rearranged l ids_of)
            (sym
              (map-map (λ (u : HypothesisUpdate F). u.hypothesis_id) update order ∙ map_id order))
            perm,
      )

module _ {F : Type 0} ⦃f : Float F⦄ where
  -- After a ranking pass over open hypotheses with different ids, exactly one update is published for
  -- each of them, and each update carries the entries of all three strategies.
  pub hypothesis_updates-IsComplete :
      (event_id : (tenant_id source source_event_id : Text) (emitted_at_ms : ℤ) → Text) (t : Text)
      (budget ms : ℤ) (db db' : Db F) (results : PassResults F)
      → Pairs Unlike (map (λ h. h.id) (list_open_hypotheses t db))
      → run_ranking_pass t budget ms db ≡ ok (results, db')
      → IsComplete
          (map (λ h. h.id) (list_open_hypotheses t db))
          (hypothesis_updates event_id t ms results)
  unfolding run_ranking_pass
  hypothesis_updates-IsComplete event_id t budget ms db db' results unlike h =
      let hs = list_open_hypotheses t db in
      let agents = load_agent_snapshots t db in
      let covers = run_one_strategy-Covers t budget ms hs db in
      let (r1, h1, e1) = bind-eq-ok (run_one_strategy t ms market hs agents budget db) _ h in
      let (r2, h2, e2) =
        bind-eq-ok (run_one_strategy t ms majority_vote hs agents budget r1.1) _ e1 in
      let (r3, h3, e3) =
        bind-eq-ok (run_one_strategy t ms highest_confidence hs agents budget r2.1) _ e2 in
      let same : (r1.0, r2.0, r3.0) ≡ results =
        ap (λ (x : PassResults F × Db F). x.0) (ok-inj e3) in
      subst
        (λ (x : PassResults F).
          IsComplete (map (λ h. h.id) hs) (hypothesis_updates event_id t ms x))
        same
        (updates-IsComplete t budget ms hs db event_id (r1.0, r2.0, r3.0) unlike
          (covers market db r1 h1) (covers majority_vote r1.1 r2 h2)
          (covers highest_confidence r2.1 r3 h3))
