-- ===== src/Core/Market/Determinism.antt =====
-- Aggregation and the order of the forecasts.
use stakeroute.Prelude.{
  ◌≡◌, ◌≢◌, refl, ap, sym, ◌∙◌, List, [], ◌∷◌, Text, text_eq, text_eq_iff, text_lt_irrefl,
  text_lt_trans, text_lt_total, Rearranged, count-perm, length-perm, All, All-map, All-perm, Pairs,
  Apart, IsStrict, sorted, sorted-eq_of_perm, arith,
}
use stakeroute.Float.{Float}
use stakeroute.Core.Types.{ForecastSnapshot}
use stakeroute.Core.Market.{
  Agents, agent_before, weigh, weigh_all, aggregate_sorted, aggregate_probability,
}

module _ {F : Type 0} where
  agent_before-IsStrict : IsStrict (agent_before {F = F})
  agent_before-IsStrict = record {
    asymm = λ a b h.
        ground (arith, text_lt_trans a.agent_id b.agent_id a.agent_id, text_lt_irrefl a.agent_id);
    trans = λ a b c h k. text_lt_trans a.agent_id b.agent_id c.agent_id h k;
  }

  abbrev pub OtherAgent : ForecastSnapshot F → ForecastSnapshot F → Type 0
  OtherAgent a b = a.agent_id ≢ b.agent_id

  OtherAgent-Apart : (a b : ForecastSnapshot F) → OtherAgent a b → Apart agent_before a b
  OtherAgent-Apart a b ne =
      text_lt_total a.agent_id b.agent_id (ground (arith, text_eq_iff a.agent_id b.agent_id))

  OtherAgent-Pairs :
      (l : List (ForecastSnapshot F)) → Pairs OtherAgent l → Pairs (Apart agent_before) l
  OtherAgent-Pairs [] d = tt
  OtherAgent-Pairs (x ∷ xs) d = (All-map xs (OtherAgent-Apart x) d.0, OtherAgent-Pairs xs d.1)

module _ {F : Type 0} ⦃f : Float F⦄ (agents : Agents F) where
  weigh-perm :
      {xs ys : List (ForecastSnapshot F)}
      → Rearranged xs ys
      → (g : ForecastSnapshot F) → weigh xs agents g ≡ weigh ys agents g
  unfolding weigh
  weigh-perm {xs} {ys} p g =
      rw (count-perm (λ h. text_eq h.evidence_cluster_id g.evidence_cluster_id) p)

  weigh_all-perm :
      {xs ys : List (ForecastSnapshot F)}
      → Rearranged xs ys
      → (l : List (ForecastSnapshot F)) → weigh_all xs agents l ≡ weigh_all ys agents l
  unfolding weigh_all
  weigh_all-perm p [] = refl
  weigh_all-perm p (g ∷ gs) = rw (weigh-perm p g, weigh_all-perm p gs)

  aggregate_sorted-perm :
      (hypothesis_id : Text) {xs ys : List (ForecastSnapshot F)}
      → Rearranged xs ys
      → (l : List (ForecastSnapshot F))
      → aggregate_sorted hypothesis_id xs agents l ≡ aggregate_sorted hypothesis_id ys agents l
  unfolding aggregate_sorted
  aggregate_sorted-perm hypothesis_id p l = rw (weigh_all-perm p l)

  -- For forecasts on one hypothesis by different agents, the order in which they are given changes
  -- nothing in the result, contributions and errors included.
  pub aggregate_deterministic :
      (hypothesis_id : Text) (prior : F) {xs ys : List (ForecastSnapshot F)}
      → Rearranged xs ys
      → Pairs OtherAgent xs
      → All (λ g. g.hypothesis_id ≡ hypothesis_id) xs
      → aggregate_probability xs agents prior ≡ aggregate_probability ys agents prior
  unfolding aggregate_probability
  aggregate_deterministic hypothesis_id prior {xs = []} {ys = []} p d s = refl
  aggregate_deterministic hypothesis_id prior {xs = []} {ys = y ∷ ys} p d s =
      absurd (omega (arith, length-perm p))
  aggregate_deterministic hypothesis_id prior {xs = x ∷ xs} {ys = []} p d s =
      absurd (omega (arith, length-perm p))
  aggregate_deterministic hypothesis_id prior {xs = x ∷ xs} {ys = y ∷ ys} p d s =
      let s' = All-perm (λ g. g.hypothesis_id ≡ hypothesis_id) p s in
      let order =
        sorted-eq_of_perm agent_before agent_before-IsStrict p (OtherAgent-Pairs (x ∷ xs) d) in
      ap (λ (h : Text). aggregate_sorted h (x ∷ xs) agents (sorted agent_before (x ∷ xs)))
        (s.0 ∙ sym s'.0)
      ∙ ap (λ (l : List (ForecastSnapshot F)). aggregate_sorted y.hypothesis_id (x ∷ xs) agents l)
          order
      ∙ aggregate_sorted-perm y.hypothesis_id p (sorted agent_before (y ∷ ys))
