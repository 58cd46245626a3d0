-- ===== src/Analysis/Charges.antt =====
-- What the costs of src/stakeroute/core/attack.py charge, as the report uses them.
use stakeroute.Prelude.{
  ◌≡◌, refl, sym, ap, subst, ◌∙◌, inl, inr, Bool, not, ◌&&◌, Option, none, some, List, [], ◌∷◌, map,
  ℤ, pos, ◌*ℤ◌, eqb_ℤ, *ℤ_parts, eq_of_parts, Text, text_eq, codes, ok, bind-eq-ok, ok-inj,
  Bool-cases, arith, if◌then◌else◌,
}
use stakeroute.Float.{Float, le}
use stakeroute.Core.Types.{probability_ceil}
use stakeroute.Core.Attack.{
  required_probability, required_adversary_weight, sybil_identities_required,
  attack_settlement_loss, majority_vote_identities_required, highest_confidence_identities_required,
}
use stakeroute.Core.Settlement.{default_places}
use stakeroute.Core.Attack.Cost.{
  AttackCost, priced, price_identities, price_weight, stakeroute_attack_cost, baseline_priced,
  baseline_attack_cost, attack_frontier,
}

times_zero : (n : ℤ) → n *ℤ pos 0 ≡ pos 0
times_zero n = eq_of_parts (n *ℤ pos 0) (pos 0) (omega (arith, *ℤ_parts n (pos 0)))

module _ {F : Type 0} ⦃f : Float F⦄ where
  module _ (r : F) (s : ℤ) (shared : Bool) (p prior : F) where
    priced-reputation :
        (threshold w : F) (leads : Bool) (n : ℤ) (c : AttackCost F)
        → priced r s shared p prior threshold w leads n ≡ ok c
        → c.reputation_per_identity ≡ r
    unfolding priced
    priced-reputation threshold w leads n c h =
        let m = if eqb_ℤ n (pos 0) && not leads then pos 1 else n in
        let (loss, hl, e) =
          bind-eq-ok (attack_settlement_loss m s prior p (pos 0) default_places) _ h in
        sym (ap (λ (x : AttackCost F). x.reputation_per_identity) (ok-inj e))

    identities-reputation :
        (threshold w : F) (leads : Bool) (n : Option ℤ) (c : AttackCost F)
        → price_identities r s shared p prior threshold w leads n ≡ ok c
        → c.reputation_per_identity ≡ r
    unfolding price_identities
    identities-reputation threshold w leads none c h =
        sym (ap (λ (x : AttackCost F). x.reputation_per_identity) (ok-inj h))
    identities-reputation threshold w leads (some n) c h = priced-reputation threshold w leads n c h

    weight-reputation :
        (threshold : F) (leads : Bool) (w : Option F) (c : AttackCost F)
        → price_weight r s shared p prior threshold leads w ≡ ok c
        → c.reputation_per_identity ≡ r
    unfolding price_weight
    weight-reputation threshold leads none c h =
        sym (ap (λ (x : AttackCost F). x.reputation_per_identity) (ok-inj h))
    weight-reputation threshold leads (some w) c h =
        let (n, hn, e) = bind-eq-ok (sybil_identities_required w r s shared) _ h in
        identities-reputation threshold w leads n c e

    cost-reputation :
        (d : F) (i : ℤ) (u v w q : F) (c : AttackCost F)
        → stakeroute_attack_cost r s shared p prior d i u v w q ≡ ok c
        → c.reputation_per_identity ≡ r
    unfolding stakeroute_attack_cost
    cost-reputation d i u v w q c h =
        let (threshold, ht, h1) = bind-eq-ok (required_probability d i u v) _ h in
        let (weight, hw, h2) = bind-eq-ok (required_adversary_weight w q threshold p) _ h1 in
        weight-reputation threshold (le threshold q) weight c h2

  -- The frontier has one cost for each reputation of the sweep, in its order.
  pub attack_frontier-sweep :
      (d : F) (i : ℤ) (u v w q : F) (reputations : List F) (stake : ℤ) (shared : Bool) (prior : F)
      (costs : List (AttackCost F))
      → attack_frontier d i u v w q reputations stake shared prior ≡ ok costs
      → map (λ c. c.reputation_per_identity) costs ≡ reputations
  unfolding attack_frontier
  attack_frontier-sweep d i u v w q [] stake shared prior costs h =
      sym (ap (map (λ (c : AttackCost F). c.reputation_per_identity)) (ok-inj h))
  attack_frontier-sweep d i u v w q (r ∷ rs) stake shared prior costs h =
      let (cost, hc, h1) =
        bind-eq-ok (stakeroute_attack_cost r stake shared probability_ceil prior d i u v w q) _ h in
      let (rest, hr, e) = bind-eq-ok (attack_frontier d i u v w q rs stake shared prior) _ h1 in
      let first = cost-reputation r stake shared probability_ceil prior d i u v w q cost hc in
      let others = attack_frontier-sweep d i u v w q rs stake shared prior rest hr in
      sym (ap (map (λ (c : AttackCost F). c.reputation_per_identity)) (ok-inj e))
      ∙ (λ j. first j ∷ others j)

  -- With no stake an attack on a baseline costs no credits, up front or at settlement.
  abbrev pub IsFree : AttackCost F → Type 0
  IsFree c = (c.credits ≡ pos 0) × (c.settlement_loss_credits ≡ pos 0)

  baseline_priced-IsFree :
      (strategy : Text) (threshold : F) (n : Option ℤ)
      → IsFree (baseline_priced strategy threshold (pos 0) n)
  unfolding baseline_priced
  baseline_priced-IsFree strategy threshold none = (refl, refl)
  baseline_priced-IsFree strategy threshold (some n) = (times_zero n, refl)

  pub baseline_attack_cost-IsFree :
      (strategy : Text) (d : F) (n v : ℤ) (m : F) (c : AttackCost F)
      → baseline_attack_cost strategy d n v m (pos 0) ≡ ok c
      → IsFree c
  unfolding baseline_attack_cost
  baseline_attack_cost-IsFree strategy d n v m c h =
      elim (Bool-cases (text_eq strategy (codes "majority_vote"))) [
        | inl majority ↦
            let (k, hk, e) =
              bind-eq-ok (majority_vote_identities_required n v d)
                (λ k. ok (baseline_priced strategy d (pos 0) k)) {b = c} (ground arith) in
            subst IsFree (ok-inj e) (baseline_priced-IsFree strategy d k)
        | inr other ↦ elim (Bool-cases (text_eq strategy (codes "highest_confidence"))) [
          | inl confidence ↦
              let k = highest_confidence_identities_required m d in
              let e : baseline_priced strategy d (pos 0) k ≡ c = ok-inj (ground arith) in
              subst IsFree e (baseline_priced-IsFree strategy d k)
          | inr unknown ↦ ground arith
        ]
      ]
