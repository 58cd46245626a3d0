-- ===== src/Core/Attack/Bill.antt =====
-- What the bill of an attack says.
use native.Mathlib.Nat.{mul-le-mul_left}
use stakeroute.Prelude.{
  ℕ, ◌+◌, ◌*◌, ◌≤◌, ◌≡◌, refl, subst, ◌⊎◌, inl, inr, Bool, true, false, not, ◌&&◌, ◌||◌, Option,
  none, some, ℤ, pos, negsuc, neg, *ℤ_parts, pos_part, neg_part, ◌*ℤ◌, ◌≤ℤ◌, int_laws, leb_ℤ, eqb_ℤ,
  max_ℤ, codes, Result, ok, ◌>>=◌, bind-eq-ok, ok-inj, Bool-cases, arith, if◌then◌else◌,
}
use stakeroute.Float.{Float, zero_f, le, divide, sqrt}
use stakeroute.Core.Settlement.{settle_forecast, default_places}
use stakeroute.Core.Settlement.Forecast.{IsSettled, settle_forecast-IsSettled}
use stakeroute.Core.Attack.{
  required_probability, required_adversary_weight, sybil_identities_required,
  attack_settlement_loss,
}
use stakeroute.Core.Attack.Cost.{
  AttackCost, priced, price_identities, price_weight, stakeroute_attack_cost,
}

scaled : (a b n : ℤ) → a ≤ℤ b → pos 0 ≤ℤ n → a *ℤ n ≤ℤ n *ℤ b
scaled a b (pos n) h k =
    let grown : n * (pos_part a + neg_part b) ≤ n * (pos_part b + neg_part a) =
      mul-le-mul_left n h in
    omega (arith, grown, *ℤ_parts a (pos n), *ℤ_parts (pos n) b)
scaled a b (negsuc n) h k = omega (arith, k)

zero_or_more : (n s : ℤ) → pos 0 ≤ℤ n → pos 0 ≤ℤ s → pos 0 ≤ℤ n *ℤ s
unfolding ◌*ℤ◌
zero_or_more (pos n) (pos s) h k = ground arith
zero_or_more (pos n) (negsuc s) h k = omega (arith, k)
zero_or_more (negsuc n) s h k = omega (arith, h)

one_needed :
    (n : ℤ) (leads : Bool)
    → pos 0 ≤ℤ n
    → (leads ≡ true) ⊎ (pos 1 ≤ℤ (if eqb_ℤ n (pos 0) && not leads then pos 1 else n))
one_needed n true h = inl refl
one_needed n false h = inr (ground arith)

module _ {F : Type 0} ⦃f : Float F⦄ where
  -- An attack loses at settlement at most what its identities have staked.
  loss-le :
      (n s : ℤ) (prior p : F) (outcome : ℤ) (places : ℕ) (loss : ℤ)
      → pos 0 ≤ℤ n
      → pos 0 ≤ℤ s
      → attack_settlement_loss n s prior p outcome places ≡ ok loss
      → loss ≤ℤ n *ℤ s
  unfolding attack_settlement_loss
  loss-le n s prior p outcome places loss hn hs h =
      elim (Bool-cases (leb_ℤ n (pos 0) || leb_ℤ s (pos 0))) [
        | inl free ↦
            let e : pos 0 ≡ loss = ok-inj (ground arith) in
            subst (λ l. l ≤ℤ n *ℤ s) e (zero_or_more n s hn hs)
        | inr staked ↦
            let (r, hr, e) =
              bind-eq-ok (settle_forecast (codes "attack-cost-estimate") s prior p outcome places)
                (λ r. ok (neg r.credit_delta *ℤ n)) {b = loss} (ground arith) in
            let bound = IsSettled.bound (
              settle_forecast-IsSettled (codes "attack-cost-estimate") s prior p outcome places r
                hr) in
            subst (λ l. l ≤ℤ n *ℤ s) (ok-inj e)
              (scaled (neg r.credit_delta) s n (omega (int_laws, bound)) hn)
      ]

  abbrev counts : F → F → ℤ → Bool → Result (Option ℤ)
  counts w r s shared = do
    root ← sqrt (f.of_int s)
    identities ← divide w (f.times r root)
    count ← f.ceil (if shared then f.square identities else identities)
    ok (some (max_ℤ (pos 1) count))

  counted :
      (w r : F) (s : ℤ) (shared : Bool) (n : ℤ) → counts w r s shared ≡ ok (some n) → pos 0 ≤ℤ n
  counted w r s shared n h =
      let (root, hr, h1) = bind-eq-ok (sqrt (f.of_int s)) _ h in
      let (x, hx, h2) = bind-eq-ok (divide w (f.times r root)) _ h1 in
      let (k, hk, e) = bind-eq-ok (f.ceil (if shared then f.square x else x)) _ h2 in ground arith

  -- No count of identities is negative.
  sybil-count :
      (w r : F) (s : ℤ) (shared : Bool) (n : ℤ)
      → sybil_identities_required w r s shared ≡ ok (some n)
      → pos 0 ≤ℤ n
  unfolding sybil_identities_required
  sybil-count w r s shared n h = elim (Bool-cases (le w zero_f)) [
    | inl free ↦ ground arith
    | inr weighty ↦ elim (Bool-cases (le r zero_f || leb_ℤ s (pos 0))) [
      | inl hopeless ↦ ground arith
      | inr able ↦ counted w r s shared n (ground arith)
    ]
  ]

  -- A bill for an attack that works.
  abbrev pub IsBill : ℤ → Bool → AttackCost F → Type 0
  IsBill stake leads c =
      (pos 0 ≤ℤ c.identities)
      × ((leads ≡ true) ⊎ (pos 1 ≤ℤ c.identities))
      × (c.credits ≡ c.identities *ℤ stake)
      × (c.settlement_loss_credits ≤ℤ c.credits)

  module _ (r : F) (s : ℤ) (shared : Bool) (p prior : F) (hs : pos 0 ≤ℤ s) where
    priced-IsBill :
        (threshold w : F) (leads : Bool) (n : ℤ) (c : AttackCost F)
        → pos 0 ≤ℤ n
        → priced r s shared p prior threshold w leads n ≡ ok c
        → IsBill s leads c
    unfolding priced
    priced-IsBill threshold w leads n c hn h =
        let m = if eqb_ℤ n (pos 0) && not leads then pos 1 else n in
        let enough : pos 0 ≤ℤ m = ground arith in
        let some_needed : (leads ≡ true) ⊎ (pos 1 ≤ℤ m) = one_needed n leads hn in
        let (loss, hl, e) =
          bind-eq-ok (attack_settlement_loss m s prior p (pos 0) default_places) _ h in
        let bound = loss-le m s prior p (pos 0) default_places loss enough hs hl in
        subst (IsBill s leads) (ok-inj e) (enough, some_needed, refl, bound)

    identities-IsBill :
        (threshold w : F) (leads : Bool) (n : Option ℤ) (c : AttackCost F)
        → ((k : ℤ) → n ≡ some k → pos 0 ≤ℤ k)
        → price_identities r s shared p prior threshold w leads n ≡ ok c
        → c.feasible ≡ true
        → IsBill s leads c
    unfolding price_identities
    identities-IsBill threshold w leads none c hn h works = ground arith
    identities-IsBill threshold w leads (some n) c hn h works =
        priced-IsBill threshold w leads n c (hn n refl) h

    weight-IsBill :
        (threshold : F) (leads : Bool) (w : Option F) (c : AttackCost F)
        → price_weight r s shared p prior threshold leads w ≡ ok c
        → c.feasible ≡ true
        → IsBill s leads c
    unfolding price_weight
    weight-IsBill threshold leads none c h works = ground arith
    weight-IsBill threshold leads (some w) c h works =
        let (n, hn, e) = bind-eq-ok (sybil_identities_required w r s shared) _ h in
        identities-IsBill threshold w leads n c
          (λ k is.
            sybil-count w r s shared k
              (subst (λ o. sybil_identities_required w r s shared ≡ ok o) is hn))
          e works

    -- If the attack on StakeRoute's aggregation is feasible, with a stake per identity that is not
    -- negative, then the bill is made up of a count of identities that is not negative, and is at
    -- least one unless the target already leads; their stakes are the credits; and what settlement
    -- destroys is at most those credits.
    pub stakeroute_attack_cost-IsBill :
        (d : F) (i : ℤ) (u v w q : F) (c : AttackCost F)
        → stakeroute_attack_cost r s shared p prior d i u v w q ≡ ok c
        → c.feasible ≡ true
        → (threshold : F) × (required_probability d i u v ≡ ok threshold)
          × IsBill s (le threshold q) c
    unfolding stakeroute_attack_cost
    stakeroute_attack_cost-IsBill d i u v w q c h works =
        let (threshold, ht, h1) = bind-eq-ok (required_probability d i u v) _ h in
        let (weight, hw, h2) = bind-eq-ok (required_adversary_weight w q threshold p) _ h1 in
        (threshold, ht, weight-IsBill threshold (le threshold q) weight c h2 works)
