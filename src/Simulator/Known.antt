-- ===== src/Simulator/Known.antt =====
-- The forecasts of a generated world: src/stakeroute/simulator/scenarios.py.
use stakeroute.Prelude.{
  ℕ, ◌+◌, ◌%◌, ◌==◌, ◌≡◌, inl, inr, true, not, List, [], ◌∷◌, ◌++◌, ℤ, pos, ◌≤ℤ◌, eqb_ℤ, Text,
  text_eq, text_eq_refl, All, All-append, Bool-cases, arith,
}
use stakeroute.Float.{Float}
use stakeroute.Storage.Tables.{exists, exists_self}
use stakeroute.Worker.Forecasts.{stake_min, stake_max}
use stakeroute.Simulator.{
  Random, HypothesisSpec, ForecastSpec, AgentProfile, honest_profiles, minor_profile,
}
use stakeroute.Simulator.World.{
  payment_hypothesis, database_hypothesis, minor_hypotheses, forecast_probability, forecast_spec,
  noise_signals, contender_forecasts, profile_forecasts, minor_forecasts, generate_world,
}

-- `randint(a, b)` gives a number N with a <= N <= b.
pub record IsRanged {R F : Type 0} (rng : Random R F) : Type 0 where
  pub low : (a b : ℤ) (r : R) → a ≤ℤ b → a ≤ℤ (rng.randint a b r).0
  pub high : (a b : ℤ) (r : R) → a ≤ℤ b → (rng.randint a b r).0 ≤ℤ b

module _ {F : Type 0} (hs : List (HypothesisSpec F)) (ps : List (AgentProfile F)) where
  abbrev HasHypothesis : Text → Type 0
  HasHypothesis i = exists (λ h. text_eq h.id i) hs ≡ true

  abbrev HasAgent : Text → Type 0
  HasAgent a = exists (λ p. text_eq p.agent_id a) ps ≡ true

  -- The stake is within the worker's limits, and the hypothesis and the agent are among the given.
  abbrev pub IsKnown : ForecastSpec F → Type 0
  IsKnown s =
      (stake_min ≤ℤ s.stake)
      × (s.stake ≤ℤ stake_max)
      × HasHypothesis s.hypothesis_id
      × HasAgent s.agent_id

module _ {F R : Type 0} ⦃f : Float F⦄ (rng : Random R F) (ranged : IsRanged rng)
    (hs : List (HypothesisSpec F)) (ps : List (AgentProfile F)) where
  drawn :
      (h : HypothesisSpec F) (p : AgentProfile F) (probability : F) (a b : ℤ) (r : R)
      → stake_min ≤ℤ a
      → a ≤ℤ b
      → b ≤ℤ stake_max
      → HasHypothesis hs ps h.id
      → HasAgent hs ps p.agent_id
      → IsKnown hs ps (forecast_spec rng h p probability (rng.randint a b r).0)
  drawn h p probability a b r low order high there who = (
    omega (arith, low, ranged.low a b r order),
    omega (arith, high, ranged.high a b r order),
    there,
    who,
  )

  contenders-IsKnown :
      (p : AgentProfile F) (mine : List (HypothesisSpec F)) (r : R)
      → HasAgent hs ps p.agent_id
      → All (λ h. HasHypothesis hs ps h.id) mine
      → All (IsKnown hs ps) (contender_forecasts rng p mine r).0
  unfolding contender_forecasts
  contenders-IsKnown p [] r who all = tt
  contenders-IsKnown p (h ∷ mine) r who (there, all) =
      let (probability, r1) = forecast_probability rng (not (eqb_ℤ h.ground_truth (pos 0))) p r in
      (
        drawn h p probability (pos 10) (pos 40) r1 (omega arith) (omega arith) (omega arith) there
            who,
        contenders-IsKnown p mine (rng.randint (pos 10) (pos 40) r1).1 who all,
      )

  profiles-IsKnown :
      (some_ps : List (AgentProfile F)) (mine : List (HypothesisSpec F)) (r : R)
      → All (λ p. HasAgent hs ps p.agent_id) some_ps
      → All (λ h. HasHypothesis hs ps h.id) mine
      → All (IsKnown hs ps) (profile_forecasts rng some_ps mine r).0
  unfolding profile_forecasts
  profiles-IsKnown [] mine r who all = tt
  profiles-IsKnown (p ∷ some_ps) mine r (first, others) all =
      let here = contender_forecasts rng p mine r in
      All-append (IsKnown hs ps) here.0 (profile_forecasts rng some_ps mine here.1).0
        (contenders-IsKnown p mine r first all) (profiles-IsKnown some_ps mine here.1 others all)

  minors-IsKnown :
      (mine : List (HypothesisSpec F)) (i : ℕ) (r : R)
      → ((j : ℕ) → HasAgent hs ps (minor_profile {F = F} j).agent_id)
      → All (λ h. HasHypothesis hs ps h.id) mine
      → All (IsKnown hs ps) (minor_forecasts rng mine i r)
  unfolding minor_forecasts
  minors-IsKnown [] i r who all = tt
  minors-IsKnown (h ∷ mine) i r who (there, all) =
      let (value, r1) = rng.uniform (f.literal 15 2) (f.literal 35 2) r in
      (
        drawn h (minor_profile i) (rng.round value 3) (pos 1) (pos 5) r1 (omega arith) (omega arith)
            (omega arith) there (who i),
        minors-IsKnown mine (i + 1) (rng.randint (pos 1) (pos 5) r1).1 who all,
      )

module _ {F : Type 0} ⦃f : Float F⦄ (hs : List (HypothesisSpec F)) where
  honest-HasAgent : All (λ p. HasAgent hs honest_profiles p.agent_id) (honest_profiles {F = F})
  honest-HasAgent =
      exists_self (λ (p : AgentProfile F) (q : AgentProfile F). text_eq q.agent_id p.agent_id)
        (λ p. text_eq_refl p.agent_id) honest_profiles

  minor-HasAgent : (i : ℕ) → HasAgent hs honest_profiles (minor_profile {F = F} i).agent_id
  minor-HasAgent i = elim (Bool-cases (i % 2 == 0)) [
    | inl even ↦ rw even honest-HasAgent.1.1.1.0
    | inr odd ↦ rw odd honest-HasAgent.1.1.1.1.1.0
  ]

-- Every forecast of a generated world has a stake within the limits that the worker enforces, and is
-- on a hypothesis of the world by an agent of the world, whatever the generator draws, as long as
-- `randint` stays in its range.
pub generate_world-IsKnown :
    {F R : Type 0} ⦃f : Float F⦄ (rng : Random R F) (r : R) (noise_count minor_hypothesis_count : ℕ)
    (reference_ms : ℤ)
    → IsRanged rng
    → let world = generate_world rng r noise_count minor_hypothesis_count reference_ms in
      All (IsKnown world.hypotheses world.agents) world.forecasts
unfolding generate_world
generate_world-IsKnown {F} rng r noise_count minor_hypothesis_count reference_ms ranged =
    let r1 = (noise_signals rng reference_ms noise_count 0 r).1 in
    let contenders : List (HypothesisSpec F) =
      payment_hypothesis reference_ms ∷ database_hypothesis reference_ms ∷ [] in
    let minors : List (HypothesisSpec F) = minor_hypotheses reference_ms minor_hypothesis_count 0 in
    let hs = contenders ++ minors in
    let honest = profile_forecasts rng honest_profiles contenders r1 in
    let there =
      exists_self (λ (h : HypothesisSpec F) (g : HypothesisSpec F). text_eq g.id h.id)
        (λ h. text_eq_refl h.id) hs in
    All-append (IsKnown hs honest_profiles) honest.0 (minor_forecasts rng minors 0 honest.1)
      (profiles-IsKnown rng ranged hs honest_profiles honest_profiles contenders r1
        (honest-HasAgent hs) (there.0, (there.1.0, tt)))
      (minors-IsKnown rng ranged hs honest_profiles minors 0 honest.1 (minor-HasAgent hs) there.1.1)
