-- ===== src/Core/Market/Explain.antt =====
-- The contributions of an aggregation.
use stakeroute.Prelude.{◌≡◌, List, [], ◌∷◌, foldl, Result, ok, if◌then◌else◌}
use stakeroute.Float.{Float, zero_f, divide}
use stakeroute.Core.Types.{AgentSnapshot, ForecastSnapshot, Contribution}
use stakeroute.Core.Independence.{independence_factor}
use stakeroute.Core.Market.{Agents, find_agent, cluster_size, Weighted, influence_weight}

-- Two lists agree place by place.
abbrev pub Zip : {A B : Type 0} → (A → B → Type 0) → List A → List B → Type 0
Zip R [] [] = Unit
Zip R (x ∷ xs) (y ∷ ys) = R x y × Zip R xs ys
Zip R _ _ = ⊥

module _ {F : Type 0} ⦃f : Float F⦄ where
  -- `alpha`, from a weight and the total weight
  abbrev pub share : F → F → Result F
  share total_weight weight =
      if f.lt zero_f total_weight then divide weight total_weight else ok zero_f

  -- A weighted forecast whose fields are what the first loop computes for it.
  pub record IsWeighed (forecasts : List (ForecastSnapshot F)) (agents : Agents F)
      (g : ForecastSnapshot F) (w : Weighted F) : Type 0 where
    pub of_forecast : w.forecast ≡ g
    pub agent : find_agent g.agent_id agents ≡ ok w.agent
    pub size : w.size ≡ cluster_size forecasts g.evidence_cluster_id
    pub independence : independence_factor w.size ≡ ok w.independence
    pub weight : influence_weight w.agent.reputation g.stake w.independence ≡ ok w.weight

  -- A contribution that follows from its forecast, the agent's reputation, the size of the cluster
  -- and the total weight.
  pub record IsExplained (forecasts : List (ForecastSnapshot F)) (agents : Agents F) (total : F)
      (g : ForecastSnapshot F) (c : Contribution F) : Type 0 where
    pub forecast_id : c.forecast_id ≡ g.id
    pub agent_id : c.agent_id ≡ g.agent_id
    pub probability : c.probability ≡ g.probability
    pub stake : c.stake ≡ g.stake
    pub cluster : c.evidence_cluster_id ≡ g.evidence_cluster_id
    pub reputation :
        (a : AgentSnapshot F) × (find_agent g.agent_id agents ≡ ok a)
        × (c.reputation ≡ a.reputation)
    pub size : c.cluster_size ≡ cluster_size forecasts c.evidence_cluster_id
    pub independence : independence_factor c.cluster_size ≡ ok c.independence
    pub weight : influence_weight c.reputation c.stake c.independence ≡ ok c.weight
    pub alpha : share total c.weight ≡ ok c.alpha

  -- `aggregated` once more, from the contributions alone
  abbrev pub explained : F → List (Contribution F) → F
  explained = foldl λ sum c. f.plus sum (f.times c.alpha c.probability)
