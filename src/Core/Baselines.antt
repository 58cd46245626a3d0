-- ===== src/Core/Baselines.antt =====
-- src/stakeroute/core/baselines.py
pub mod Votes
use stakeroute.Prelude.{ℕ, List, [], ◌∷◌, ℤ, pos, length, count, foldl, if◌then◌else◌}
use stakeroute.Float.{Float}
use stakeroute.Core.Types.{ForecastSnapshot}

module _ {F : Type 0} ⦃f : Float F⦄ where
  abbrev pub votes_true : List (ForecastSnapshot F) → ℕ
  votes_true = count λ g. f.lt (f.literal 5 1) g.probability

  unfoldable pub majority_vote_probability : List (ForecastSnapshot F) → F → F
  majority_vote_probability [] prior_probability = prior_probability
  majority_vote_probability (g ∷ gs) prior_probability =
      f.ratio (pos (votes_true (g ∷ gs))) (pos (length (g ∷ gs)))

  -- one step of `max`, which keeps the first of equal values
  abbrev pub larger : F → ForecastSnapshot F → F
  larger best g = if f.lt best g.probability then g.probability else best

  unfoldable pub highest_confidence_probability : List (ForecastSnapshot F) → F → F
  highest_confidence_probability [] prior_probability = prior_probability
  highest_confidence_probability (g ∷ gs) prior_probability = foldl larger g.probability gs
