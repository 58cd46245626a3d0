-- ===== src/Core/Baselines/Votes.antt =====
-- What the two baselines read of a set of forecasts.
use stakeroute.Prelude.{
  ◌≡◌, refl, ◌∙◌, true, false, ◌⊎◌, inl, ◌+◌, List, [], ◌∷◌, ◌++◌, foldl, length, pos, All,
  Rearranged, length-perm, length-append, count-perm, count-append, arith,
}
use stakeroute.Float.{Float, le, IsNumber}
use stakeroute.Float.Order.{IsOrdered, le_trans, le_refl, le_of_not_lt}
use stakeroute.Core.Types.{ForecastSnapshot}
use stakeroute.Core.Baselines.{
  votes_true, majority_vote_probability, larger, highest_confidence_probability,
}

module _ {F : Type 0} ⦃f : Float F⦄ where
  -- The value occurs among the forecasts' probabilities.
  abbrev pub IsReported : F → List (ForecastSnapshot F) → Type 0
  IsReported p [] = ⊥
  IsReported p (g ∷ gs) = (p ≡ g.probability) ⊎ IsReported p gs

  foldl-larger-IsReported :
      (gs : List (ForecastSnapshot F)) (best : F)
      → (foldl larger best gs ≡ best) ⊎ IsReported (foldl larger best gs) gs
  foldl-larger-IsReported [] best = inl refl
  foldl-larger-IsReported (g ∷ gs) best = ground (arith, foldl-larger-IsReported gs (larger best g))

  module _ (o : IsOrdered F) where
    le-larger :
        (best : F) (g : ForecastSnapshot F)
        → IsNumber best
        → IsNumber g.probability
        → (le best (larger best g) ≡ true) × (le g.probability (larger best g) ≡ true)
    le-larger best g p q = ground (arith, le_of_not_lt o g.probability best q p, le_refl o best p)

    larger-IsNumber :
        (best : F) (g : ForecastSnapshot F)
        → IsNumber best
        → IsNumber g.probability
        → IsNumber (larger best g)
    larger-IsNumber best g p q = ground arith

    foldl-larger-le :
        (gs : List (ForecastSnapshot F)) (best : F)
        → IsNumber best
        → All (λ g. IsNumber g.probability) gs
        → let top = foldl larger best gs in
          (le best top ≡ true) × All (λ g. le g.probability top ≡ true) gs
    foldl-larger-le [] best n h = (le_refl o best n, tt)
    foldl-larger-le (g ∷ gs) best n h =
        let next = larger best g in
        let (below, rest) = foldl-larger-le gs next (larger-IsNumber best g n h.0) h.1 in
        let (old, new) = le-larger best g n h.0 in
        (
          le_trans o best next (foldl larger next gs) old below,
          (le_trans o g.probability next (foldl larger next gs) new below, rest),
        )

    -- On forecasts whose probabilities are numbers, the highest-confidence baseline gives one of
    -- the reported probabilities, and none of them is above it: one forecast decides.
    pub highest_confidence_is_max :
        (g : ForecastSnapshot F) (gs : List (ForecastSnapshot F)) (prior : F)
        → All (λ h. IsNumber h.probability) (g ∷ gs)
        → let top = highest_confidence_probability (g ∷ gs) prior in
          IsReported top (g ∷ gs) × All (λ h. le h.probability top ≡ true) (g ∷ gs)
    unfolding highest_confidence_probability
    highest_confidence_is_max g gs prior n =
        (foldl-larger-IsReported gs g.probability, foldl-larger-le gs g.probability n.0 n.1)

  abbrev pub VotesTrue : ForecastSnapshot F → Type 0
  VotesTrue g = f.lt (f.literal 5 1) g.probability ≡ true

  abbrev pub VotesFalse : ForecastSnapshot F → Type 0
  VotesFalse g = f.lt (f.literal 5 1) g.probability ≡ false

  everyone_votes : (xs : List (ForecastSnapshot F)) → All VotesTrue xs → votes_true xs ≡ length xs
  everyone_votes [] h = refl
  everyone_votes (x ∷ xs) (h, hs) = ground (arith, everyone_votes xs hs)

  nobody_votes : (ys : List (ForecastSnapshot F)) → All VotesFalse ys → votes_true ys ≡ 0
  nobody_votes [] h = refl
  nobody_votes (y ∷ ys) (h, hs) = ground (arith, nobody_votes ys hs)

  -- The majority vote is the share of the forecasts that are above one half, whatever their order,
  -- their agents and their stakes: for forecasts, at least one, that are some above one half and some
  -- not, it is the number of the former over the number of all.
  pub majority_is_share :
      (g : ForecastSnapshot F) (gs xs ys : List (ForecastSnapshot F)) (prior : F)
      → Rearranged (g ∷ gs) (xs ++ ys)
      → All VotesTrue xs
      → All VotesFalse ys
      → majority_vote_probability (g ∷ gs) prior
        ≡ f.ratio (pos (length xs)) (pos (length xs + length ys))
  unfolding majority_vote_probability
  majority_is_share g gs xs ys prior r h k =
      let above = λ (g : ForecastSnapshot F). f.lt (f.literal 5 1) g.probability in
      let votes : votes_true (g ∷ gs) ≡ length xs = omega (
        arith,
        count-perm above r,
        count-append above xs ys,
        everyone_votes xs h,
        nobody_votes ys k,
      ) in
      let size = length-perm r ∙ length-append xs ys in λ i. f.ratio (pos (votes i)) (pos (size i))
