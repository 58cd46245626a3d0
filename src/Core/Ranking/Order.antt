-- ===== src/Core/Ranking/Order.antt =====
-- The order in which `allocate_attention` ranks.
use stakeroute.Prelude.{
  List, [], ◌∷◌, map, length, ap, sym, All, All-map, Pairs-perm, IsAscending, Rearranged,
  Rearranged-symm, sorted, sorted-perm, sorted-IsAscending, sorted-eq_of_perm, Text, Bool,
  if◌then◌else◌, ◌≡◌, ◌≢◌, ◌⊎◌, inl, inr, true, false, arith, ℤ, neg, eqb_ℤ, ltb_ℤ, text_eq,
  text_eq_iff, text_lt, text_lt_irrefl, text_lt_trans, text_lt_total, IsStrict, Bool-cases, Apart,
  Pairs,
}
use stakeroute.Float.{Float, IsNumber}
use stakeroute.Float.Order.{IsOrdered, IsMonotone}
use stakeroute.Core.Types.{RankedHypothesis}
use stakeroute.Core.Ranking.{ranks_before, allocate_from, allocate_attention}
use stakeroute.Core.Ranking.Budget.{allocate_from-ids}

text_lt_asymm : (s t : Text) → text_lt s t ≡ true → text_lt t s ≡ false
text_lt_asymm s t h = ground (arith, text_lt_trans s t s, text_lt_irrefl s)

-- The comparison of the last two places of the key.
abbrev tail_before : ℤ → ℤ → Text → Text → Bool
tail_before i j s t = if eqb_ℤ i j then text_lt s t else ltb_ℤ i j

tail_before-asymm :
    (i j : ℤ) (s t : Text) → tail_before i j s t ≡ true → tail_before j i t s ≡ false
tail_before-asymm i j s t h = ground (arith, text_lt_asymm s t)

tail_before_trans :
    (i j k : ℤ) (s t u : Text)
    → tail_before i j s t ≡ true
    → tail_before j k t u ≡ true
    → tail_before i k s u ≡ true
tail_before_trans i j k s t u h g = ground (arith, text_lt_trans s t u)

tail_before-total :
    (i j : ℤ) (s t : Text)
    → text_eq s t ≡ false
    → (tail_before i j s t ≡ true) ⊎ (tail_before j i t s ≡ true)
tail_before-total i j s t h = ground (arith, text_lt_total s t)

module _ {F : Type 0} ⦃f : Float F⦄ (o : IsOrdered F) where
  head_asymm :
      (x y : F) (p q : Bool)
      → (p ≡ true → q ≡ false)
      → (if f.eq x y then p else f.lt x y) ≡ true
      → (if f.eq y x then q else f.lt y x) ≡ false
  head_asymm x y p q tail h = ground (arith, o.eq_symm x y, o.eq_symm y x, o.lt_asymm x y)

  head_trans :
      (x y z : F) (p q r : Bool)
      → (p ≡ true → q ≡ true → r ≡ true)
      → (if f.eq x y then p else f.lt x y) ≡ true
      → (if f.eq y z then q else f.lt y z) ≡ true
      → (if f.eq x z then r else f.lt x z) ≡ true
  head_trans x y z p q r tail h k = elim (Bool-cases (f.eq x y)) [
    | inl e ↦ elim (Bool-cases (f.eq y z)) [
      | inl e' ↦ ground (arith, o.eq_trans x y z e e')
      | inr e' ↦ ground (arith, o.lt_of_eq_lt x y z e, o.lt_not_eq x z)
    ]
    | inr e ↦ elim (Bool-cases (f.eq y z)) [
      | inl e' ↦ ground (arith, o.lt_of_lt_eq x y z, o.lt_not_eq x z)
      | inr e' ↦ ground (arith, o.lt_trans x y z, o.lt_not_eq x z)
    ]
  ]

  pub ranks_before-IsStrict : IsStrict (ranks_before {F = F})
  unfolding ranks_before
  ranks_before-IsStrict = record {
    asymm = λ a b h.
        let i = neg a.impact_minor_units in
        let j = neg b.impact_minor_units in
        head_asymm (f.opposite a.priority) (f.opposite b.priority)
          (tail_before i j a.hypothesis_id b.hypothesis_id)
          (tail_before j i b.hypothesis_id a.hypothesis_id)
          (tail_before-asymm i j a.hypothesis_id b.hypothesis_id) h;
    trans = λ a b c h k.
        let i = neg a.impact_minor_units in
        let j = neg b.impact_minor_units in
        let l = neg c.impact_minor_units in
        head_trans (f.opposite a.priority) (f.opposite b.priority) (f.opposite c.priority)
          (tail_before i j a.hypothesis_id b.hypothesis_id)
          (tail_before j l b.hypothesis_id c.hypothesis_id)
          (tail_before i l a.hypothesis_id c.hypothesis_id)
          (tail_before_trans i j l a.hypothesis_id b.hypothesis_id c.hypothesis_id) h k;
  }

  -- Hypotheses with numbers for priorities and with different ids.
  abbrev pub IsDistinct : RankedHypothesis F → RankedHypothesis F → Type 0
  IsDistinct a b = IsNumber a.priority × IsNumber b.priority × (a.hypothesis_id ≢ b.hypothesis_id)

  module _ (m : IsMonotone F) where
    distinct-Apart : (a b : RankedHypothesis F) → IsDistinct a b → Apart ranks_before a b
    unfolding ranks_before
    distinct-Apart a b d =
        let i = neg a.impact_minor_units in
        let j = neg b.impact_minor_units in
        ground (
          arith,
          m.opposite_eq a.priority b.priority,
          m.opposite_eq b.priority a.priority,
          m.opposite_lt a.priority b.priority,
          m.opposite_lt b.priority a.priority,
          o.eq_symm a.priority b.priority,
          o.eq_symm b.priority a.priority,
          o.compare a.priority b.priority d.0 d.1,
          text_eq_iff a.hypothesis_id b.hypothesis_id,
          tail_before-total i j a.hypothesis_id b.hypothesis_id,
        )

    pub distinct-Pairs :
        (hs : List (RankedHypothesis F)) → Pairs IsDistinct hs → Pairs (Apart ranks_before) hs
    distinct-Pairs [] d = tt
    distinct-Pairs (h ∷ hs) d = (All-map hs (distinct-Apart h) d.0, distinct-Pairs hs d.1)

    -- One that does not rank before another has no greater priority.
    not_before-priority :
        (a b : RankedHypothesis F)
        → IsNumber a.priority
        → IsNumber b.priority
        → ranks_before b a ≡ false
        → f.lt a.priority b.priority ≡ false
    unfolding ranks_before
    not_before-priority a b p q h = ground (
      arith,
      m.opposite_eq b.priority a.priority,
      m.opposite_lt b.priority a.priority,
      o.eq_symm b.priority a.priority,
      o.lt_not_eq a.priority b.priority,
    )

    IsDistinct-symm : (a b : RankedHypothesis F) → IsDistinct a b → IsDistinct b a
    IsDistinct-symm a b (p, q, ne) = (q, p, λ e. ne (sym e))

    descending :
        (hs : List (RankedHypothesis F))
        → Pairs IsDistinct hs
        → IsAscending ranks_before hs
        → Pairs (λ a b. f.lt a.priority b.priority ≡ false) hs
    descending [] d h = tt
    descending (x ∷ xs) d h = (below xs d.0 h.0, descending xs d.1 h.1)
      where
        below :
            (l : List (RankedHypothesis F))
            → All (IsDistinct x) l
            → All (λ b. ranks_before b x ≡ false) l
            → All (λ b. f.lt x.priority b.priority ≡ false) l
        below [] d h = tt
        below (y ∷ ys) d h = (not_before-priority x y d.0.0 d.0.1 h.0, below ys d.1 h.1)

    -- For hypotheses with different ids and numbers for priorities, the outcome does not depend on
    -- the order in which they are given.
    pub allocate_deterministic :
        {xs ys : List (RankedHypothesis F)} (budget : ℤ)
        → Rearranged xs ys
        → Pairs IsDistinct xs
        → allocate_attention xs budget ≡ allocate_attention ys budget
    unfolding allocate_attention
    allocate_deterministic {xs} {ys} budget p d =
        ap (λ (l : List (RankedHypothesis F)). allocate_from budget (length l) 1 0 l)
          (sorted-eq_of_perm ranks_before ranks_before-IsStrict p (distinct-Pairs xs d))

    -- Hypotheses with different ids and numbers for priorities are decided on in the order of
    -- descending priority: `ordered` is the input rearranged, the decisions name its ids in order,
    -- and no hypothesis stands before one of greater priority.
    pub allocate_by_priority :
        (ranked : List (RankedHypothesis F)) (budget : ℤ)
        → Pairs IsDistinct ranked
        → (ordered : List (RankedHypothesis F)) × Rearranged ordered ranked
          × (map (λ d. d.hypothesis_id) (allocate_attention ranked budget).decisions
              ≡ map (λ h. h.hypothesis_id) ordered)
          × Pairs (λ a b. f.lt a.priority b.priority ≡ false) ordered
    unfolding allocate_attention
    allocate_by_priority ranked budget d =
        let ordered = sorted ranks_before ranked in
        let same = sorted-perm ranks_before ranked in
        (
          ordered,
          same,
          allocate_from-ids budget (length ordered) 1 0 ordered,
          descending ordered (Pairs-perm IsDistinct IsDistinct-symm (Rearranged-symm same) d) (
              sorted-IsAscending ranks_before ranks_before-IsStrict ranked
                (distinct-Pairs ranked d)),
        )
