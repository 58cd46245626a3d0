-- ===== src/Worker/Updates/Named.antt =====
-- Look-ups by an id, and ids without repetitions, as `publish_hypothesis_updates` of
-- src/stakeroute/worker/pipeline.py has them.
use stakeroute.Prelude.{
  ◌≡◌, refl, ap, inl, inr, Bool, true, false, some, List, [], ◌∷◌, map, Text, text_eq, All, Pairs,
  Bool-cases, Option-cases, arith,
}
use stakeroute.Storage.Tables.{exists}
use stakeroute.Worker.Updates.{last_by, unrepeated}

abbrev pub named : Text → List Text → Bool
named k = exists λ i. text_eq i k

module _ {A : Type 0} (key : A → Text) where
  -- A key that is there is found.
  pub last_by-named :
      (k : Text) (xs : List A) → named k (map key xs) ≡ true → (x : A) × (last_by key k xs ≡ some x)
  unfolding last_by exists
  last_by-named k [] h = cc
  last_by-named k (x ∷ xs) h = elim (Option-cases (last_by key k xs)) [
    | inr (y, e) ↦ (y, ground (arith, e))
    | inl e ↦ elim (Bool-cases (text_eq (key x) k)) [
      | inl same ↦ (x, ground (arith, e))
      | inr other ↦ let (y, there) = last_by-named k xs (ground arith) in cc
    ]
  ]

abbrev pub Unlike : Text → Text → Type 0
Unlike a b = text_eq a b ≡ false

absent : (i : Text) (ids : List Text) → All (Unlike i) ids → exists (text_eq i) ids ≡ false
unfolding exists
absent i [] all = refl
absent i (j ∷ ids) (h, all) = ground (arith, h, absent i ids all)

pub unrepeated-same : (ids : List Text) → Pairs Unlike ids → unrepeated ids ≡ ids
unfolding unrepeated
unrepeated-same [] p = refl
unrepeated-same (i ∷ ids) (h, p) = ground (arith, absent i ids h, unrepeated-same ids p)

pub map_id : (ids : List Text) → map (λ i. i) ids ≡ ids
map_id [] = refl
map_id (i ∷ ids) = ap (λ l. i ∷ l) (map_id ids)

pub All-image :
    {A B : Type 0} {P : A → Type 0} (Q : B → Type 0) (g : A → B) (xs : List A)
    → ((x : A) → P x → Q (g x))
    → All P xs
    → All Q (map g xs)
All-image Q g [] k all = tt
All-image Q g (x ∷ xs) k (h, all) = (k x h, All-image Q g xs k all)
