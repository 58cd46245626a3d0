-- ===== src/Prelude/Sort.antt =====
-- Python's `sorted`: a stable sort by a strict order on the elements' keys.
use mathlib.Core.Path.{◌≡◌, refl, sym, ap, ◌∙◌}
use mathlib.Core.Bool.{Bool, true, false}
use mathlib.Core.Logic.{◌⊎◌, inl, inr}
use mathlib.Core.List.{List, [], ◌∷◌}
use native.Mathlib.Omega.{arith}
use Prim.Native.Nat.{ℕ, ◌≤◌}
use stakeroute.Prelude.Tests.{ltb, if◌then◌else◌, Bool-cases}
use stakeroute.Prelude.Lists.{
  Rearranged, nil, skip, swap, trans, Rearranged-refl, Rearranged-symm, All, All-perm, All-map,
  Pairs, Pairs-perm,
}

pub record IsStrict {ℓ} {A : Type ℓ} (lt : A → A → Bool) : Type ℓ where
  pub asymm : (a b : A) → lt a b ≡ true → lt b a ≡ false
  pub trans : (a b c : A) → lt a b ≡ true → lt b c ≡ true → lt a c ≡ true

module _ {ℓ} {A : Type ℓ} (lt : A → A → Bool) where
  -- An element goes before the ones that are not smaller: equal keys keep their order.
  unfoldable pub insert : A → List A → List A
  insert x [] = x ∷ []
  insert x (y ∷ ys) = if lt y x then y ∷ insert x ys else x ∷ y ∷ ys

  unfoldable pub sorted : List A → List A
  unfolding insert
  sorted [] = []
  sorted (x ∷ xs) = insert x (sorted xs)

  -- Two elements whose keys are different.
  abbrev pub Apart : A → A → Type 0
  Apart a b = (lt a b ≡ true) ⊎ (lt b a ≡ true)

  -- No later element is smaller.
  abbrev pub IsAscending : List A → Type 0
  IsAscending = Pairs λ a b. lt b a ≡ false

  pub insert-perm : (x : A) (l : List A) → Rearranged (insert x l) (x ∷ l)
  unfolding insert
  insert-perm x [] = Rearranged-refl (x ∷ [])
  insert-perm x (y ∷ ys) = elim (Bool-cases (lt y x)) [
    | inl e ↦ rw e (trans (skip y (insert-perm x ys)) (swap y x ys))
    | inr e ↦ rw e (Rearranged-refl (x ∷ y ∷ ys))
  ]

  pub sorted-perm : (l : List A) → Rearranged (sorted l) l
  unfolding sorted
  sorted-perm [] = nil
  sorted-perm (x ∷ xs) = trans (insert-perm x (sorted xs)) (skip x (sorted-perm xs))

  module _ (order : IsStrict lt) where
    insert_comm_of_lt :
        (x y : A) (l : List A) → lt x y ≡ true → insert x (insert y l) ≡ insert y (insert x l)
    unfolding insert
    insert_comm_of_lt x y [] h = ground (arith, order.asymm x y h)
    insert_comm_of_lt x y (z ∷ zs) h =
        ground (arith, order.asymm x y h, order.trans z x y, insert_comm_of_lt x y zs h)

    insert_comm : (x y : A) (l : List A) → Apart x y → insert x (insert y l) ≡ insert y (insert x l)
    insert_comm x y l (inl h) = insert_comm_of_lt x y l h
    insert_comm x y l (inr h) = sym (insert_comm_of_lt y x l h)

    Apart-symm : (a b : A) → Apart a b → Apart b a
    Apart-symm a b (inl h) = inr h
    Apart-symm a b (inr h) = inl h

    -- With keys pairwise apart the result does not depend on the order of the input.
    pub sorted-eq_of_perm :
        {xs ys : List A} → Rearranged xs ys → Pairs Apart xs → sorted xs ≡ sorted ys
    unfolding sorted
    sorted-eq_of_perm nil d = refl
    sorted-eq_of_perm (skip a p) d = ap (insert a) (sorted-eq_of_perm p d.1)
    sorted-eq_of_perm (swap a b l) d = insert_comm a b (sorted l) d.0.0
    sorted-eq_of_perm (trans p q) d =
        sorted-eq_of_perm p d ∙ sorted-eq_of_perm q (Pairs-perm Apart Apart-symm p d)

    insert-All : (P : A → Type 0) (x : A) (l : List A) → P x → All P l → All P (insert x l)
    unfolding insert
    insert-All P x [] h k = (h, tt)
    insert-All P x (y ∷ ys) h k = ground (arith, insert-All P x ys h k.1)

    -- What no element of an ascending list precedes when its head does not.
    below_tail :
        (x y : A) (ys : List A)
        → All (λ b. lt b y ≡ false) ys
        → lt x y ≡ true
        → All (λ b. lt b x ≡ false) ys
    below_tail x y ys below h = All-map ys (λ b k. ground (arith, order.trans b x y)) below

    insert-IsAscending :
        (x : A) (l : List A) → All (Apart x) l → IsAscending l → IsAscending (insert x l)
    unfolding insert
    insert-IsAscending x [] d h = (tt, tt)
    insert-IsAscending x (y ∷ ys) d h = elim (Bool-cases (lt y x)) [
      | inl e ↦ rw e (
        insert-All (λ b. lt b y ≡ false) x ys (order.asymm y x e) h.0,
        insert-IsAscending x ys d.1 h.1,
      )
      | inr e ↦
          let first : lt x y ≡ true = ground (arith, d.0) in
          rw e ((e, below_tail x y ys h.0 first), h)
    ]

    -- With keys pairwise apart the result is in ascending order.
    pub sorted-IsAscending : (l : List A) → Pairs Apart l → IsAscending (sorted l)
    unfolding sorted
    sorted-IsAscending [] d = tt
    sorted-IsAscending (x ∷ xs) d =
        insert-IsAscending x (sorted xs) (All-perm (Apart x) (Rearranged-symm (sorted-perm xs)) d.0)
          (sorted-IsAscending xs d.1)

-- By a key that is a number, the first element has the least key, whether or not keys are equal.
module _ {ℓ} {A : Type ℓ} (key : A → ℕ) where
  abbrev by_key : A → A → Bool
  by_key a b = ltb (key a) (key b)

  -- `head` is at most as great as every element.
  insert-least :
      (m : ℕ) (x : A) (l : List A)
      → m ≤ key x
      → All (λ b. m ≤ key b) l
      → All (λ b. m ≤ key b) (insert by_key x l)
  unfolding insert
  insert-least m x [] h all = (h, tt)
  insert-least m x (y ∷ ys) h all = ground (arith, insert-least m x ys h all.1)

  insert-ordered :
      (x : A) (l : List A)
      → Pairs (λ a b. key a ≤ key b) l
      → Pairs (λ a b. key a ≤ key b) (insert by_key x l)
  unfolding insert
  insert-ordered x [] h = (tt, tt)
  insert-ordered x (y ∷ ys) h = elim (Bool-cases (by_key y x)) [
    | inl e ↦ rw e (insert-least (key y) x ys (ground arith) h.0, insert-ordered x ys h.1)
    | inr e ↦
        let first : key x ≤ key y = ground arith in
        rw e ((first, All-map ys (λ b k. omega (arith, k, first)) h.0), h)
  ]

  pub sorted-ordered : (l : List A) → Pairs (λ a b. key a ≤ key b) (sorted by_key l)
  unfolding sorted
  sorted-ordered [] = tt
  sorted-ordered (x ∷ xs) = insert-ordered x (sorted by_key xs) (sorted-ordered xs)
