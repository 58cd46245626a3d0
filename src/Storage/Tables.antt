-- ===== src/Storage/Tables.antt =====
-- SQL statements on a table, as functions on a list of rows.
use stakeroute.Prelude.{
  ap, ◌∙◌, ◌++◌, Rearranged, nil, skip, swap, trans, All, All-map, ◌≡◌, refl, Bool, true, false,
  Option, none, some, List, [], ◌∷◌, map, if◌then◌else◌, Bool-cases, inl, inr, arith,
}

module _ {A : Type 0} where
  -- SELECT ... WHERE, `fetchone`
  unfoldable pub fetch : (A → Bool) → List A → Option A
  fetch p [] = none
  fetch p (x ∷ xs) = if p x then some x else fetch p xs

  unfoldable pub exists : (A → Bool) → List A → Bool
  exists p [] = false
  exists p (x ∷ xs) = if p x then true else exists p xs

  -- UPDATE ... WHERE
  unfoldable pub update : (A → Bool) → (A → A) → List A → List A
  update p g [] = []
  update p g (x ∷ xs) = (if p x then g x else x) ∷ update p g xs

  -- DELETE ... WHERE
  unfoldable pub delete : (A → Bool) → List A → List A
  delete p [] = []
  delete p (x ∷ xs) = if p x then delete p xs else x ∷ delete p xs

  -- INSERT: the new row gets the next row id.
  unfoldable pub append_row : A → List A → List A
  append_row r [] = r ∷ []
  append_row r (x ∷ xs) = x ∷ append_row r xs

  pub append_row-append : (r : A) (xs ys : List A) → append_row r xs ++ ys ≡ xs ++ (r ∷ ys)
  unfolding append_row
  append_row-append r [] ys = refl
  append_row-append r (x ∷ xs) ys = ap (λ l. x ∷ l) (append_row-append r xs ys)

  pub fetch-passes : (p : A → Bool) (xs : List A) (x : A) → fetch p xs ≡ some x → p x ≡ true
  unfolding fetch
  fetch-passes p [] x h = cc
  fetch-passes p (y ∷ ys) x h = ground (arith, fetch-passes p ys x)

  -- What is found is a row of the table.
  pub fetch-split :
      (p : A → Bool) (xs : List A) (x : A)
      → fetch p xs ≡ some x
      → (before : List A) × (after : List A) × (xs ≡ before ++ (x ∷ after))
  unfolding fetch
  fetch-split p [] x h = cc
  fetch-split p (y ∷ ys) x h = elim (Bool-cases (p y)) [
    | inl e ↦ let same : y ≡ x = ground arith in ([], ys, ap (λ z. z ∷ ys) same)
    | inr e ↦
        let (before, after, split) = fetch-split p ys x (ground arith) in
        (y ∷ before, after, ap (λ l. y ∷ l) split)
  ]

  pub fetch-exists : (p : A → Bool) (xs : List A) (x : A) → fetch p xs ≡ some x → exists p xs ≡ true
  unfolding fetch exists
  fetch-exists p [] x h = cc
  fetch-exists p (y ∷ ys) x h = ground (arith, fetch-exists p ys x)

  pub fetch-none : (p : A → Bool) (xs : List A) → fetch p xs ≡ none → exists p xs ≡ false
  unfolding fetch exists
  fetch-none p [] h = refl
  fetch-none p (y ∷ ys) h = ground (arith, fetch-none p ys)

  pub exists-append_row_self :
      (p : A → Bool) (r : A) (xs : List A) → p r ≡ true → exists p (append_row r xs) ≡ true
  unfolding exists append_row
  exists-append_row_self p r [] h = ground arith
  exists-append_row_self p r (x ∷ xs) h = ground (arith, exists-append_row_self p r xs h)

  pub exists-append_row_some :
      (p : A → Bool) (r : A) (xs : List A) → exists p xs ≡ true → exists p (append_row r xs) ≡ true
  unfolding exists append_row
  exists-append_row_some p r [] h = cc
  exists-append_row_some p r (x ∷ xs) h = ground (arith, exists-append_row_some p r xs)

  -- A change that no test can see does not change which rows are found.
  pub fetch-update :
      (p q : A → Bool) (g : A → A) (xs : List A)
      → ((x : A) → p (g x) ≡ p x)
      → fetch p (update q g xs)
        ≡ elim (fetch p xs) [ none ↦ none | some x ↦ some (if q x then g x else x) ]
  unfolding fetch update
  fetch-update p q g [] h = refl
  fetch-update p q g (x ∷ xs) h = ground (arith, h x, fetch-update p q g xs h)

  -- A row outside the update stays as it is.
  pub fetch-update_other :
      (p q : A → Bool) (g : A → A) (xs : List A)
      → ((x : A) → p (g x) ≡ p x)
      → ((x : A) → p x ≡ true → q x ≡ false)
      → fetch p (update q g xs) ≡ fetch p xs
  unfolding fetch update
  fetch-update_other p q g [] h k = refl
  fetch-update_other p q g (x ∷ xs) h k = ground (arith, h x, k x, fetch-update_other p q g xs h k)

  pub fetch-append_row :
      (p : A → Bool) (r : A) (xs : List A)
      → exists p xs ≡ false
      → p r ≡ true
      → fetch p (append_row r xs) ≡ some r
  unfolding fetch exists append_row
  fetch-append_row p r [] h k = ground arith
  fetch-append_row p r (x ∷ xs) h k = ground (arith, fetch-append_row p r xs)

  pub exists-perm : (p : A → Bool) {xs ys : List A} → Rearranged xs ys → exists p xs ≡ exists p ys
  unfolding exists
  exists-perm p nil = refl
  exists-perm p (skip a r) = ground (arith, exists-perm p r)
  exists-perm p (swap a b l) = ground arith
  exists-perm p (trans r s) = exists-perm p r ∙ exists-perm p s

  pub exists_self :
      (p : A → A → Bool)
      → ((x : A) → p x x ≡ true)
      → (xs : List A) → All (λ x. exists (p x) xs ≡ true) xs
  unfolding exists
  exists_self p self [] = tt
  exists_self p self (x ∷ xs) =
      (ground (arith, self x), All-map xs (λ y h. ground arith) (exists_self p self xs))

-- What an update does not touch stays as it is, row by row.
pub map-update :
    {A B : Type 0} (q : A → Bool) (g : A → A) (h : A → B) (xs : List A)
    → ((x : A) → h (g x) ≡ h x)
    → map h (update q g xs) ≡ map h xs
unfolding update
map-update q g h [] keep = refl
map-update q g h (x ∷ xs) keep = ground (arith, keep x, map-update q g h xs keep)
