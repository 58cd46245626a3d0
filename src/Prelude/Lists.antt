-- ===== src/Prelude/Lists.antt =====
-- Lists measured by native numbers, and predicates on lists by recursion.
use Prim.Native.Nat.{ℕ, suc, ◌+◌, ◌≤◌}
use mathlib.Core.Path.{◌≡◌, refl, ap}
use mathlib.Core.Bool.{Bool}
use mathlib.Core.List.{List, [], ◌∷◌, ◌++◌, map}
use native.Mathlib.Omega.{arith}
use stakeroute.Prelude.Tests.{if◌then◌else◌}

-- One list is a permutation of another, as a derivation that can be matched.
pub data Rearranged {ℓ} {A : Type ℓ} : List A → List A → Type ℓ where
  nil : Rearranged [] []
  skip : {xs ys : List A} (a : A) → Rearranged xs ys → Rearranged (a ∷ xs) (a ∷ ys)
  swap : (a b : A) (l : List A) → Rearranged (a ∷ b ∷ l) (b ∷ a ∷ l)
  trans : {xs ys zs : List A} → Rearranged xs ys → Rearranged ys zs → Rearranged xs zs

module _ {ℓ} {A : Type ℓ} where
  abbrev pub length : List A → ℕ
  length [] = 0
  length (x ∷ xs) = suc (length xs)

  pub length-append : (xs ys : List A) → length (xs ++ ys) ≡ length xs + length ys
  length-append [] ys = omega arith
  length-append (x ∷ xs) ys = omega (arith, length-append xs ys)

  -- the elements that pass a test, as SQL's WHERE and Python's comprehensions keep them
  abbrev pub select : (A → Bool) → List A → List A
  select p [] = []
  select p (x ∷ xs) = if p x then x ∷ select p xs else select p xs

  -- how many elements pass a test
  abbrev pub count : (A → Bool) → List A → ℕ
  count p [] = 0
  count p (x ∷ xs) = (if p x then 1 else 0) + count p xs

  pub count-append : (p : A → Bool) (xs ys : List A) → count p (xs ++ ys) ≡ count p xs + count p ys
  count-append p [] ys = omega arith
  count-append p (x ∷ xs) ys = omega (arith, count-append p xs ys)

  pub count-le-length : (p : A → Bool) (xs : List A) → count p xs ≤ length xs
  count-le-length p [] = omega arith
  count-le-length p (x ∷ xs) = ground (arith, count-le-length p xs)

  pub length-perm : {xs ys : List A} → Rearranged xs ys → length xs ≡ length ys
  length-perm nil = refl
  length-perm (skip a p) = ap suc (length-perm p)
  length-perm (swap a b l) = refl
  length-perm (trans p q) = omega (arith, length-perm p, length-perm q)

  pub count-perm : (t : A → Bool) {xs ys : List A} → Rearranged xs ys → count t xs ≡ count t ys
  count-perm t nil = refl
  count-perm t (skip a p) = omega (arith, count-perm t p)
  count-perm t (swap a b l) = omega arith
  count-perm t (trans p q) = omega (arith, count-perm t p, count-perm t q)

  pub Rearranged-refl : (l : List A) → Rearranged l l
  Rearranged-refl [] = nil
  Rearranged-refl (a ∷ l) = skip a (Rearranged-refl l)

  pub Rearranged-symm : {xs ys : List A} → Rearranged xs ys → Rearranged ys xs
  Rearranged-symm nil = nil
  Rearranged-symm (skip a p) = skip a (Rearranged-symm p)
  Rearranged-symm (swap a b l) = swap b a l
  Rearranged-symm (trans p q) = trans (Rearranged-symm q) (Rearranged-symm p)

  abbrev pub All {κ} : (A → Type κ) → List A → Type κ
  All P [] = Unit
  All P (x ∷ xs) = P x × All P xs

  pub All-append {κ} : (P : A → Type κ) (xs ys : List A) → All P xs → All P ys → All P (xs ++ ys)
  All-append P [] ys _ q = q
  All-append P (x ∷ xs) ys (p, ps) q = (p, All-append P xs ys ps q)

  pub All-perm {κ} : (P : A → Type κ) {xs ys : List A} → Rearranged xs ys → All P xs → All P ys
  All-perm P nil h = h
  All-perm P (skip a p) h = (h.0, All-perm P p h.1)
  All-perm P (swap a b l) h = (h.1.0, (h.0, h.1.1))
  All-perm P (trans p q) h = All-perm P q (All-perm P p h)

  pub All-map {κ ι} :
      {P : A → Type κ} {Q : A → Type ι} (xs : List A) → ((x : A) → P x → Q x) → All P xs → All Q xs
  All-map [] f h = tt
  All-map (x ∷ xs) f h = (f x h.0, All-map xs f h.1)

  -- Every two elements, in either order of their places, are related.
  abbrev pub Pairs {κ} : (A → A → Type κ) → List A → Type κ
  Pairs R [] = Unit
  Pairs R (x ∷ xs) = All (R x) xs × Pairs R xs

  pub Pairs-perm {κ} :
      (R : A → A → Type κ) (flip : (a b : A) → R a b → R b a) {xs ys : List A}
      → Rearranged xs ys
      → Pairs R xs
      → Pairs R ys
  Pairs-perm R flip nil h = h
  Pairs-perm R flip (skip a p) h = (All-perm (R a) p h.0, Pairs-perm R flip p h.1)
  Pairs-perm R flip (swap a b l) h = ((flip _ _ h.0.0, h.1.0), (h.0.1, h.1.1))
  Pairs-perm R flip (trans p q) h = Pairs-perm R flip q (Pairs-perm R flip p h)

module _ {ℓ κ} {A : Type ℓ} {B : Type κ} where
  pub map-perm : (g : A → B) {xs ys : List A} → Rearranged xs ys → Rearranged (map g xs) (map g ys)
  map-perm g nil = nil
  map-perm g (skip a p) = skip (g a) (map-perm g p)
  map-perm g (swap a b l) = swap (g a) (g b) (map g l)
  map-perm g (trans p q) = trans (map-perm g p) (map-perm g q)

  pub map-map {ι} :
      {C : Type ι} (h : B → C) (g : A → B) (xs : List A) → map h (map g xs) ≡ map (λ x. h (g x)) xs
  map-map h g [] = refl
  map-map h g (x ∷ xs) = ap (λ l. h (g x) ∷ l) (map-map h g xs)

  pub count-map :
      (t : B → Bool) (g : A → B) (xs : List A) → count t (map g xs) ≡ count (λ x. t (g x)) xs
  count-map t g [] = refl
  count-map t g (x ∷ xs) = omega (arith, count-map t g xs)

  pub length-map : (g : A → B) (xs : List A) → length (map g xs) ≡ length xs
  length-map g [] = refl
  length-map g (x ∷ xs) = ap suc (length-map g xs)
