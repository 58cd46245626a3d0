-- ===== src/Core/Decimal/Rounding.antt =====
-- Rounding half to even, described without division.
use stakeroute.Prelude.{
  ℕ, ◌+◌, ◌*◌, ◌/◌, ◌%◌, ◌≤◌, ◌<◌, ◌≡◌, ◌⊎◌, inl, inr, ◌↔◌, subst, Bool-cases, ltb, ◌==◌, arith,
}
use native.Mathlib.Nat.{div-add-mod, mod-lt, mul-le-mul_left, mul-le-mul_right}
use stakeroute.Core.Decimal.{half_even}

-- The value `q` is nearest to n / d, and even if there is another that is as near.
pub record IsHalfEven (n d q : ℕ) : Type 0 where
  pub not_above : 2 * n ≤ (2 * q + 1) * d
  pub not_below : 2 * q * d ≤ 2 * n + d
  pub tie_above : 2 * n ≡ (2 * q + 1) * d → q % 2 ≡ 0
  pub tie_below : 2 * q * d ≡ 2 * n + d → q % 2 ≡ 0

-- From the quotient `q` and the remainder `r`.
round_down :
    (d q r : ℕ) → (2 * r < d) ⊎ ((2 * r ≡ d) × (q % 2 ≡ 0)) → r < d → IsHalfEven (d * q + r) d q
round_down d q r (inl h) k = omega arith
round_down d q r (inr h) k = omega arith

round_up :
    (d q r : ℕ)
    → (d < 2 * r) ⊎ ((2 * r ≡ d) × ((q + 1) % 2 ≡ 0))
    → r < d
    → IsHalfEven (d * q + r) d (q + 1)
round_up d q r (inl h) k = omega arith
round_up d q r (inr h) k = omega arith

half_even-IsHalfEven : (n d : ℕ) → 0 < d → IsHalfEven n d (half_even n d)
unfolding half_even
half_even-IsHalfEven n d h =
    let q = n / d in
    let r = n % d in
    let k = mod-lt n h in
    subst (λ (m : ℕ). IsHalfEven m d (half_even n d)) (div-add-mod n d)
      (elim (Bool-cases (ltb (2 * r) d)) [
        | inl e ↦ rw e (round_down d q r (inl (ground arith)) k)
        | inr e ↦ elim (Bool-cases (ltb d (2 * r))) [
          | inl e' ↦ rw (e, e') (round_up d q r (inl (ground arith)) k)
          | inr e' ↦ elim (Bool-cases (q % 2 == 0)) [
            | inl even ↦ rw (e, e', even) (round_down d q r (inr (ground arith)) k)
            | inr odd ↦ rw (e, e', odd) (round_up d q r (inr (ground arith)) k)
          ]
        ]
      ])

no_greater : (n d p q : ℕ) → 0 < d → IsHalfEven n d p → IsHalfEven n d q → p < q → ⊥
no_greater n d p q h a b less =
    let one : (p + 1) * d ≤ q * d = mul-le-mul_right d (omega arith) in
    let even : p % 2 ≡ 0 = a.tie_above (omega (arith, a.not_above, b.not_below)) in
    let even' : q % 2 ≡ 0 = b.tie_below (omega (arith, a.not_above, b.not_below)) in
    let two : (p + 2) * d ≤ q * d = mul-le-mul_right d (omega arith) in
    omega (arith, a.not_above, b.not_below)

-- For a positive divisor, `half_even n d` is the one number that is nearest to n / d, and even if
-- two are equally near.
pub half_even_iff : (n d q : ℕ) → 0 < d → (half_even n d ≡ q) ↔ IsHalfEven n d q
half_even_iff n d q h = (
  λ e. subst (IsHalfEven n d) e (half_even-IsHalfEven n d h),
  λ b.
      let a = half_even-IsHalfEven n d h in
      let up = no_greater n d (half_even n d) q h a b in
      let down = no_greater n d q (half_even n d) h b a in omega arith,
)

-- Rounding keeps the order.
pub half_even_mono : (m n d : ℕ) → 0 < d → m ≤ n → half_even m d ≤ half_even n d
half_even_mono m n d h k =
    let a = half_even-IsHalfEven m d h in
    let b = half_even-IsHalfEven n d h in
    elim (compare_lt (half_even n d) (half_even m d)) [
      | inl less ↦
          let one : (half_even n d + 1) * d ≤ half_even m d * d =
            mul-le-mul_right d (omega arith) in
          let same : m ≡ n = omega (arith, a.not_below, b.not_above) in rw same (omega arith)
      | inr more ↦ more
    ]
  where
    compare_lt : (x y : ℕ) → (x < y) ⊎ (y ≤ x)
    compare_lt x y = omega arith

-- A fraction of at most 1 of `s` rounds to at most `s`.
pub half_even-le : (s m d : ℕ) → 0 < d → m ≤ d → half_even (s * m) d ≤ s
half_even-le s m d h k =
    let a = half_even-IsHalfEven (s * m) d h in
    let top : s * m ≤ s * d = mul-le-mul_left s k in
    elim (bound (half_even (s * m) d)) [
      | inl more ↦
          let one : (s + 1) * d ≤ half_even (s * m) d * d = mul-le-mul_right d more in
          absurd (omega (arith, a.not_below))
      | inr less ↦ less
    ]
  where
    bound : (q : ℕ) → (s + 1 ≤ q) ⊎ (q ≤ s)
    bound q = omega arith

pub half_even-zero : (d : ℕ) → 0 < d → half_even 0 d ≡ 0
half_even-zero d h = omega (arith, half_even-le 0 0 d h)
