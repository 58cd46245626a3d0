-- ===== src/Core/Decimal/Context.antt =====
-- What the context's 28 digits leave of a coefficient.
use stakeroute.Prelude.{
  ℕ, zero, suc, ◌+◌, ◌-◌, ◌*◌, ◌/◌, ◌^◌, ◌≤◌, ◌<◌, ◌≡◌, refl, ap, ◌∙◌, ◌⊎◌, inl, inr, arith,
}
use native.Mathlib.Nat.{pow-suc, mul-le-mul_left, mul-le-mul_right}
use stakeroute.Core.Decimal.{half_even, excess, to_context}
use stakeroute.Core.Decimal.Rounding.{half_even_mono, half_even-le}

pub power_pos : (k : ℕ) → 0 < 10 ^ k
power_pos zero = omega arith
power_pos (suc k) = omega (arith, power_pos k, pow-suc 10 k)

ten_up : (k : ℕ) → 10 ^ (suc k) ≡ 10 * 10 ^ k
ten_up k = omega (arith, pow-suc 10 k)

power_add : (a b : ℕ) → 10 ^ (a + b) ≡ 10 ^ a * 10 ^ b
power_add zero b = ap (λ (x : ℕ). 10 ^ x) zero_plus ∙ one_times (10 ^ b)
  where
    zero_plus : 0 + b ≡ b
    zero_plus = omega arith

    one_times : (x : ℕ) → x ≡ 1 * x
    one_times x = omega arith
power_add (suc a) b =
    let grown : 10 * 10 ^ (a + b) ≡ 10 * (10 ^ a * 10 ^ b) =
      ap (λ (x : ℕ). 10 * x) (power_add a b) in
    ap (λ (x : ℕ). 10 ^ x) suc_plus
    ∙ ten_up (a + b)
    ∙ grown
    ∙ sym_assoc (10 ^ a) (10 ^ b)
    ∙ ap (λ (x : ℕ). x * 10 ^ b) (sym_up a)
  where
    suc_plus : suc a + b ≡ suc (a + b)
    suc_plus = omega arith

    sym_assoc : (x y : ℕ) → 10 * (x * y) ≡ 10 * x * y
    sym_assoc x y = omega arith

    sym_up : (k : ℕ) → 10 * 10 ^ k ≡ 10 ^ (suc k)
    sym_up k = omega (arith, pow-suc 10 k)

pub half_even-le_times : (n q d : ℕ) → 0 < d → n ≤ q * d → half_even n d ≤ q
half_even-le_times n q d h k =
    omega (arith, half_even_mono n (q * d) d h k, half_even-le q d d h (omega arith))

small_or_large : (n : ℕ) → (n < 10 ^ 28) ⊎ (10 ^ 28 ≤ n)
small_or_large n = omega arith

pub excess-small : (fuel n : ℕ) → n < 10 ^ 28 → excess fuel n ≡ 0
unfolding excess
excess-small zero n h = refl
excess-small (suc fuel) n h = ground arith

excess-large : (fuel n : ℕ) → 10 ^ 28 ≤ n → excess (suc fuel) n ≡ suc (excess fuel (n / 10))
unfolding excess
excess-large fuel n h = ground arith

excess-zero : (n : ℕ) → excess zero n ≡ 0
unfolding excess
excess-zero n = refl

-- A coefficient below 10 ^ (28 + k) has at most k digits too many.
excess-le : (fuel k n : ℕ) → n < 10 ^ k * 10 ^ 28 → excess fuel n ≤ k
excess-le zero k n h = omega (arith, excess-zero n)
excess-le (suc fuel) zero n h = omega (arith, excess-small (suc fuel) n (omega arith))
excess-le (suc fuel) (suc k) n h = elim (small_or_large n) [
  | inl small ↦ omega (arith, excess-small (suc fuel) n small)
  | inr large ↦
      let less : n / 10 < 10 ^ k * 10 ^ 28 = omega (arith, pow-suc 10 k) in
      omega (arith, excess-large fuel n large, excess-le fuel k (n / 10) less)
]

-- The fuel of `to_context` is enough: without the excess, 28 digits are left.
excess-enough : (fuel n : ℕ) → n ≤ fuel → n < 10 ^ excess fuel n * 10 ^ 28
excess-enough zero n h = rw (excess-zero n) (omega arith)
excess-enough (suc fuel) n h = elim (small_or_large n) [
  | inl small ↦ rw (excess-small (suc fuel) n small) (omega arith)
  | inr large ↦
      let less = excess-enough fuel (n / 10) (omega arith) in
      rw (excess-large fuel n large) (omega (arith, less, pow-suc 10 (excess fuel (n / 10))))
]

-- Up to 28 digits nothing is rounded.
pub to_context-exact : (n : ℕ) → n < 10 ^ 28 → to_context n ≡ n
unfolding to_context half_even
to_context-exact n h = rw (excess-small n n h) (ground arith)

-- A product that is at most `s` units stays at most `s` units, if `s` has at most 28 digits.
pub to_context-le : (s k n : ℕ) → s < 10 ^ 28 → n ≤ s * 10 ^ k → to_context n ≤ s * 10 ^ k
unfolding to_context
to_context-le s k n fits h =
    let e = excess n n in
    let unit : 10 ^ k * suc s ≤ 10 ^ k * 10 ^ 28 = mul-le-mul_left (10 ^ k) fits in
    let few : e ≤ k = excess-le n k n (omega (arith, unit, power_pos k)) in
    let split : 10 ^ k ≡ 10 ^ (k - e) * 10 ^ e =
      ap (λ (x : ℕ). 10 ^ x) (omega arith) ∙ power_add (k - e) e in
    let whole : s * 10 ^ k ≡ s * 10 ^ (k - e) * 10 ^ e =
      ap (λ (x : ℕ). s * x) split ∙ assoc s (10 ^ (k - e)) (10 ^ e) in
    let top : half_even n (10 ^ e) ≤ s * 10 ^ (k - e) =
      half_even-le_times n (s * 10 ^ (k - e)) (10 ^ e) (power_pos e) (omega (arith, whole)) in
    let up : half_even n (10 ^ e) * 10 ^ e ≤ s * 10 ^ (k - e) * 10 ^ e =
      mul-le-mul_right (10 ^ e) top in
    omega (arith, up, whole)
  where
    assoc : (x y z : ℕ) → x * (y * z) ≡ x * y * z
    assoc x y z = omega arith
