-- ===== src/Core/Settlement/Delta.antt =====
-- The integer credit delta of a settlement.
use stakeroute.Prelude.{
  ◌⊎◌, inl, inr, ℕ, refl, subst, sym, zero, suc, ◌+◌, ◌*◌, ◌^◌, ◌≤◌, ◌<◌, ◌≡◌, ap, ◌∙◌, ℤ, pos,
  negsuc, pos_part, neg_part, neg, neg_parts, ◌*ℤ◌, ◌≤ℤ◌, max_ℤ, ok, arith, int_laws,
}
use native.Mathlib.Nat.{mul-le-mul_left}
use stakeroute.Core.Decimal.{half_even, half_even_ℤ, to_context, in_context, quantize}
use stakeroute.Core.Decimal.Context.{power_pos, half_even-le_times, to_context-exact, to_context-le}
use stakeroute.Core.Decimal.Rounding.{half_even_mono, half_even-zero}
use stakeroute.Core.Settlement.{credit_delta}

half_even_ℤ-neg : (n d : ℕ) → 0 < d → half_even_ℤ (neg (pos n)) d ≡ neg (pos (half_even n d))
unfolding half_even_ℤ neg
half_even_ℤ-neg zero d h = ground (arith, half_even-zero d h)
half_even_ℤ-neg (suc n) d h = ground arith

pub times_pos : (s m : ℕ) → pos s *ℤ pos m ≡ pos (s * m)
unfolding ◌*ℤ◌
times_pos s m = ground arith

pub times_neg : (s m : ℕ) → pos s *ℤ neg (pos m) ≡ neg (pos (s * m))
unfolding ◌*ℤ◌ neg
times_neg s zero = ground arith
times_neg s (suc m) = ground arith

pub negsuc-neg : (m : ℕ) → negsuc m ≡ neg (pos (suc m))
unfolding neg
negsuc-neg m = ground arith

pub half_even_ℤ_mono : (a b : ℤ) (d : ℕ) → 0 < d → a ≤ℤ b → half_even_ℤ a d ≤ℤ half_even_ℤ b d
unfolding half_even_ℤ
half_even_ℤ_mono (pos m) (pos n) d h k = omega (arith, half_even_mono m n d h (omega arith))
half_even_ℤ_mono (pos m) (negsuc n) d h k = absurd (omega arith)
half_even_ℤ_mono (negsuc m) (pos n) d h k = omega int_laws
half_even_ℤ_mono (negsuc m) (negsuc n) d h k =
    omega (int_laws, half_even_mono (suc n) (suc m) d h (omega arith))

-- An improvement of at most 1 in size, in units of 1 / 10 ^ (suc places).
abbrev pub IsUnit : ℤ → ℕ → Type 0
IsUnit i places = pos_part i + neg_part i ≤ 10 ^ places

-- The product of stake and improvement in 28 digits, rounded to an integer, before the bound.
abbrev pub payoff : ℕ → ℤ → ℕ → ℤ
payoff s i places = half_even_ℤ (in_context (pos s *ℤ i)) (10 ^ places)

-- The size of the payoff for the size `n` of the product.
abbrev pub size : ℕ → ℕ → ℕ
size n places = half_even (to_context n) (10 ^ places)

size-le : (s m places : ℕ) → s < 10 ^ 28 → m ≤ 10 ^ places → size (s * m) places ≤ s
size-le s m places fits h =
    let top : s * m ≤ s * 10 ^ places = mul-le-mul_left s h in
    half_even-le_times (to_context (s * m)) s (10 ^ places) (power_pos places)
      (to_context-le s places (s * m) fits top)

size-zero : (n places : ℕ) → n ≡ 0 → size n places ≡ 0
size-zero n places e =
    ap (λ (x : ℕ). size x places) e
    ∙ ap (λ (x : ℕ). half_even x (10 ^ places)) (to_context-exact 0 (omega arith))
    ∙ half_even-zero (10 ^ places) (power_pos places)

pub payoff-gain : (s m places : ℕ) → payoff s (pos m) places ≡ pos (size (s * m) places)
unfolding half_even_ℤ in_context
payoff-gain s m places = rw (times_pos s m) refl

in_context-neg : (n : ℕ) → in_context (neg (pos n)) ≡ neg (pos (to_context n))
unfolding in_context neg
in_context-neg zero = ground (arith, to_context-exact 0 (omega arith))
in_context-neg (suc n) = ground arith

pub payoff-loss : (s m places : ℕ) → payoff s (neg (pos m)) places ≡ neg (pos (size (s * m) places))
payoff-loss s m places =
    ap (λ z. half_even_ℤ (in_context z) (10 ^ places)) (times_neg s m)
    ∙ ap (λ z. half_even_ℤ z (10 ^ places)) (in_context-neg (s * m))
    ∙ half_even_ℤ-neg (to_context (s * m)) (10 ^ places) (power_pos places)

times_none : (s m : ℕ) → m ≡ 0 → s * m ≡ 0
times_none s m e = ap (λ (x : ℕ). s * x) e ∙ omega arith

none_gained : (s m places : ℕ) → pos m ≤ℤ pos 0 → size (s * m) places ≡ 0
none_gained s m places h = size-zero (s * m) places (ground (arith, times_none s m (omega arith)))

payoff_bounds :
    (s : ℕ) (i : ℤ) (places : ℕ)
    → s < 10 ^ 28
    → IsUnit i places
    → (neg (pos s) ≤ℤ payoff s i places)
      × (payoff s i places ≤ℤ pos s)
      × (pos 0 ≤ℤ i → pos 0 ≤ℤ payoff s i places)
      × (i ≤ℤ pos 0 → payoff s i places ≤ℤ pos 0)
payoff_bounds s (pos m) places fits u =
    let top = size-le s m places fits (omega arith) in
    rw (payoff-gain s m places) (ground (arith, top, neg_parts (pos s), none_gained s m places))
payoff_bounds s (negsuc m) places fits u =
    let top = size-le s (suc m) places fits (omega arith) in
    subst
      (λ d.
        (neg (pos s) ≤ℤ d)
        × (d ≤ℤ pos s)
        × (pos 0 ≤ℤ negsuc m → pos 0 ≤ℤ d)
        × (negsuc m ≤ℤ pos 0 → d ≤ℤ pos 0))
      (sym (ap (λ i. payoff s i places) (negsuc-neg m) ∙ payoff-loss s (suc m) places))
      (ground (arith, top, neg_parts (pos s), neg_parts (pos (size (s * suc m) places))))

magnitude : (s : ℕ) (x : ℤ) → neg (pos s) ≤ℤ x → x ≤ℤ pos s → pos_part x + neg_part x ≤ s
magnitude s (pos n) low high = omega arith
magnitude s (negsuc n) low high = omega (arith, neg_parts (pos s))

max_ℤ-left : (a b : ℤ) → b ≤ℤ a → max_ℤ a b ≡ a
max_ℤ-left a b h = ground arith

pub times_mono : (s : ℕ) (i j : ℤ) → i ≤ℤ j → pos s *ℤ i ≤ℤ pos s *ℤ j
unfolding ◌*ℤ◌
times_mono s (pos m) (pos n) h = let k : m ≤ n = omega arith in ground (arith, mul-le-mul_left s k)
times_mono s (pos m) (negsuc n) h = absurd (omega arith)
times_mono s (negsuc m) (pos n) h = ground arith
times_mono s (negsuc m) (negsuc n) h =
    let k : suc n ≤ suc m = omega arith in ground (arith, mul-le-mul_left s k)

quantize-payoff :
    (s : ℕ) (i : ℤ) (k : ℕ)
    → pos_part (payoff s i (suc k)) + neg_part (payoff s i (suc k)) < 10 ^ 28
    → quantize (in_context (pos s *ℤ i), suc k) 0 ≡ ok (payoff s i (suc k))
unfolding quantize
quantize-payoff s i k h = ground arith

same_sign :
    (i d : ℤ)
    → (pos 0 ≤ℤ i → pos 0 ≤ℤ d)
    → (i ≤ℤ pos 0 → d ≤ℤ pos 0)
    → ((pos 0 ≤ℤ i) × (pos 0 ≤ℤ d)) ⊎ ((i ≤ℤ pos 0) × (d ≤ℤ pos 0))
same_sign (pos n) d up down = inl (omega arith, up (omega arith))
same_sign (negsuc n) d up down = inr (omega arith, down (omega arith))

pub credit_delta_bounds :
    (s : ℕ) (i : ℤ) (k : ℕ)
    → s < 10 ^ 28
    → IsUnit i (suc k)
    → let d = payoff s i (suc k) in
      (credit_delta (pos s) i (suc k) ≡ ok d)
      × (neg (pos s) ≤ℤ d)
      × (d ≤ℤ pos s)
      × (((pos 0 ≤ℤ i) × (pos 0 ≤ℤ d)) ⊎ ((i ≤ℤ pos 0) × (d ≤ℤ pos 0)))
unfolding credit_delta
credit_delta_bounds s i k fits u =
    let (low, high, up, down) = payoff_bounds s i (suc k) fits u in
    let small : pos_part (payoff s i (suc k)) + neg_part (payoff s i (suc k)) < 10 ^ 28 =
      omega (arith, magnitude s (payoff s i (suc k)) low high) in
    (
      rw (quantize-payoff s i k small) (ap ok (max_ℤ-left (payoff s i (suc k)) (neg (pos s)) low)),
      low,
      high,
      same_sign i (payoff s i (suc k)) up down,
    )
