-- ===== src/Core/Settlement/Nearest.antt =====
-- The credit delta of a settlement whose product has at most 28 digits.
use stakeroute.Prelude.{
  ℕ, suc, ◌+◌, ◌*◌, ◌^◌, ◌≤◌, ◌<◌, ◌≡◌, ap, ℤ, pos, negsuc, neg, pos_part, neg_part, ◌*ℤ◌, ◌≤ℤ◌, ok,
  arith,
}
use native.Mathlib.Nat.{mul-le-mul_left}
use stakeroute.Core.Decimal.{in_context}
use stakeroute.Core.Decimal.Context.{power_pos, to_context-exact}
use stakeroute.Core.Settlement.{credit_delta}
use stakeroute.Core.Settlement.Delta.{
  IsUnit, payoff, half_even_ℤ_mono, times_mono, credit_delta_bounds,
}

in_context-exact : (z : ℤ) → pos_part z + neg_part z < 10 ^ 28 → in_context z ≡ z
unfolding in_context neg
in_context-exact (pos n) h = ap pos (to_context-exact n (omega arith))
in_context-exact (negsuc n) h = ground (arith, to_context-exact (suc n) (omega arith))

times_size :
    (s : ℕ) (i : ℤ) (d : ℕ)
    → pos_part i + neg_part i ≤ d
    → pos_part (pos s *ℤ i) + neg_part (pos s *ℤ i) ≤ s * d
unfolding ◌*ℤ◌
times_size s (pos m) d h = let k : s * m ≤ s * d = mul-le-mul_left s (omega arith) in ground arith
times_size s (negsuc m) d h =
    let k : s * suc m ≤ s * d = mul-le-mul_left s (omega arith) in ground arith

-- Of two rounded improvements of at most 1 in size, the greater one never settles for less, at a
-- stake whose product with the scale is below 10 ^ 28; both give a delta.
pub credit_delta_mono :
    (s : ℕ) (i j : ℤ) (k : ℕ)
    → s * 10 ^ suc k < 10 ^ 28
    → IsUnit i (suc k)
    → IsUnit j (suc k)
    → i ≤ℤ j
    → (d : ℤ) × (e : ℤ) × (credit_delta (pos s) i (suc k) ≡ ok d)
      × (credit_delta (pos s) j (suc k) ≡ ok e)
      × (d ≤ℤ e)
credit_delta_mono s i j k fits u v h =
    let one : s * 1 ≤ s * 10 ^ suc k = mul-le-mul_left s (power_pos (suc k)) in
    let small : s < 10 ^ 28 = omega arith in
    let exact = λ (x : ℤ) (w : IsUnit x (suc k)).
      in_context-exact (pos s *ℤ x) (omega (arith, times_size s x (10 ^ suc k) w)) in
    let rounded =
      half_even_ℤ_mono (pos s *ℤ i) (pos s *ℤ j) (10 ^ suc k) (power_pos (suc k))
        (times_mono s i j h) in
    (
      payoff s i (suc k),
      payoff s j (suc k),
      (credit_delta_bounds s i k small u).0,
      (credit_delta_bounds s j k small v).0,
      rw (exact i u, exact j v) rounded,
    )
