-- ===== src/Float/Fixed.antt =====
-- A value of the interface: numbers in hundredths, rounded towards minus infinity.
use stakeroute.Prelude.{
  ℕ, zero, suc, ◌*◌, ◌/◌, ◌^◌, ◌≤◌, ◌≡◌, true, some, foldl, arith, leb, if◌then◌else◌, ℤ, pos,
  negsuc, neg, ◌+ℤ◌, ◌-ℤ◌, ◌*ℤ◌, pos_part, ltb_ℤ, eqb_ℤ, ◌≤ℤ◌, ◌||◌, neg_parts, ok, int_laws,
}
use native.Mathlib.Nat.{mul-le-mul_left}
use stakeroute.Float.{Float}
use stakeroute.Float.Order.{IsOrdered, IsMonotone}

-- Floor division of an integer; dividing by zero gives zero.
unfoldable pub floor_div : ℤ → ℕ → ℤ
floor_div (pos n) d = pos (n / d)
floor_div (negsuc n) d = negsuc (n / d)

unfoldable pub quotient : ℤ → ℤ → ℤ
unfolding floor_div neg ◌*ℤ◌
quotient a (pos d) = floor_div (a *ℤ pos 100) d
quotient a (negsuc d) = floor_div (neg (a *ℤ pos 100)) (suc d)

-- The largest number whose square is at most `n`, found from `k` downwards.
unfoldable pub root_from : ℕ → ℕ → ℕ
root_from zero n = 0
root_from (suc k) n = let rest = root_from k n in if leb (suc k * suc k) n then suc k else rest

abbrev pub Fixed : Type 0
Fixed = ℤ

instance abbrev pub fixed_float : Float Fixed
fixed_float = record {
  literal = λ m k. pos (m * 100 / 10 ^ k);
  of_int = λ a. a *ℤ pos 100;
  infinity = pos (10 ^ 30);
  plus = ◌+ℤ◌;
  minus = ◌-ℤ◌;
  times = λ a b. floor_div (a *ℤ b) 100;
  over = quotient;
  opposite = neg;
  square = λ a. floor_div (a *ℤ a) 100;
  root = λ a. pos (root_from (pos_part a) (100 * pos_part a));
  ratio = quotient;
  total = foldl ◌+ℤ◌ (pos 0);
  lt = ltb_ℤ;
  eq = eqb_ℤ;
  ceil = λ a. ok (neg (floor_div (neg a) 100));
  floor = λ a. ok (floor_div a 100);
  decimal = λ a. some (a, 2);
}

div_mono : (m n d : ℕ) → m ≤ n → m / d ≤ n / d
div_mono m n d h = grind arith

floor_div_mono : (a b : ℤ) (d : ℕ) → a ≤ℤ b → floor_div a d ≤ℤ floor_div b d
unfolding floor_div
floor_div_mono (pos m) (pos n) d h = omega (arith, div_mono m n d (omega arith))
floor_div_mono (pos m) (negsuc n) d h = absurd (omega arith)
floor_div_mono (negsuc m) (pos n) d h = omega arith
floor_div_mono (negsuc m) (negsuc n) d h = omega (arith, div_mono n m d (omega arith))

times_nonneg_mono : (a b : ℤ) (c : ℕ) → a ≤ℤ b → pos c *ℤ a ≤ℤ pos c *ℤ b
unfolding ◌*ℤ◌
times_nonneg_mono (pos m) (pos n) c h =
    let k : m ≤ n = omega arith in ground (arith, mul-le-mul_left c k)
times_nonneg_mono (pos m) (negsuc n) c h = absurd (omega arith)
times_nonneg_mono (negsuc m) (pos n) c h = ground arith
times_nonneg_mono (negsuc m) (negsuc n) c h =
    let k : suc n ≤ suc m = omega arith in ground (arith, mul-le-mul_left c k)

le-leb_ℤ : (a b : ℤ) → a ≤ℤ b → (ltb_ℤ a b || eqb_ℤ a b) ≡ true
le-leb_ℤ a b h = ground arith

leb_ℤ-le : (a b : ℤ) → (ltb_ℤ a b || eqb_ℤ a b) ≡ true → a ≤ℤ b
leb_ℤ-le a b h = ground arith

pub Fixed-IsOrdered : IsOrdered Fixed
Fixed-IsOrdered = record {
  lt_asymm = λ a b h. ground arith;
  lt_trans = λ a b c h k. ground arith;
  eq_symm = λ a b h. ground arith;
  eq_trans = λ a b c h k. ground arith;
  lt_of_eq_lt = λ a b c h k. ground arith;
  lt_of_lt_eq = λ a b c h k. ground arith;
  lt_not_eq = λ a b h. ground arith;
  lt_numbers = λ a b h. ground arith;
  compare = λ a b h k. ground arith;
  literal_lt = λ m n k h.
      le-leb_ℤ (pos (m * 100 / 10 ^ k)) (pos (n * 100 / 10 ^ k))
        (omega (arith, div_mono (m * 100) (n * 100) (10 ^ k) (omega arith)));
}

times_mono_lem :
    (a b c : ℤ)
    → (ltb_ℤ (pos 0) c || eqb_ℤ (pos 0) c) ≡ true
    → (ltb_ℤ a b || eqb_ℤ a b) ≡ true
    → floor_div (c *ℤ a) 100 ≤ℤ floor_div (c *ℤ b) 100
times_mono_lem a b (pos c) h k = floor_div_mono _ _ 100 (times_nonneg_mono a b c (leb_ℤ-le a b k))
times_mono_lem a b (negsuc c) h k = absurd (ground arith)

pub Fixed-IsMonotone : IsMonotone Fixed
Fixed-IsMonotone = record {
  plus_mono = λ a b c h p q. le-leb_ℤ (c +ℤ a) (c +ℤ b) (omega (int_laws, leb_ℤ-le a b h));
  times_mono = λ a b c h k p q.
      le-leb_ℤ (floor_div (c *ℤ a) 100) (floor_div (c *ℤ b) 100) (times_mono_lem a b c h k);
  opposite_lt = λ a b. ground (arith, neg_parts a, neg_parts b);
  opposite_eq = λ a b. ground (arith, neg_parts a, neg_parts b);
}
