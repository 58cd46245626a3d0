-- ===== src/Prelude/Errors.antt =====
-- The exceptions that the modelled code raises, and computations that may raise one.
use mathlib.Core.Path.{◌≡◌, refl}
use mathlib.Core.Bool.{Bool, true, false}
use mathlib.Core.Logic.{◌⊎◌, inl, inr}

-- `integrity_error` is `sqlite3.IntegrityError`, `overflow_error` what `sqlite3` raises on an integer
-- that 64 bits cannot hold, `decimal_error` what `decimal` and `int` raise on
-- a value that is no finite number or that needs more digits than the context has.
pub data Error : Type 0 where
  invalid_outcome empty_cluster value_error zero_division key_error : Error
  infeasible_attack decimal_error integrity_error overflow_error no_ranking : Error

pub data Result {ℓ} (Value : Type ℓ) : Type ℓ where
  err : Error → Result Value
  ok : Value → Result Value

module _ {ℓ κ} {V : Type ℓ} {W : Type κ} where
  infixl 5 ◌>>=◌
  abbrev pub ◌>>=◌ : Result V → (V → Result W) → Result W
  err exception >>= next = err exception
  ok value >>= next = next value

  -- Inversion of a bind that succeeds.
  pub bind-eq-ok :
      (first : Result V) (next : V → Result W) {b : W}
      → (first >>= next) ≡ ok b
      → (value : V) × (first ≡ ok value) × (next value ≡ ok b)
  bind-eq-ok (err exception) next h = cc
  bind-eq-ok (ok value) next h = (value, refl, h)

infixl 5 ◌>>◌
abbrev pub ◌>>◌ {κ} : {W : Type κ} → Result (Unit {0}) → Result W → Result W
first >> second = first >>= λ done. second

-- `if failed: raise exception`
abbrev pub raise_if : (failed : Bool) (exception : Error) → Result (Unit {0})
raise_if false exception = ok tt
raise_if true exception = err exception

module _ {ℓ} {V : Type ℓ} where
  pub Result-cases :
      (r : Result V) → ((value : V) × (r ≡ ok value)) ⊎ ((exception : Error) × (r ≡ err exception))
  Result-cases (err exception) = inr (exception, refl)
  Result-cases (ok value) = inl (value, refl)

  pub ok-inj : {v w : V} → ok v ≡ ok w → v ≡ w
  ok-inj e = cc
