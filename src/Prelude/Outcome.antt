-- ===== src/Prelude/Outcome.antt =====
-- Rust's `Result`, and a computation over a shared state that keeps its effects when it fails.
use mathlib.Core.Path.{◌≡◌, refl}
use mathlib.Core.Bool.{Bool, true, false}
use mathlib.Core.Option.{Option, none, some}
use mathlib.Core.Logic.{◌⊎◌, inl, inr}

pub data Result {ℓ κ} (E : Type κ) (A : Type ℓ) : Type (ℓ ⊔ κ) where
  ok : A → Result E A
  err : E → Result E A

module _ {ℓ κ} {E : Type κ} {A : Type ℓ} where
  abbrev pub is_ok : Result E A → Bool
  is_ok (ok a) = true
  is_ok (err e) = false

  pub Result-cases : (r : Result E A) → ((a : A) × (r ≡ ok a)) ⊎ ((e : E) × (r ≡ err e))
  Result-cases (ok a) = inl (a, refl)
  Result-cases (err e) = inr (e, refl)

  -- `Option::ok_or`
  abbrev pub ok_or : Option A → E → Result E A
  ok_or none e = err e
  ok_or (some a) e = ok a

-- `Result::map_err`
abbrev pub map_err {ℓ κ ρ} :
    {E : Type κ} {F : Type ρ} {A : Type ℓ} → (E → F) → Result E A → Result F A
map_err f (ok a) = ok a
map_err f (err e) = err (f e)
