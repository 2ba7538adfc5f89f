-- ===== src/Common/Result.antt =====
-- `Result<V, E>`.
use mathlib.Core.Bool.{Bool, true, false}
use mathlib.Core.Path.{◌≡◌, refl}
use mathlib.Core.Logic.{◌⊎◌, inl, inr}

pub data Result (V E : Type 0) : Type 0 where
  ok : V → Result V E
  err : E → Result V E

abbrev pub is_err : {V E : Type 0} → Result V E → Bool
is_err (ok _) = false
is_err (err _) = true

pub Result-cases :
    {V E : Type 0} (r : Result V E) → ((v : V) × (r ≡ ok v)) ⊎ ((e : E) × (r ≡ err e))
Result-cases (ok v) = inl (v, refl)
Result-cases (err e) = inr (e, refl)
