-- ===== src/Base/Result.antt =====
-- Errors as values. `not_found` and `conflict` are the two kinds of API error that the program tells
-- apart; every other error carries its message.
use mathlib.Core.Path.{◌≡◌, refl}
use mathlib.Core.Logic.{◌⊎◌, inl, inr}
use mathlib.Core.Bool.{Bool, true, false}
use fluid_data_table.Base.Text.{Text}

pub data Error : Type 0 where
  not_found : Error
  conflict : Error
  message : Text → Error

pub data Result {ℓ} (A : Type ℓ) : Type ℓ where
  ok : A → Result A
  err : Error → Result A

infixl 10 ◌>>=◌
abbrev pub ◌>>=◌ {ℓ κ} : {A : Type ℓ} {B : Type κ} → Result A → (A → Result B) → Result B
ok a >>= f = f a
err e >>= f = err e

-- apierrs.IsNotFound
abbrev pub is_not_found : Error → Bool
is_not_found not_found = true
is_not_found conflict = false
is_not_found (message m) = false

-- apierrs.IsConflict, the test of retry.RetryOnConflict
abbrev pub is_conflict : Error → Bool
is_conflict not_found = false
is_conflict conflict = true
is_conflict (message m) = false

pub Result-cases {ℓ} :
    {A : Type ℓ} (r : Result A) → ((a : A) × (r ≡ ok a)) ⊎ ((e : Error) × (r ≡ err e))
Result-cases (ok a) = inl (a, refl)
Result-cases (err e) = inr (e, refl)
