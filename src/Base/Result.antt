-- ===== src/Base/Result.antt =====
-- Go's `(value, error)` results. An error of the API machinery is known to the program only by
-- the predicates of packages errors and meta: whether it is a missing object or a missing kind.
use mathlib.Core.Bool.{Bool, true, false}
use mathlib.Core.Path.{◌≡◌, refl}
use mathlib.Core.Logic.{◌⊎◌, inl, inr}
use mathlib.Core.List.{◌++◌}
use tenantplane.Base.Text.{Text, text}

-- Each error carries its text. A text that this program formats is its format, without the values
-- that `%s`, `%d` and `%q` would put in.
pub data Error : Type 0 where
  -- apierrors.IsNotFound
  not_found : Text → Error
  -- meta.IsNoMatchError
  no_match : Text → Error
  -- any other failure of a call
  failed : Text → Error
  -- fmt.Errorf of this program
  message : Text → Error
  -- fmt.Errorf("…: %w", err)
  wrap : Text → Error → Error

abbrev pub is_not_found : Error → Bool
is_not_found (not_found t) = true
is_not_found _ = false

-- err.Error()
abbrev pub error_text : Error → Text
error_text (not_found t) = t
error_text (no_match t) = t
error_text (failed t) = t
error_text (message t) = t
error_text (wrap t e) = t ++ text ": " ++ error_text e

pub data Result {ℓ} (A : Type ℓ) : Type ℓ where
  ok : A → Result A
  err : Error → Result A

infixl 5 ◌>>=◌
abbrev pub ◌>>=◌ {ℓ κ} : {A : Type ℓ} {B : Type κ} → Result A → (A → Result B) → Result B
ok a >>= f = f a
err e >>= f = err e

pub Result-cases {ℓ} :
    {A : Type ℓ} (r : Result A) → ((a : A) × (r ≡ ok a)) ⊎ ((e : Error) × (r ≡ err e))
Result-cases (ok a) = inl (a, refl)
Result-cases (err e) = inr (e, refl)
