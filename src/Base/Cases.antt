-- ===== src/Base/Cases.antt =====
-- What holds of each outcome of a branch holds of the branch.
use tenantplane.Base.{Bool, true, false, if◌then◌else◌, Option, none, some, ◌≡◌, refl}
use tenantplane.Base.Result.{Result, ok, err, Error}

pub if-holds {ℓ κ} :
    {A : Type ℓ} (P : A → Type κ) (b : Bool) {x y : A} → P x → P y → P (if b then x else y)
if-holds P true h k = h
if-holds P false h k = k

pub result-holds {ℓ κ} :
    {A : Type 0} {B : Type ℓ} (P : B → Type κ) (r : Result A) {x : Error → B} {y : A → B}
    → ((e : Error) → P (x e))
    → ((a : A) → r ≡ ok a → P (y a))
    → P (elim r [ err e ↦ x e | ok a ↦ y a ])
result-holds P (ok a) h k = k a refl
result-holds P (err e) h k = h e

pub option-holds {ℓ κ} :
    {A : Type 0} {B : Type ℓ} (P : B → Type κ) (o : Option A) {x : B} {y : A → B}
    → P x
    → ((a : A) → P (y a))
    → P (elim o [ none ↦ x | some a ↦ y a ])
option-holds P none h k = h
option-holds P (some a) h k = k a
