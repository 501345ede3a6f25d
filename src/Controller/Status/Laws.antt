-- ===== src/Controller/Status/Laws.antt =====
-- A condition list as a map from types: what `setCondition` writes, and that it keeps one per type.
use tenantplane.Base.{
  ◌≡◌, refl, Bool, true, false, ◌||◌, List, [], ◌∷◌, Option, none, some, ◌==◌, bytes_eq,
  if◌then◌else◌, arith,
}
use tenantplane.Base.Text.{Text}
use tenantplane.Api.{Condition, TenantCluster}
use tenantplane.Controller.Status.{upsert, set_condition}

abbrev pub condition_of : Text → List Condition → Option Condition
condition_of kind [] = none
condition_of kind (c ∷ conditions) = if c.kind == kind then some c else condition_of kind conditions

abbrev has_kind : Text → List Condition → Bool
has_kind kind [] = false
has_kind kind (c ∷ conditions) = c.kind == kind || has_kind kind conditions

-- No two conditions of one type.
abbrev pub is_distinct : List Condition → Bool
is_distinct [] = true
is_distinct (c ∷ conditions) = if has_kind c.kind conditions then false else is_distinct conditions

condition_of-upsert :
    (c : Condition) (kind : Text) (conditions : List Condition)
    → condition_of kind (upsert c conditions)
      ≡ (if c.kind == kind then some c else condition_of kind conditions)
unfolding upsert
condition_of-upsert c kind [] = refl
condition_of-upsert c kind (d ∷ conditions) = ground (
  arith,
  bytes_eq.beq_iff d.kind c.kind,
  bytes_eq.beq_iff d.kind kind,
  bytes_eq.beq_iff c.kind kind,
  condition_of-upsert c kind conditions,
)

-- A condition that is set is the one that is read at its type, and no other type is changed.
pub set_condition_lem :
    (tc : TenantCluster) (kind status reason message other_kind : Text)
    → condition_of other_kind (set_condition tc kind status reason message).status.conditions ≡ (
        if kind == other_kind
        then some (record { kind = kind; status = status; reason = reason; message = message })
        else condition_of other_kind tc.status.conditions)
unfolding set_condition
set_condition_lem tc kind status reason message other_kind =
    condition_of-upsert
      (record { kind = kind; status = status; reason = reason; message = message }) other_kind
      tc.status.conditions

has_kind-upsert :
    (c : Condition) (kind : Text) (conditions : List Condition)
    → has_kind kind (upsert c conditions) ≡ (c.kind == kind || has_kind kind conditions)
unfolding upsert
has_kind-upsert c kind [] = refl
has_kind-upsert c kind (d ∷ conditions) = ground (
  arith,
  bytes_eq.beq_iff d.kind c.kind,
  bytes_eq.beq_iff d.kind kind,
  bytes_eq.beq_iff c.kind kind,
  has_kind-upsert c kind conditions,
)

distinct-upsert :
    (c : Condition) (conditions : List Condition)
    → is_distinct conditions ≡ true
    → is_distinct (upsert c conditions) ≡ true
unfolding upsert
distinct-upsert c [] h = refl
distinct-upsert c (d ∷ conditions) h = ground (
  arith,
  bytes_eq.beq_iff d.kind c.kind,
  bytes_eq.beq_iff c.kind d.kind,
  distinct-upsert c conditions,
  has_kind-upsert c d.kind conditions,
)

-- Setting a condition keeps one condition per type.
pub set_condition-distinct :
    (tc : TenantCluster) (kind status reason message : Text)
    → is_distinct tc.status.conditions ≡ true
    → is_distinct (set_condition tc kind status reason message).status.conditions ≡ true
unfolding set_condition
set_condition-distinct tc kind status reason message h =
    distinct-upsert (record { kind = kind; status = status; reason = reason; message = message })
      tc.status.conditions h
