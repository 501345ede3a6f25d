-- ===== src/Controller/Reconcile/Watches.antt =====
-- The indexes and the maps behind the watches of `SetupWithManager` in
-- internal/controller/tenantcluster_controller.go: which tenants a changed profile or policy concerns.
use tenantplane.Base.{List, [], ◌∷◌, map, bytes_eq, if◌then◌else◌}
use tenantplane.Base.Text.{Text, is_empty}
use tenantplane.Base.Result.{Result, ok, err}
use tenantplane.Api.{TenantCluster}

-- The two field indexes.
pub data Index : Type 0 where
  iso_profile sync_policy : Index

abbrev pub referenced : Index → TenantCluster → Text
referenced iso_profile tc = tc.spec.isolation_profile_ref
referenced sync_policy tc = tc.spec.sync_policy_ref

-- The functions that are given to IndexField.
unfoldable pub index_values : Index → TenantCluster → List Text
index_values index tc = if is_empty (referenced index tc) then [] else referenced index tc ∷ []

-- A request is a namespace and a name.
abbrev pub request_for : TenantCluster → Text × Text
request_for tc = (tc.namespace, tc.name)

-- `list` is r.List with the field of the index and its value.
unfoldable pub map_for_index :
    {S : Type 0}
    → (S → Index → Text → Result (List TenantCluster))
    → Index
    → Text
    → S
    → List (Text × Text)
map_for_index list index name s = elim (list s index name) [
  | err e ↦ []
  | ok items ↦ map request_for items
]
