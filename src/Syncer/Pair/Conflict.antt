-- ===== src/Syncer/Pair/Conflict.antt =====
-- `reconcileBidirectionalConflict` of internal/syncer/engine.go: which side a disagreement is
-- settled for.
use tenantplane.Base.{◌≡◌, true, false, none, some, ◌==◌, bytes_eq, arith}
use tenantplane.Base.Text.{Text, text}
use tenantplane.Base.Result.{ok}
use tenantplane.Object.{Object, Unstructured}
use tenantplane.Syncplan.Plan.{ResourceRef, HostTarget}
use tenantplane.Syncer.{ConvergedVersions, Clients, World, skip}
use tenantplane.Syncer.Pair.{
  push_to_host, pull_to_tenant, reconcile_bidirectional_conflict, last_converged, Step, decide,
  reason_manual, reason_host_changed,
}

-- No policy decides for one side: it is "manual", unset, or unknown.
abbrev pub IsManual : Text → Type 0
IsManual policy = ((policy == text "tenant-wins") ≡ false) × ((policy == text "host-wins") ≡ false)

module _ (env : Clients) ⦃k : Unstructured⦄ (policy : Text) (ref : ResourceRef)
    (target : HostTarget) (virtual_obj existing comparable_host host : Object) (w : World env) where
  abbrev resolved : Step env
  resolved =
      reconcile_bidirectional_conflict env policy ref target virtual_obj existing comparable_host
        host w

  push-keeps : (push_to_host env ref target virtual_obj existing host true w).1.tenant ≡ w.tenant
  unfolding push_to_host
  push-keeps = ground arith

  pull-keeps :
      (reason : Text)
      → (pull_to_tenant env ref target virtual_obj comparable_host reason true w).1.host ≡ w.host
  unfolding pull_to_tenant
  pull-keeps reason = ground arith

  -- Without a policy that names a side, and with a known last agreement, a host object that changed
  -- since then is not overwritten: the host cluster stays as it is.
  pub conflict-keeps-host :
      (last : ConvergedVersions)
      → IsManual policy
      → last_converged env target.name w ≡ some last
      → (k.get_resource_version existing == last.host_resource_version) ≡ false
      → resolved.1.host ≡ w.host
  unfolding reconcile_bidirectional_conflict
  conflict-keeps-host last (a, b) known changed = ground (arith, pull-keeps reason_host_changed)

  -- Without a policy that names a side, and with a known last agreement, a tenant object that
  -- changed since then is not overwritten: the tenant cluster stays as it is.
  pub conflict-keeps-tenant :
      (last : ConvergedVersions)
      → IsManual policy
      → last_converged env target.name w ≡ some last
      → (k.get_resource_version virtual_obj == last.tenant_resource_version) ≡ false
      → resolved.1.tenant ≡ w.tenant
  unfolding reconcile_bidirectional_conflict
  conflict-keeps-tenant last (a, b) known changed = ground (arith, push-keeps)

  -- Without a policy that names a side and without a known agreement, nothing is changed.
  pub conflict-unknown :
      IsManual policy
      → last_converged env target.name w ≡ none
      → resolved ≡ (ok (decide skip ref target reason_manual), w)
  unfolding reconcile_bidirectional_conflict
  conflict-unknown (a, b) unknown = ground arith
