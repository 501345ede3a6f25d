-- ===== src/Controller/Reconcile.antt =====
-- `Reconcile` of internal/controller/tenantcluster_controller.go: one call of the reconciler for a
-- tenant, from the read of the TenantCluster to the requeue.
pub mod Returns
pub mod Objects
pub mod Cleanup
pub mod Credentials
pub mod Frames
pub mod Honest
pub mod Deletion
pub mod Soon
pub mod Outcomes
pub mod Synced
pub mod Watches
use tenantplane.Base.{
  ℕ, zero, suc, Bool, true, false, not, List, [], ◌∷◌, ◌++◌, Option, none, some, ◌==◌, bytes_eq,
  if◌then◌else◌,
}
use tenantplane.Base.Text.{Text, text}
use tenantplane.Base.Go.{Unicode}
use tenantplane.Base.Result.{Result, ok, err, Error, is_not_found, error_text}
use tenantplane.Base.Action.{
  Flow, stop, next, Action, ◌>>=◌, ◌>>◌, pure, return, read, call, perform, attempt,
}
use tenantplane.Object.{ℤ, pos, negsuc, Unstructured}
use tenantplane.Api.{TenantCluster, IsolationProfileSpec, SyncPolicySpec}
use tenantplane.Isolation.{Profile, Quantities}
use tenantplane.Controller.Status.{
  condition_true, condition_false, set_condition, set_admission_hardening_condition,
  set_controller_scope_condition,
}
use tenantplane.Controller.Support.{set_support_conditions}
use tenantplane.Controller.Namespace.{ensure_control_plane_namespace, teardown}
use tenantplane.Controller.ControlPlane.{
  api_port_text, control_plane_name, control_plane_service_fqdn, build_headless_service,
}
use tenantplane.Controller.ControlPlane.Workload.{StatefulSet}
use tenantplane.Controller.Cadence.{Parsers, requeue_waiting, sync_requeue_interval}
use tenantplane.Controller.Apis.{Apis, Secret}
use tenantplane.Controller.Isolate.{profile_from_cr, apply_isolation}
use tenantplane.Controller.Admission.{ensure_runtime_class_policy, reconcile_runtime_class_binding}
use tenantplane.Controller.Admission.Scope.{ensure_controller_scope_policies}
use tenantplane.Controller.Reconcile.Objects.{
  reconcile_service, reconcile_external_service, external_endpoint, reconcile_stateful_set,
}
use tenantplane.Controller.Reconcile.Cleanup.{cleanup_legacy_control_plane}
use tenantplane.Controller.Reconcile.Credentials.{ensure_kubeconfig_secret}
use tenantplane.Controller.Reconcile.Returns.{
  ReconcileResult, degrade, degraded, fetch_or_degrade, is_waiting, or_degrade, or_fail, outcome_of,
  provisioning, published, ready, teardown_finalizer, with_phase, write_status,
}

module _ (q : Quantities) (apis : Apis q) where
  -- The branch of a TenantCluster with a deletion timestamp.
  unfoldable pub reconcile_deleted :
      ⦃u : Unicode⦄ → TenantCluster → Action apis.host.State ReconcileResult ReconcileResult
  unfolding or_fail
  reconcile_deleted tc =
      if not (apis.contains_finalizer tc teardown_finalizer) then pure (ok 0) else (do
        done ← or_fail q apis (call λ s. teardown apis.host tc s)
        if not done then pure (ok requeue_waiting) else (do
          updated ←
              or_fail q apis
                (call λ s. apis.tenants.update s (apis.remove_finalizer tc teardown_finalizer))
          pure (ok 0)))

  -- The live tenant, with the finalizer: as the server answers where it had to be added.
  unfoldable pub ensure_finalizer :
      TenantCluster → Action apis.host.State ReconcileResult TenantCluster
  unfolding or_fail
  ensure_finalizer tc =
      if apis.contains_finalizer tc teardown_finalizer
      then pure tc
      else (or_fail q apis
          (call λ s. apis.tenants.update s (apis.add_finalizer tc teardown_finalizer)))

  unfoldable pub require_sqlite : TenantCluster → Action apis.host.State ReconcileResult Unit
  unfolding degrade
  require_sqlite tc =
      if not (tc.spec.control_plane.datastore_type == text "sqlite")
      then degrade q apis tc (text "DatastoreNotImplemented")
          (text "datastore type %q is accepted but only \"sqlite\" is implemented")
      else pure tt

module _ (q : Quantities) (apis : Apis q) ⦃unstructured : Unstructured⦄ ⦃u : Unicode⦄ where
  -- Both admission backstops; gives the tenant with the conditions that report them.
  unfoldable pub reconcile_admission :
      TenantCluster → Action apis.host.State ReconcileResult TenantCluster
  unfolding or_degrade
  reconcile_admission tc = do
    admission_supported ←
        or_degrade q apis tc (text "AdmissionPolicyFailed") (ensure_runtime_class_policy q apis)
    if admission_supported
        then or_degrade q apis tc (text "AdmissionBindingFailed")
            (reconcile_runtime_class_binding q apis tc)
        else pure tt
    let tc = set_admission_hardening_condition tc admission_supported
    scope_supported ←
        or_degrade q apis tc (text "ControllerScopePolicyFailed")
          (ensure_controller_scope_policies q apis)
    pure (set_controller_scope_condition tc scope_supported)

  -- The namespace of the control plane and the objects in it.
  unfoldable pub reconcile_control_plane :
      TenantCluster → Action apis.host.State ReconcileResult (StatefulSet q)
  unfolding or_degrade
  reconcile_control_plane tc = do
    or_degrade q apis tc (text "ControlPlaneNamespaceFailed")
        (perform λ s. ensure_control_plane_namespace apis.host tc s)
    or_degrade q apis tc (text "LegacyCleanupFailed") (cleanup_legacy_control_plane q apis tc)
    or_degrade q apis tc (text "ServiceReconcileFailed")
        (reconcile_service q apis tc (build_headless_service tc))
    or_degrade q apis tc (text "ExternalServiceReconcileFailed")
        (reconcile_external_service q apis tc)
    or_degrade q apis tc (text "StatefulSetReconcileFailed") (reconcile_stateful_set q apis tc)

  module _
      (run_sync : TenantCluster
        → SyncPolicySpec
        → Profile
        → Text
        → Action apis.host.State Error Unit)
      ⦃parsers : Parsers⦄ where
    -- A failed sync is a condition, and a requeue soon.
    unfoldable pub sync_and_report :
        TenantCluster
        → SyncPolicySpec
        → Profile
        → Text
        → Action apis.host.State ReconcileResult ReconcileResult
    unfolding write_status
    sync_and_report tc policy profile secret_name = do
      synced ← attempt (run_sync tc policy profile secret_name)
      elim synced [
        | err e ↦
            write_status q apis
              (set_condition tc (text "Synced") condition_false (text "SyncFailed") (error_text e))
              requeue_waiting
        | ok done ↦
            write_status q apis
              (set_condition tc (text "Synced") condition_true (text "SyncComplete") [])
              (sync_requeue_interval (some policy))
      ]

    -- After the StatefulSet.
    unfoldable pub publish :
        TenantCluster
        → SyncPolicySpec
        → Profile
        → StatefulSet q
        → Action apis.host.State ReconcileResult ReconcileResult
    unfolding or_degrade or_fail write_status sync_and_report
    publish tc policy profile sts =
        if is_waiting sts.ready_replicas
        then write_status q apis (provisioning tc) requeue_waiting
        else (do
          let secret_name = control_plane_name tc ++ text "-kubeconfig"
          secret ←
              or_degrade q apis tc (text "KubeconfigExtractFailed")
                (ensure_kubeconfig_secret q apis tc secret_name)
          address ← or_fail q apis (external_endpoint q apis tc)
          sync_and_report (ready tc address) policy profile secret_name)

    -- After the deletion branch.
    unfoldable pub reconcile_live :
        TenantCluster → Action apis.host.State ReconcileResult ReconcileResult
    unfolding ensure_finalizer require_sqlite fetch_or_degrade or_degrade reconcile_admission
        reconcile_control_plane publish
    reconcile_live tc = do
      tc ← ensure_finalizer q apis tc
      found ← read λ s. apis.profiles s tc.spec.isolation_profile_ref
      iso_profile ←
          fetch_or_degrade q apis tc (text "IsolationProfileNotFound")
            (text "isolationProfile %q not found: %v") found
      found ← read λ s. apis.policies s tc.spec.sync_policy_ref
      sync_policy ←
          fetch_or_degrade q apis tc (text "SyncPolicyNotFound")
            (text "syncPolicy %q not found: %v") found
      let tc = set_support_conditions tc (some iso_profile) (some sync_policy)
      require_sqlite q apis tc
      let profile = profile_from_cr iso_profile
      or_degrade q apis tc (text "IsolationApplyFailed") (apply_isolation q apis tc profile)
      tc ← reconcile_admission tc
      sts ← reconcile_control_plane tc
      publish tc sync_policy profile sts

    -- A TenantCluster that is there.
    unfoldable pub reconcile_tenant :
        TenantCluster → apis.host.State → ReconcileResult × apis.host.State
    reconcile_tenant tc s =
        let (flow, s) =
          (if tc.deleting then reconcile_deleted q apis tc else reconcile_live tc) s in
        (outcome_of flow, s)

    unfoldable pub answer :
        Result TenantCluster → apis.host.State → ReconcileResult × apis.host.State
    answer (err e) s = if is_not_found e then (ok 0, s) else (err e, s)
    answer (ok tc) s = reconcile_tenant tc s

    unfoldable pub reconcile : Text × Text → apis.host.State → ReconcileResult × apis.host.State
    unfolding answer
    reconcile key s = answer (apis.tenants.get s key) s
