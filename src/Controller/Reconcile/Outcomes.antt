-- ===== src/Controller/Reconcile/Outcomes.antt =====
-- What a call of Reconcile in internal/controller/tenantcluster_controller.go returns and writes.
use Prim.Derive.{subst}
use tenantplane.Base.{sym, if◌then◌else◌, false, some, [], ◌≡◌, refl, bytes_eq, arith}
use tenantplane.Base.Text.{Text, text}
use tenantplane.Base.Go.{Unicode}
use tenantplane.Base.Result.{Result, ok, err, Error, error_text}
use tenantplane.Base.Action.{Flow, stop, next, Action}
use tenantplane.Base.Action.Triple.{
  Triple, Holds, Keeps, read-Triple, bind_any-Triple, then-Triple, if-Triple, result-Triple,
  attempt-Triple, any-Keeps, weaken-Triple,
}
use tenantplane.Object.{Unstructured}
use tenantplane.Api.{TenantCluster, SyncPolicySpec}
use tenantplane.Isolation.{Profile, Quantities}
use tenantplane.Controller.Status.{condition_true, condition_false}
use tenantplane.Controller.Support.{set_support_conditions}
use tenantplane.Controller.ControlPlane.Workload.{StatefulSet}
use tenantplane.Controller.Cadence.{Parsers, requeue_waiting}
use tenantplane.Controller.Cadence.Laws.{sync_requeue_interval-bound}
use tenantplane.Controller.Apis.{Apis}
use tenantplane.Controller.Isolate.{profile_from_cr}
use tenantplane.Controller.Reconcile.{
  publish, sync_and_report, reconcile_live, reconcile_tenant, answer, reconcile, reconcile_deleted,
}
use tenantplane.Controller.Reconcile.Returns.{
  ReconcileResult, provisioning, ready, is_waiting, outcome_of,
}
use tenantplane.Controller.Reconcile.Frames.{WritesKeep, everything-WritesKeep}
use tenantplane.Controller.Reconcile.Frames.Policies.{apply_isolation-Keeps}
use tenantplane.Controller.Reconcile.Frames.Objects.{
  ensure_kubeconfig_secret-Keeps, external_endpoint-Keeps,
}
use tenantplane.Controller.Reconcile.Deletion.{reconcile_deleted-Triple}
use tenantplane.Controller.Reconcile.Honest.{
  IsHonest, provisioning-IsHonest, ready-IsHonest, set_condition-IsHonest,
}
use tenantplane.Controller.Reconcile.Soon.{
  IsSoon, or_fail-Triple, write_status-Triple, or_degrade-Triple, fetch_or_degrade-Triple,
  require_sqlite-Triple, ensure_finalizer-Triple, reconcile_admission-Triple,
  reconcile_control_plane-Triple,
}

module _ (q : Quantities) (apis : Apis q) ⦃u : Unicode⦄ {I : apis.host.State → Type 0}
    (keeps : WritesKeep q apis I)
    (honest : (s : apis.host.State) (tc : TenantCluster)
      → IsHonest tc
      → I s
      → I (apis.update_status s tc).1)
    ⦃unstructured : Unstructured⦄
    (run_sync : TenantCluster → SyncPolicySpec → Profile → Text → Action apis.host.State Error Unit)
    (sync_keeps : (tc : TenantCluster) (policy : SyncPolicySpec) (profile : Profile)
        (secret_name : Text)
      → Keeps I (run_sync tc policy profile secret_name))
    ⦃parsers : Parsers⦄ where
  sync_and_report-Triple :
      (tc : TenantCluster) (policy : SyncPolicySpec) (profile : Profile) (secret_name : Text)
      → IsHonest tc
      → Triple I IsSoon IsSoon (sync_and_report q apis run_sync tc policy profile secret_name)
  unfolding sync_and_report
  sync_and_report-Triple tc policy profile secret_name h =
      bind_any-Triple (attempt-Triple _ (sync_keeps tc policy profile secret_name)) λ synced.
        result-Triple synced
          (λ done.
            write_status-Triple q apis keeps honest _ _
              (set_condition-IsHonest tc (text "Synced") condition_true (text "SyncComplete") []
                refl h)
              (sync_requeue_interval-bound (some policy)))
          (λ e.
            write_status-Triple q apis keeps honest _ _
              (set_condition-IsHonest tc (text "Synced") condition_false (text "SyncFailed")
                (error_text e) refl h)
              (omega arith))

  publish-Triple :
      (tc : TenantCluster) (policy : SyncPolicySpec) (profile : Profile) (sts : StatefulSet q)
      → Triple I IsSoon IsSoon (publish q apis run_sync tc policy profile sts)
  unfolding publish
  publish-Triple tc policy profile sts =
      if-Triple (is_waiting sts.ready_replicas)
        (write_status-Triple q apis keeps honest (provisioning tc) requeue_waiting
          (provisioning-IsHonest tc) (omega arith))
        (bind_any-Triple
          (or_degrade-Triple q apis keeps honest tc _ _
            (ensure_kubeconfig_secret-Keeps q apis keeps tc _))
          λ secret.
            bind_any-Triple
              (or_fail-Triple q apis keeps honest _ (external_endpoint-Keeps q apis keeps tc))
              λ address.
                sync_and_report-Triple (ready tc address) policy profile _
                  (ready-IsHonest tc address))

  reconcile_live-Triple :
      (tc : TenantCluster) → Triple I IsSoon IsSoon (reconcile_live q apis run_sync tc)
  unfolding reconcile_live
  reconcile_live-Triple tc = bind_any-Triple (ensure_finalizer-Triple q apis keeps honest tc) λ tc.
      bind_any-Triple (read-Triple _) λ found.
        bind_any-Triple (fetch_or_degrade-Triple q apis keeps honest tc _ _ found) λ iso_profile.
          bind_any-Triple (read-Triple _) λ found.
            bind_any-Triple (fetch_or_degrade-Triple q apis keeps honest tc _ _ found) λ policy.
              let tc = set_support_conditions tc (some iso_profile) (some policy) in
              then-Triple (require_sqlite-Triple q apis keeps honest tc) (
                then-Triple
                  (or_degrade-Triple q apis keeps honest tc _ _
                    (apply_isolation-Keeps q apis keeps tc (profile_from_cr iso_profile)))
                  (bind_any-Triple (reconcile_admission-Triple q apis keeps honest tc) λ tc.
                    bind_any-Triple (reconcile_control_plane-Triple q apis keeps honest tc)
                      λ sts. publish-Triple tc policy (profile_from_cr iso_profile) sts))

  reconcile_tenant_lem :
      (tc : TenantCluster) (s : apis.host.State) → I s → I (reconcile_tenant q apis run_sync tc s).1
  unfolding reconcile_tenant
  reconcile_tenant_lem tc s i =
      ((if-Triple tc.deleting (reconcile_deleted-Triple q apis keeps tc)
          (weaken-Triple (reconcile_live-Triple tc))).run
        s i).0

  answer_lem :
      (found : Result TenantCluster) (s : apis.host.State)
      → I s
      → I (answer q apis run_sync found s).1
  unfolding answer
  answer_lem (ok tc) s i = reconcile_tenant_lem tc s i
  answer_lem (err e) s i = ground arith

  -- Take an invariant of the state that every write of the clients keeps, that a run of the sync
  -- keeps, and that the write of a status keeps where the status is honest. A call of Reconcile
  -- keeps it; so it writes no status that is not honest.
  pub reconcile-IsHonest :
      (key : Text × Text) (s : apis.host.State) → I s → I (reconcile q apis run_sync key s).1
  unfolding reconcile
  reconcile-IsHonest key s i = answer_lem (apis.tenants.get s key) s i

outcome_of-IsSoon :
    (flow : Flow ReconcileResult ReconcileResult)
    → Holds IsSoon IsSoon flow
    → IsSoon (outcome_of flow)
unfolding outcome_of
outcome_of-IsSoon (stop outcome) h = h
outcome_of-IsSoon (next outcome) h = h

module _ (q : Quantities) (apis : Apis q) ⦃unstructured : Unstructured⦄ ⦃u : Unicode⦄
    (run_sync : TenantCluster → SyncPolicySpec → Profile → Text → Action apis.host.State Error Unit)
    ⦃parsers : Parsers⦄ (key : Text × Text) (s : apis.host.State) where
  -- Without any condition on the clients or on the sync, a TenantCluster that is there and is not
  -- being deleted comes back to the work queue: Reconcile returns an error, or asks for the next
  -- call after five seconds at least.
  pub reconcile-IsSoon :
      (tc : TenantCluster)
      → apis.tenants.get s key ≡ ok tc
      → tc.deleting ≡ false
      → IsSoon (reconcile q apis run_sync key s).0
  unfolding reconcile answer reconcile_tenant
  reconcile-IsSoon tc there live =
      let h =
        ((reconcile_live-Triple q apis (everything-WritesKeep q apis) (λ s tc h i. tt) run_sync
            (λ tc policy profile secret_name. any-Keeps _) tc).run
          s tt).1 in
      subst (λ found. IsSoon (answer q apis run_sync found s).0) (sym there)
        (subst
          (λ b. IsSoon (
            outcome_of
              ((if b then reconcile_deleted q apis tc else reconcile_live q apis run_sync tc) s).0))
          (sym live) (outcome_of-IsSoon _ h))
