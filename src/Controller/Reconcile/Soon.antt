-- ===== src/Controller/Reconcile/Soon.antt =====
-- The steps of a live tenant's Reconcile in internal/controller/tenantcluster_controller.go, up to its
-- control plane: each goes on, or returns an error or a requeue.
use tenantplane.Base.{ℕ, ◌≤◌, bytes_eq, arith}
use tenantplane.Base.Text.{Text}
use tenantplane.Base.Go.{Unicode}
use tenantplane.Base.Result.{Result, ok, err, Error, error_text}
use tenantplane.Base.Action.{Action}
use tenantplane.Base.Action.Triple.{
  Triple, Anything, Keeps, pure-Triple, return-Triple, bind_any-Triple, bind-Triple, then-Triple,
  if-Triple, result-Triple, call-Keeps, perform-Keeps, attempt-Triple,
}
use tenantplane.Object.{Unstructured}
use tenantplane.Api.{TenantCluster}
use tenantplane.Isolation.{Quantities}
use tenantplane.Controller.Status.{set_admission_hardening_condition}
use tenantplane.Controller.ControlPlane.{build_headless_service}
use tenantplane.Controller.Cadence.{requeue_waiting}
use tenantplane.Controller.Apis.{Apis}
use tenantplane.Controller.Reconcile.{
  require_sqlite, ensure_finalizer, reconcile_admission, reconcile_control_plane,
}
use tenantplane.Controller.Reconcile.Returns.{
  ReconcileResult, teardown_finalizer, or_fail, or_degrade, write_status, degrade, degraded,
  fetch_or_degrade,
}
use tenantplane.Controller.Reconcile.Frames.{WritesKeep}
use tenantplane.Controller.Reconcile.Frames.Policies.{
  ensure_runtime_class_policy-Keeps, reconcile_runtime_class_binding-Keeps,
  ensure_controller_scope_policies-Keeps,
}
use tenantplane.Controller.Reconcile.Frames.Objects.{
  ensure_control_plane_namespace-Keeps, cleanup_legacy_control_plane-Keeps, reconcile_service-Keeps,
  reconcile_external_service-Keeps, reconcile_stateful_set-Keeps,
}
use tenantplane.Controller.Reconcile.Honest.{IsHonest, degraded-IsHonest}

-- An error, which the work queue retries, or a requeue no sooner than after five seconds.
abbrev pub IsSoon : ReconcileResult → Type 0
IsSoon (err e) = Unit
IsSoon (ok interval) = requeue_waiting ≤ interval

module _ (q : Quantities) (apis : Apis q) ⦃u : Unicode⦄ {I : apis.host.State → Type 0}
    (keeps : WritesKeep q apis I)
    (honest : (s : apis.host.State) (tc : TenantCluster)
      → IsHonest tc
      → I s
      → I (apis.update_status s tc).1) where
  pub or_fail-Triple :
      {A : Type 0} (act : Action apis.host.State Error A)
      → Keeps I act
      → Triple I IsSoon Anything (or_fail q apis act)
  unfolding or_fail
  or_fail-Triple act h =
      bind_any-Triple (attempt-Triple act h)
        λ result. result-Triple result (λ a. pure-Triple a tt) (λ e. return-Triple (err e) tt)

  pub write_status-Triple :
      (tc : TenantCluster) (interval : ℕ)
      → IsHonest tc
      → requeue_waiting ≤ interval
      → Triple I IsSoon IsSoon (write_status q apis tc interval)
  unfolding write_status
  write_status-Triple tc interval h bound =
      then-Triple (or_fail-Triple _ (perform-Keeps _ (λ s. honest s tc h)))
        (pure-Triple (ok interval) bound)

  degrade-Triple :
      {A : Type 0} (tc : TenantCluster) (reason message : Text)
      → Triple I IsSoon Anything (degrade q apis {A = A} tc reason message)
  unfolding degrade
  degrade-Triple tc reason message =
      bind-Triple
        (write_status-Triple (degraded tc reason message) requeue_waiting
          (degraded-IsHonest tc reason message) (omega arith))
        return-Triple

  pub or_degrade-Triple :
      {A : Type 0} (tc : TenantCluster) (reason : Text) (act : Action apis.host.State Error A)
      → Keeps I act
      → Triple I IsSoon Anything (or_degrade q apis tc reason act)
  unfolding or_degrade
  or_degrade-Triple tc reason act h = bind_any-Triple (attempt-Triple act h) λ result.
      result-Triple result (λ a. pure-Triple a tt) (λ e. degrade-Triple tc reason (error_text e))

  pub fetch_or_degrade-Triple :
      {A : Type 0} (tc : TenantCluster) (reason message : Text) (result : Result A)
      → Triple I IsSoon Anything (fetch_or_degrade q apis tc reason message result)
  unfolding fetch_or_degrade
  fetch_or_degrade-Triple tc reason message (ok a) = pure-Triple a tt
  fetch_or_degrade-Triple tc reason message (err e) = degrade-Triple tc reason message

  pub require_sqlite-Triple :
      (tc : TenantCluster) → Triple I IsSoon Anything (require_sqlite q apis tc)
  unfolding require_sqlite
  require_sqlite-Triple tc = if-Triple _ (degrade-Triple tc _ _) (pure-Triple tt tt)

  pub ensure_finalizer-Triple :
      (tc : TenantCluster) → Triple I IsSoon Anything (ensure_finalizer q apis tc)
  unfolding ensure_finalizer
  ensure_finalizer-Triple tc =
      if-Triple (apis.contains_finalizer tc teardown_finalizer) (pure-Triple tc tt)
        (or_fail-Triple _ (call-Keeps _ (λ s. keeps.tenants.update s _)))

  module _ ⦃unstructured : Unstructured⦄ where
    pub reconcile_admission-Triple :
        (tc : TenantCluster) → Triple I IsSoon Anything (reconcile_admission q apis tc)
    unfolding reconcile_admission
    reconcile_admission-Triple tc =
        bind_any-Triple (or_degrade-Triple tc _ _ (ensure_runtime_class_policy-Keeps q apis keeps))
          λ supported.
            then-Triple
              (if-Triple supported
                (or_degrade-Triple tc _ _ (reconcile_runtime_class_binding-Keeps q apis keeps tc))
                (pure-Triple tt tt))
              (bind_any-Triple
                (or_degrade-Triple (set_admission_hardening_condition tc supported) _ _
                  (ensure_controller_scope_policies-Keeps q apis keeps))
                λ scoped. pure-Triple _ tt)

    pub reconcile_control_plane-Triple :
        (tc : TenantCluster) → Triple I IsSoon Anything (reconcile_control_plane q apis tc)
    unfolding reconcile_control_plane
    reconcile_control_plane-Triple tc =
        then-Triple
          (or_degrade-Triple tc _ _ (ensure_control_plane_namespace-Keeps q apis keeps tc))
          (then-Triple
            (or_degrade-Triple tc _ _ (cleanup_legacy_control_plane-Keeps q apis keeps tc))
            (then-Triple
              (or_degrade-Triple tc _ _
                (reconcile_service-Keeps q apis keeps tc (build_headless_service tc)))
              (then-Triple
                (or_degrade-Triple tc _ _ (reconcile_external_service-Keeps q apis keeps tc))
                (or_degrade-Triple tc _ _ (reconcile_stateful_set-Keeps q apis keeps tc)))))
