-- ===== src/Controller/Reconcile/Frames/Policies.antt =====
-- The invariants that the steps on isolation and admission keep.
use tenantplane.Base.{true, false, bytes_eq, List, [], ◌∷◌, Option, none, some}
use tenantplane.Base.Text.{Text}
use tenantplane.Base.Go.{Unicode}
use tenantplane.Base.Result.{is_not_found}
use tenantplane.Base.Action.Triple.{
  Keeps, triples, pure-Triple, return-Triple, read-Triple, bind_any-Triple, if-Triple,
  result-Triple, call-Keeps, perform-Keeps, attempt-Triple,
}
use tenantplane.Object.{Object, Gvk, Unstructured}
use tenantplane.Api.{TenantCluster}
use tenantplane.Isolation.{Profile, Quantities, NetworkPolicy, ResourceQuota, LimitRange}
use tenantplane.Controller.Namespace.{converge_labels, admission_hardening_unsupported}
use tenantplane.Controller.Apis.{Apis}
use tenantplane.Controller.Isolate.{
  desired_labels, apply_isolation, apply_network_policy, apply_quota, apply_limit_range,
  apply_namespace_pod_security_labels,
}
use tenantplane.Controller.Admission.{
  build_runtime_class_binding, ensure_policy, create_supported, reconcile_runtime_class_binding,
  ensure_runtime_class_policy,
}
use tenantplane.Controller.Admission.Scope.{
  scope_policies, ensure_policies, ensure_controller_scope_policies,
}
use tenantplane.Controller.Reconcile.Frames.{WritesKeep}

module _ (q : Quantities) (apis : Apis q) {I : apis.host.State → Type 0}
    (keeps : WritesKeep q apis I) where
  pub apply_namespace_pod_security_labels-Keeps :
      (namespace : Text) (profile : Profile)
      → Keeps I (apply_namespace_pod_security_labels q apis namespace profile)
  unfolding apply_namespace_pod_security_labels
  apply_namespace_pod_security_labels-Keeps namespace profile =
      bind_any-Triple (read-Triple _) λ found.
        result-Triple found
          (λ ns.
            if-Triple (converge_labels (desired_labels profile) ns).1
              (perform-Keeps _ (λ s. keeps.update_namespace s _)) (pure-Triple tt tt))
          (λ failure.
            if-Triple (is_not_found failure) (pure-Triple tt tt) (return-Triple failure tt))

  apply_network_policy-Keeps :
      (tc : TenantCluster) (desired : Option NetworkPolicy)
      → Keeps I (apply_network_policy q apis tc desired)
  unfolding apply_network_policy
  apply_network_policy-Keeps tc none = pure-Triple tt tt
  apply_network_policy-Keeps tc (some desired) =
      perform-Keeps _ (λ s. keeps.network_policies.create_or_update s _ _)

  apply_quota-Keeps :
      (tc : TenantCluster) (desired : Option (ResourceQuota q))
      → Keeps I (apply_quota q apis tc desired)
  unfolding apply_quota
  apply_quota-Keeps tc none = pure-Triple tt tt
  apply_quota-Keeps tc (some desired) = perform-Keeps _ (λ s. keeps.quotas.create_or_update s _ _)

  apply_limit_range-Keeps :
      (tc : TenantCluster) (desired : Option (LimitRange q))
      → Keeps I (apply_limit_range q apis tc desired)
  unfolding apply_limit_range
  apply_limit_range-Keeps tc none = pure-Triple tt tt
  apply_limit_range-Keeps tc (some desired) =
      perform-Keeps _ (λ s. keeps.limit_ranges.create_or_update s _ _)

  pub apply_isolation-Keeps :
      (tc : TenantCluster) (profile : Profile) → Keeps I (apply_isolation q apis tc profile)
  unfolding apply_isolation
  apply_isolation-Keeps tc profile = search (
    triples, apply_namespace_pod_security_labels-Keeps, apply_network_policy-Keeps,
    apply_quota-Keeps, apply_limit_range-Keeps,
  )

  module _ ⦃unstructured : Unstructured⦄ where
    create_supported-Keeps : (desired : Object) → Keeps I (create_supported q apis desired)
    unfolding create_supported
    create_supported-Keeps desired =
        bind_any-Triple (attempt-Triple _ (call-Keeps _ (λ s. keeps.create_object s desired)))
          λ created.
            result-Triple created (λ o. pure-Triple true tt)
              (λ e.
                if-Triple (admission_hardening_unsupported e) (pure-Triple false tt)
                  (return-Triple e tt))

    ensure_policy-Keeps :
        (gvk : Gvk) (desired : Object) → Keeps I (ensure_policy q apis gvk desired)
    unfolding ensure_policy
    ensure_policy-Keeps gvk desired = bind_any-Triple (read-Triple _) λ found.
        result-Triple found
          (λ existing.
            bind_any-Triple (call-Keeps _ (λ s. keeps.update_object s _))
              λ updated. pure-Triple true tt)
          (λ failure. if-Triple (admission_hardening_unsupported failure) (pure-Triple false tt) (
            if-Triple (is_not_found failure) (create_supported-Keeps desired)
              (return-Triple failure tt)))

    pub ensure_runtime_class_policy-Keeps : Keeps I (ensure_runtime_class_policy q apis)
    unfolding ensure_runtime_class_policy
    ensure_runtime_class_policy-Keeps = ensure_policy-Keeps _ _

    pub reconcile_runtime_class_binding-Keeps :
        ⦃u : Unicode⦄ (tc : TenantCluster) → Keeps I (reconcile_runtime_class_binding q apis tc)
    unfolding reconcile_runtime_class_binding
    reconcile_runtime_class_binding-Keeps tc = bind_any-Triple (read-Triple _) λ found.
        result-Triple found
          (λ existing.
            bind_any-Triple (call-Keeps _ (λ s. keeps.update_object s _))
              λ updated. pure-Triple tt tt)
          (λ failure.
            if-Triple (is_not_found failure)
              (bind_any-Triple
                (call-Keeps _ (λ s. keeps.create_object s (build_runtime_class_binding tc)))
                λ created. pure-Triple tt tt)
              (return-Triple failure tt))

    ensure_policies-Keeps : (objs : List Object) → Keeps I (ensure_policies q apis objs)
    unfolding ensure_policies
    ensure_policies-Keeps [] = pure-Triple true tt
    ensure_policies-Keeps (desired ∷ objs) =
        bind_any-Triple (ensure_policy-Keeps _ desired)
          λ supported. if-Triple supported (ensure_policies-Keeps objs) (pure-Triple false tt)

    pub ensure_controller_scope_policies-Keeps : Keeps I (ensure_controller_scope_policies q apis)
    unfolding ensure_controller_scope_policies
    ensure_controller_scope_policies-Keeps = ensure_policies-Keeps scope_policies
