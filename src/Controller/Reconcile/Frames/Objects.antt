-- ===== src/Controller/Reconcile/Frames/Objects.antt =====
-- The invariants that the steps on a control plane's objects keep.
use tenantplane.Base.{arith, inl, inr, Bool, true, not, ◌==◌, bytes_eq, List, [], ◌∷◌}
use tenantplane.Base.Text.{Text, contains}
use tenantplane.Base.Go.{Unicode}
use tenantplane.Base.Result.{Result, ok, err, is_not_found, Result-cases}
use tenantplane.Syncplan.Transform.Build.{entries}
use tenantplane.Base.Action.{perform}
use tenantplane.Base.Action.Triple.{
  Keeps, triples, pure-Triple, return-Triple, read-Triple, bind_any-Triple, then-Triple, if-Triple,
  result-Triple, option-Triple, perform-Keeps, lift-Keeps, unless_not_found-Keeps,
}
use tenantplane.Api.{TenantCluster}
use tenantplane.Isolation.{Quantities}
use tenantplane.Controller.Namespace.{
  converge_labels, build_control_plane_namespace, control_plane_namespace,
  ensure_control_plane_namespace,
}
use tenantplane.Controller.ControlPlane.{
  control_plane_name, external_service_name, control_plane_service_fqdn, Service,
  build_external_service,
}
use tenantplane.Controller.Apis.{Apis, Kind, Secret, kubeconfig_of}
use tenantplane.Controller.Reconcile.Cleanup.{
  delete_if, delete_services, delete_legacy_objects, cleanup_legacy_control_plane,
}
use tenantplane.Controller.Reconcile.Credentials.{
  extract_kubeconfig, refresh_secret, create_secret, ensure_kubeconfig_secret,
}
use tenantplane.Controller.Reconcile.Objects.{
  reconcile_service, reconcile_external_service, remove_external_service, external_endpoint,
  reconcile_stateful_set,
}
use tenantplane.Controller.Reconcile.Frames.{KindKeeps, WritesKeep, create_or_converge-Keeps}

module _ (q : Quantities) (apis : Apis q) {I : apis.host.State → Type 0}
    (keeps : WritesKeep q apis I) where
  pub reconcile_service-Keeps :
      (tc : TenantCluster) (desired : Service) → Keeps I (reconcile_service q apis tc desired)
  unfolding reconcile_service
  reconcile_service-Keeps tc desired = bind_any-Triple (read-Triple _) λ found.
      bind_any-Triple (create_or_converge-Keeps apis.services keeps.services desired _ found)
        λ written. pure-Triple tt tt

  delete_if-Keeps :
      {A : Type 0} (kind : Kind apis.host.State A)
      → KindKeeps I kind
      → (test : A → Bool) (key : Text × Text) → Keeps I (delete_if kind test key)
  unfolding delete_if
  delete_if-Keeps kind kind_keeps test key = bind_any-Triple (read-Triple _) λ found.
      result-Triple found
        (λ existing.
          if-Triple (test existing)
            (unless_not_found-Keeps _ (perform-Keeps _ (λ s. kind_keeps.delete s existing)))
            (pure-Triple tt tt))
        (λ failure. if-Triple (is_not_found failure) (pure-Triple tt tt) (return-Triple failure tt))

  module _ ⦃u : Unicode⦄ where
    remove_external_service-Keeps :
        (found : Result Service) → Keeps I (remove_external_service q apis found)
    unfolding remove_external_service
    remove_external_service-Keeps (ok existing) =
        perform-Keeps _ (λ s. keeps.services.delete s existing)
    remove_external_service-Keeps (err failure) =
        if-Triple _ (pure-Triple tt tt) (return-Triple failure tt)

    pub reconcile_external_service-Keeps :
        (tc : TenantCluster) → Keeps I (reconcile_external_service q apis tc)
    unfolding reconcile_external_service
    reconcile_external_service-Keeps tc = bind_any-Triple (read-Triple _) λ found.
        option-Triple (build_external_service tc)
          (λ desired.
            bind_any-Triple (create_or_converge-Keeps apis.services keeps.services desired _ found)
              λ written. pure-Triple tt tt)
          (remove_external_service-Keeps found)

    pub external_endpoint-Keeps : (tc : TenantCluster) → Keeps I (external_endpoint q apis tc)
    unfolding external_endpoint
    external_endpoint-Keeps tc =
        if-Triple (not tc.spec.control_plane.expose.load_balancer) (pure-Triple [] tt) (
          bind_any-Triple (read-Triple _) λ found.
            result-Triple found (λ svc. pure-Triple _ tt)
              (λ failure.
                if-Triple (is_not_found failure) (pure-Triple [] tt) (return-Triple failure tt)))

    pub reconcile_stateful_set-Keeps :
        (tc : TenantCluster) → Keeps I (reconcile_stateful_set q apis tc)
    unfolding reconcile_stateful_set
    reconcile_stateful_set-Keeps tc = bind_any-Triple (lift-Keeps _) λ desired.
        bind_any-Triple (read-Triple _)
          λ found. create_or_converge-Keeps apis.stateful_sets keeps.stateful_sets desired _ found

    delete_services-Keeps :
        (tc : TenantCluster) (names : List Text) → Keeps I (delete_services q apis tc names)
    unfolding delete_services
    delete_services-Keeps tc [] = pure-Triple tt tt
    delete_services-Keeps tc (name ∷ names) =
        then-Triple (delete_if-Keeps apis.services keeps.services _ _)
          (delete_services-Keeps tc names)

    delete_legacy_objects-Keeps : (tc : TenantCluster) → Keeps I (delete_legacy_objects q apis tc)
    unfolding delete_legacy_objects
    delete_legacy_objects-Keeps tc =
        then-Triple (delete_if-Keeps apis.stateful_sets keeps.stateful_sets _ _) (
          then-Triple
            (delete_services-Keeps tc (control_plane_name tc ∷ external_service_name tc ∷ []))
            (delete_if-Keeps apis.claims keeps.claims (λ pvc. true) _))

    pub cleanup_legacy_control_plane-Keeps :
        (tc : TenantCluster) → Keeps I (cleanup_legacy_control_plane q apis tc)
    unfolding cleanup_legacy_control_plane
    cleanup_legacy_control_plane-Keeps tc =
        if-Triple (tc.namespace == control_plane_namespace tc) (pure-Triple tt tt)
          (delete_legacy_objects-Keeps tc)

    extract_kubeconfig-Keeps : (tc : TenantCluster) → Keeps I (extract_kubeconfig q apis tc)
    unfolding extract_kubeconfig
    extract_kubeconfig-Keeps tc = search (triples, keeps.exec_in_pod)

    refresh_secret-Keeps :
        (tc : TenantCluster) (existing : Secret) → Keeps I (refresh_secret q apis tc existing)
    unfolding refresh_secret
    refresh_secret-Keeps tc existing =
        search (triples, extract_kubeconfig-Keeps, keeps.secrets.update)

    create_secret-Keeps :
        (tc : TenantCluster) (name : Text) → Keeps I (create_secret q apis tc name)
    unfolding create_secret
    create_secret-Keeps tc name = search (triples, extract_kubeconfig-Keeps, keeps.secrets.create)

    pub ensure_kubeconfig_secret-Keeps :
        (tc : TenantCluster) (name : Text) → Keeps I (ensure_kubeconfig_secret q apis tc name)
    unfolding ensure_kubeconfig_secret
    ensure_kubeconfig_secret-Keeps tc name = bind_any-Triple (read-Triple _) λ found.
        result-Triple found
          (λ existing.
            if-Triple (contains (kubeconfig_of existing) (control_plane_service_fqdn tc))
              (pure-Triple existing tt) (refresh_secret-Keeps tc existing))
          (λ failure.
            if-Triple (is_not_found failure) (create_secret-Keeps tc name)
              (return-Triple failure tt))

    pub ensure_control_plane_namespace-Keeps :
        (tc : TenantCluster)
        → Keeps I (perform (λ s. ensure_control_plane_namespace apis.host tc s))
    unfolding ensure_control_plane_namespace
    ensure_control_plane_namespace-Keeps tc = perform-Keeps _ λ s i.
        elim (Result-cases (apis.host.get_namespace s (build_control_plane_namespace tc).name)) [
          | inl (existing, there) ↦ ground (
            arith,
            keeps.update_namespace s
                (converge_labels (entries (build_control_plane_namespace tc).labels) existing).0 i,
          )
          | inr (failure, missing) ↦
              ground (arith, keeps.create_namespace s (build_control_plane_namespace tc) i)
        ]
