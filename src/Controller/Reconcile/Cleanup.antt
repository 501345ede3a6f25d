-- ===== src/Controller/Reconcile/Cleanup.antt =====
-- `cleanupLegacyControlPlane` of internal/controller/tenantcluster_controller.go.
pub mod Laws
use tenantplane.Base.{
  String, Bool, true, false, ◌&&◌, List, [], ◌∷◌, ◌++◌, ◌==◌, bytes_eq, string_eq, if◌then◌else◌,
  Dict, text_at,
}
use tenantplane.Base.Text.{Text, text}
use tenantplane.Base.Go.{Unicode}
use tenantplane.Base.Result.{Result, ok, err, Error, is_not_found}
use tenantplane.Base.Action.{Action, ◌>>=◌, ◌>>◌, pure, return, read, perform, unless_not_found}
use tenantplane.Api.{TenantCluster}
use tenantplane.Isolation.{Quantities}
use tenantplane.Controller.Namespace.{label_managed_by, label_tenant, control_plane_namespace}
use tenantplane.Controller.ControlPlane.{
  Service, control_plane_name, external_service_name, control_plane_pod_name,
}
use tenantplane.Controller.ControlPlane.Workload.{StatefulSet}
use tenantplane.Controller.Apis.{Apis, Kind, Claim}

unfoldable pub is_legacy : TenantCluster → Dict String Text → Bool
is_legacy tc labels =
    text_at label_managed_by labels == text "tenantplane"
    && text_at "app.kubernetes.io/name" labels == text "tenantplane-control-plane"
    && text_at label_tenant labels == tc.name

module _ {S A : Type 0} (kind : Kind S A) where
  -- Deletes the object of the key, if it is there and passes the test.
  unfoldable pub delete_if : (A → Bool) → Text × Text → Action S Error Unit
  delete_if test key = do
    found ← read λ s. kind.get s key
    elim found [
      | err failure ↦ if is_not_found failure then pure tt else return failure
      | ok existing ↦
          if test existing then unless_not_found (perform λ s. kind.delete s existing) else pure tt
    ]

module _ (q : Quantities) (apis : Apis q) ⦃u : Unicode⦄ where
  -- The loop over the names of the Services.
  unfoldable pub delete_services : TenantCluster → List Text → Action apis.host.State Error Unit
  unfolding delete_if
  delete_services tc [] = pure tt
  delete_services tc (name ∷ names) = do
    delete_if apis.services (λ svc. is_legacy tc svc.labels) (tc.namespace, name)
    delete_services tc names

  -- The removal of the objects, outside of the control plane's namespace. The claim is deleted
  -- whatever it is.
  unfoldable pub delete_legacy_objects : TenantCluster → Action apis.host.State Error Unit
  unfolding delete_services delete_if
  delete_legacy_objects tc = do
    delete_if apis.stateful_sets (λ sts. is_legacy tc sts.labels)
        (tc.namespace, control_plane_name tc)
    delete_services tc (control_plane_name tc ∷ external_service_name tc ∷ [])
    delete_if apis.claims (λ pvc. true) (tc.namespace, text "data-" ++ control_plane_pod_name tc)

  unfoldable pub cleanup_legacy_control_plane : TenantCluster → Action apis.host.State Error Unit
  unfolding delete_legacy_objects
  cleanup_legacy_control_plane tc =
      if tc.namespace == control_plane_namespace tc then pure tt else delete_legacy_objects tc
