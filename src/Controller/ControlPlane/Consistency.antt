-- ===== src/Controller/ControlPlane/Consistency.antt =====
-- The StatefulSet of a control plane, its headless Service and the watch of the StatefulSet, from
-- internal/controller/controlplane.go and tenantcluster_controller.go, side by side.
use tenantplane.Base.{◌≡◌, refl, false, [], ◌∷◌, some, bytes_eq, string_eq, arith}
use tenantplane.Base.Text.{is_empty}
use tenantplane.Base.Go.{Unicode}
use tenantplane.Base.Result.{ok}
use tenantplane.Api.{TenantCluster}
use tenantplane.Isolation.{Quantities}
use tenantplane.Controller.Namespace.{map_control_plane_object}
use tenantplane.Controller.ControlPlane.{
  Service, control_plane_object_labels, build_headless_service,
}
use tenantplane.Controller.ControlPlane.Workload.{StatefulSet, build_stateful_set}

-- What another object must agree with: the namespace and the labels of the pods of a StatefulSet.
pub Serves : {q : Quantities} → StatefulSet q → Service → Type 0
Serves sts svc = (svc.namespace ≡ sts.namespace) × (svc.selector ≡ sts.template.labels)

map-object_labels :
    (tc : TenantCluster)
    → is_empty tc.name ≡ false
    → is_empty tc.namespace ≡ false
    → map_control_plane_object (some (control_plane_object_labels tc))
      ≡ (tc.namespace, tc.name) ∷ []
unfolding map_control_plane_object control_plane_object_labels
map-object_labels tc named placed = rw (named, placed) refl

module _ (q : Quantities) ⦃u : Unicode⦄ (tc : TenantCluster) where
  -- For a tenant whose name and namespace are not empty, the StatefulSet that is built selects the
  -- pods of its template and names the headless Service as its own, which stands in its namespace
  -- and selects the same pods; and a change of the StatefulSet is mapped to the tenant alone.
  pub build_stateful_set-Serves :
      (sts : StatefulSet q)
      → build_stateful_set q tc ≡ ok sts
      → is_empty tc.name ≡ false
      → is_empty tc.namespace ≡ false
      → (sts.selector ≡ sts.template.labels)
        × (sts.service_name ≡ (build_headless_service tc).name)
        × Serves sts (build_headless_service tc)
        × (map_control_plane_object (some sts.labels) ≡ (tc.namespace, tc.name) ∷ [])
  unfolding build_stateful_set Serves build_headless_service
  build_stateful_set-Serves sts built named placed =
      let mapped = map-object_labels tc named placed in ground (arith, mapped)
