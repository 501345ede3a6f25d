-- ===== src/Controller/Support.antt =====
-- internal/controller/support.go: the conditions that need the images and the whole of the spec.
use tenantplane.Base.{Option, none, some, []}
use tenantplane.Base.Text.{text}
use tenantplane.Api.{TenantCluster, IsolationProfileSpec, SyncPolicySpec}
use tenantplane.Controller.Status.{
  condition_true, condition_false, set_condition, set_mode_condition, set_sync_support_condition,
}
use tenantplane.Controller.ControlPlane.K3s.{k3s_image_for_version}

unfoldable pub set_kubernetes_version_condition : TenantCluster → TenantCluster
unfolding set_condition
set_kubernetes_version_condition tc = elim (k3s_image_for_version tc.spec.kubernetes_version) [
  | some image ↦
      set_condition tc (text "KubernetesVersionSupported") condition_true (text "ImageResolved") []
  | none ↦
      set_condition tc (text "KubernetesVersionSupported") condition_false
        (text "UnsupportedVersion")
        (text "kubernetesVersion %q has no known k3s image; using the default (%s) instead")
]

-- The list of advisory controls is empty.
unfoldable pub set_isolation_condition : TenantCluster → Option IsolationProfileSpec → TenantCluster
unfolding set_condition
set_isolation_condition tc none = tc
set_isolation_condition tc (some profile) =
    set_condition tc (text "IsolationEnforced") condition_true (text "Enforced") []

unfoldable pub set_support_conditions :
    TenantCluster → Option IsolationProfileSpec → Option SyncPolicySpec → TenantCluster
unfolding set_kubernetes_version_condition set_isolation_condition
set_support_conditions tc profile policy =
    let tc = set_mode_condition tc in
    let tc = set_isolation_condition tc profile in
    let tc = set_sync_support_condition tc policy in set_kubernetes_version_condition tc
