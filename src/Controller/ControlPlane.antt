-- ===== src/Controller/ControlPlane.antt =====
-- internal/controller/controlplane.go: the names, labels and objects of a tenant's control plane.
pub mod Consistency
pub mod Exempt
pub mod K3s
pub mod Kubeconfig
pub mod Workload
use tenantplane.Base.{
  ℕ, String, Bool, true, false, not, List, [], ◌∷◌, ◌++◌, Option, none, some, if◌then◌else◌, Dict,
  string_eq,
}
use tenantplane.Base.Text.{Text, text}
use tenantplane.Base.Go.{Unicode}
use tenantplane.Api.{TenantCluster}
use tenantplane.Controller.Namespace.{
  label_managed_by, label_tenant, label_tenant_namespace, control_plane_namespace,
}

abbrev pub api_port : ℕ
api_port = 6443

-- %d of apiPort
abbrev pub api_port_text : Text
api_port_text = text "6443"

unfoldable pub control_plane_name : TenantCluster → Text
control_plane_name tc = tc.name ++ text "-control-plane"

unfoldable pub external_service_name : TenantCluster → Text
unfolding control_plane_name
external_service_name tc = control_plane_name tc ++ text "-external"

unfoldable pub control_plane_pod_name : TenantCluster → Text
unfolding control_plane_name
control_plane_pod_name tc = control_plane_name tc ++ text "-0"

unfoldable pub control_plane_object_labels : TenantCluster → Dict String Text
control_plane_object_labels tc =
    (label_managed_by, text "tenantplane")
    ∷ ("app.kubernetes.io/name", text "tenantplane-control-plane")
    ∷ (label_tenant, tc.name)
    ∷ (label_tenant_namespace, tc.namespace)
    ∷ ("tenantplane.io/isolation-exempt", text "true")
    ∷ []

pub record ServicePort : Type 0 where
  pub name : Text
  pub port : ℕ
  pub target_port : ℕ

-- status.loadBalancer.ingress
pub record Ingress : Type 0 where
  pub hostname : Text
  pub ip : Text

-- What the code reads and writes of a corev1.Service. A nil map of labels is the empty one.
pub record Service : Type 0 where
  pub name : Text
  pub namespace : Text
  pub labels : Dict String Text
  pub annotations : Option (Dict String Text)
  pub service_type : Text
  pub cluster_ip : Text
  pub selector : Dict String Text
  pub ports : List ServicePort
  pub ingress : List Ingress

abbrev api_ports : List ServicePort
api_ports = record { name = text "https"; port = api_port; target_port = api_port } ∷ []

module _ ⦃u : Unicode⦄ where
  unfoldable pub control_plane_service_fqdn : TenantCluster → Text
  unfolding control_plane_name
  control_plane_service_fqdn tc =
      control_plane_name tc ++ text "." ++ control_plane_namespace tc ++ text ".svc"

  unfoldable pub build_headless_service : TenantCluster → Service
  build_headless_service tc = record {
    name = control_plane_name tc;
    namespace = control_plane_namespace tc;
    labels = control_plane_object_labels tc;
    annotations = none;
    service_type = [];
    cluster_ip = text "None";
    selector = control_plane_object_labels tc;
    ports = api_ports;
    ingress = [];
  }

  -- nil where exposure is not requested
  unfoldable pub build_external_service : TenantCluster → Option Service
  build_external_service tc =
      if not tc.spec.control_plane.expose.load_balancer
      then none
      else some (record {
        name = external_service_name tc;
        namespace = control_plane_namespace tc;
        labels = control_plane_object_labels tc;
        annotations = tc.spec.control_plane.expose.annotations;
        service_type = text "LoadBalancer";
        cluster_ip = [];
        selector = control_plane_object_labels tc;
        ports = api_ports;
        ingress = [];
      })
