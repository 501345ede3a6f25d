-- ===== src/Controller/Reconcile/Credentials.antt =====
-- `ensureKubeconfigSecret` of internal/controller/tenantcluster_controller.go.
pub mod Laws
use tenantplane.Base.{Bool, true, false, ◌&&◌, List, [], ◌∷◌, Option, none, some, if◌then◌else◌}
use tenantplane.Base.Text.{Text, text, contains}
use tenantplane.Base.Go.{Unicode}
use tenantplane.Base.Result.{Result, ok, err, Error, is_not_found, wrap}
use tenantplane.Base.Action.{Action, ◌>>=◌, pure, return, read, call, lift, wrapping}
use tenantplane.Api.{TenantCluster}
use tenantplane.Isolation.{Quantities}
use tenantplane.Controller.Namespace.{control_plane_namespace}
use tenantplane.Controller.ControlPlane.{
  control_plane_pod_name, control_plane_object_labels, control_plane_service_fqdn,
}
use tenantplane.Controller.ControlPlane.Kubeconfig.{rewrite_kubeconfig_server}
use tenantplane.Controller.Apis.{Apis, Secret, kubeconfig_of}

abbrev pub read_command : List Text
read_command = text "cat" ∷ text "/etc/rancher/k3s/k3s.yaml" ∷ []

module _ (q : Quantities) (apis : Apis q) ⦃u : Unicode⦄ where
  -- The kubeconfig of the pod, with the address of the service.
  unfoldable pub extract_kubeconfig : TenantCluster → Action apis.host.State Error Text
  extract_kubeconfig tc = do
    raw ← wrapping (text "read kubeconfig from control-plane pod") (
        call λ s.
          apis.exec_in_pod s (control_plane_namespace tc) (control_plane_pod_name tc) (text "k3s")
            read_command)
    pure (rewrite_kubeconfig_server raw (control_plane_service_fqdn tc))

  abbrev pub new_secret : TenantCluster → Text → Text → Secret
  new_secret tc name kubeconfig = record {
    name = name;
    namespace = tc.namespace;
    labels = control_plane_object_labels tc;
    payload = ("kubeconfig", kubeconfig) ∷ [];
  }

  unfoldable pub refresh_secret : TenantCluster → Secret → Action apis.host.State Error Secret
  unfolding extract_kubeconfig
  refresh_secret tc existing = do
    kubeconfig ← extract_kubeconfig tc
    call λ s. apis.secrets.update s (record existing { payload = ("kubeconfig", kubeconfig) ∷ [] })

  unfoldable pub create_secret : TenantCluster → Text → Action apis.host.State Error Secret
  unfolding extract_kubeconfig
  create_secret tc name = do
    kubeconfig ← extract_kubeconfig tc
    secret ← lift (apis.secret_owner tc (new_secret tc name kubeconfig))
    call λ s. apis.secrets.create s secret

  unfoldable pub ensure_kubeconfig_secret :
      TenantCluster → Text → Action apis.host.State Error Secret
  unfolding refresh_secret create_secret
  ensure_kubeconfig_secret tc name = do
    found ← read λ s. apis.secrets.get s (tc.namespace, name)
    elim found [
      | ok existing ↦
          if contains (kubeconfig_of existing) (control_plane_service_fqdn tc)
          then pure existing
          else refresh_secret tc existing
      | err failure ↦ if is_not_found failure then create_secret tc name else return failure
    ]
