-- ===== src/Cli/Laws.antt =====
-- What a rendered tenant relies on later: its name and its version are what the controller expects.
use tenantplane.Base.{
  ◌≡◌, sym, ◌↔◌, true, false, List, [], ◌∷◌, Dict, String, string_eq, bytes_eq, text_at, arith,
}
use tenantplane.Base.Text.{Text, text, is_empty}
use tenantplane.Base.Go.{Unicode}
use tenantplane.Base.Result.{ok}
use tenantplane.Syncplan.Sanitize.{sanitize_name}
use tenantplane.Controller.ControlPlane.K3s.{k3s_image_for_version}
use tenantplane.Controller.ControlPlane.K3s.Laws.{is_some, k3s_image_for_version-some}
use tenantplane.Cli.Checks.{Flags, require_dns_name, is_kubernetes_version}
use tenantplane.Cli.Render.{
  check_mode, check_version, tenant_cluster_flags, tenant_cluster_manifest, render_tenant_cluster,
}

-- The command line takes exactly the versions for which the controller has an image.
pub is_kubernetes_version-image :
    (version : Text) → is_kubernetes_version version ≡ is_some (k3s_image_for_version version)
unfolding is_kubernetes_version
is_kubernetes_version-image version = sym (k3s_image_for_version-some version)

module _ ⦃u : Unicode⦄ ⦃flags : Flags⦄ where
  -- From flags that parse and leave one name, the command prints a manifest exactly where the name is
  -- not empty and is left as it is by sanitizing, the mode is shared, and the controller has an image
  -- for the version; and then it is the manifest of these values.
  pub render_tenant_cluster-ok :
      (args : List Text) (values : Dict String Text) (name manifest : Text)
      → flags.parse tenant_cluster_flags args ≡ ok (values, name ∷ [])
      → (render_tenant_cluster args ≡ ok manifest) ↔ (
          (is_empty name ≡ false)
          × (sanitize_name name ≡ name)
          × (text_at "mode" values ≡ text "shared")
          × (is_some (k3s_image_for_version (text_at "kubernetes-version" values)) ≡ true)
          × (manifest ≡ tenant_cluster_manifest name values))
  unfolding render_tenant_cluster require_dns_name check_mode check_version
  render_tenant_cluster-ok args values name manifest parsed =
      let version = text_at "kubernetes-version" values in
      ground (
        arith,
        bytes_eq.beq_iff (sanitize_name name) name,
        bytes_eq.beq_iff (text_at "mode" values) (text "shared"),
        is_kubernetes_version-image version,
      )
