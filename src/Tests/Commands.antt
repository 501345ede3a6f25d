-- ===== src/Tests/Commands.antt =====
-- Runs of the command line, and the theorems on it and on kubeconfigs at concrete inputs.
use tenantplane.Base.{◌≡◌, ◌↔◌, refl, true, false, [], ◌∷◌, ◌++◌, some, string_eq, text_at}
use tenantplane.Base.Text.{text, is_empty, split_lines, starts_with}
use tenantplane.Base.Result.{ok, err, message}
use tenantplane.Syncplan.Sanitize.{sanitize_name}
use tenantplane.Controller.ControlPlane.K3s.{minors, k3s_image_for_version}
use tenantplane.Controller.ControlPlane.K3s.Language.{IsVersion, k3s_image_for_version-IsVersion}
use tenantplane.Controller.ControlPlane.K3s.Laws.{is_some}
use tenantplane.Controller.ControlPlane.Kubeconfig.{rewrite_kubeconfig_server}
use tenantplane.Controller.ControlPlane.Kubeconfig.Moved.{AreMoved, rewrite-AreMoved}
use tenantplane.Cli.Checks.{Flags, is_kubernetes_version}
use tenantplane.Cli.Render.{tenant_cluster_flags, tenant_cluster_manifest, render_tenant_cluster}
use tenantplane.Cli.Laws.{is_kubernetes_version-image, render_tenant_cluster-ok}
use tenantplane.Cli.{run}
use tenantplane.Cli.Tenants.{rendered-is_ours}
use tenantplane.Object.Memory.Lawful.{memory-IsUnstructured}
use tenantplane.Object.Memory.Framed.{memory-IsFramed}
use tenantplane.Syncer.Pair.Safety.{is_ours}
use tenantplane.Syncer.Pass.{ref_for}
use tenantplane.Tests.Setting.{ascii, in_memory, env, engine, config_map, config_map_gvk}
use tenantplane.Tests.Engines.{desired_config_map, desired_config_map-built}
use tenantplane.Tests.Cluster.{kubeconfig}

-- Every argument is left, and every flag has its default.
instance abbrev flags : Flags
flags = record { parse = λ defaults args. ok (defaults, args) }

run_unknown : run (text "apply" ∷ []) ≡ err (message (text "unknown command %q"))
unfolding run
run_unknown = refl

run_version : run (text "version" ∷ []) ≡ ok (text "tenantplane 0.2.0-dev" ++ b'\n' ∷ [])
unfolding run
run_version = refl

image_runs : k3s_image_for_version (text "v1.30.2") ≡ some (text "rancher/k3s:v1.30.6-k3s1")
unfolding k3s_image_for_version starts_with
image_runs = refl

is_kubernetes_version-image_example :
    is_kubernetes_version (text "v1.30.2") ≡ is_some (k3s_image_for_version (text "v1.30.2"))
is_kubernetes_version-image_example = is_kubernetes_version-image (text "v1.30.2")

render_tenant_cluster-ok_example :
    (render_tenant_cluster (text "dev" ∷ [])
      ≡ ok (tenant_cluster_manifest (text "dev") tenant_cluster_flags))
    ↔ ((is_empty (text "dev") ≡ false)
        × (sanitize_name (text "dev") ≡ text "dev")
        × (text_at "mode" tenant_cluster_flags ≡ text "shared")
        × (is_some (k3s_image_for_version (text_at "kubernetes-version" tenant_cluster_flags))
            ≡ true)
        × (tenant_cluster_manifest (text "dev") tenant_cluster_flags
            ≡ tenant_cluster_manifest (text "dev") tenant_cluster_flags))
render_tenant_cluster-ok_example =
    render_tenant_cluster-ok (text "dev" ∷ []) tenant_cluster_flags (text "dev")
      (tenant_cluster_manifest (text "dev") tenant_cluster_flags) refl

rewrite-AreMoved_example :
    AreMoved
      (text "dev.svc")
      (split_lines kubeconfig)
      (split_lines (rewrite_kubeconfig_server kubeconfig (text "dev.svc")))
rewrite-AreMoved_example = rewrite-AreMoved kubeconfig (text "dev.svc") refl

k3s_image_for_version-IsVersion_example :
    (is_some (k3s_image_for_version (text "v1.30.2")) ≡ true) ↔ IsVersion minors (text "v1.30.2")
k3s_image_for_version-IsVersion_example = k3s_image_for_version-IsVersion (text "v1.30.2")

rendered-is_ours_example :
    is_ours desired_config_map (ref_for engine config_map_gvk.kind config_map) ≡ true
unfolding sanitize_name k3s_image_for_version starts_with
rendered-is_ours_example =
    rendered-is_ours memory-IsUnstructured memory-IsFramed (text "dev" ∷ []) tenant_cluster_flags
      (text "dev") (tenant_cluster_manifest (text "dev") tenant_cluster_flags) env engine
      config_map_gvk config_map desired_config_map refl
      ((render_tenant_cluster-ok (text "dev" ∷ []) tenant_cluster_flags (text "dev")
          (tenant_cluster_manifest (text "dev") tenant_cluster_flags) refl).1
        (refl, refl, refl, refl, refl))
      refl refl desired_config_map-built
