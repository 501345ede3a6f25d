-- ===== src/Cli/Render.antt =====
-- The manifests that cmd/tenantplane/main.go renders.
use tenantplane.Base.{
  String, not, ◌||◌, List, [], ◌∷◌, ◌++◌, ◌==◌, bytes_eq, string_eq, if◌then◌else◌, Dict, text_at,
}
use tenantplane.Base.Text.{Text, text}
use tenantplane.Base.Go.{Unicode}
use tenantplane.Base.Result.{Result, ok, err, message, ◌>>=◌}
use tenantplane.Isolation.{Profile, profile_for_level}
use tenantplane.Cli.Checks.{
  Flags, print_lines, entry, bool_text, yaml_string, require_dns_name, require_one_of,
  is_kubernetes_version, only,
}

abbrev pub tenant_cluster_flags : Dict String Text
tenant_cluster_flags =
    ("namespace", text "tenantplane-system")
    ∷ ("mode", text "shared")
    ∷ ("isolation-profile", text "restricted")
    ∷ ("sync-policy", text "default")
    ∷ ("kubernetes-version", text "v1.33")
    ∷ []

-- The switch on the mode.
unfoldable pub check_mode : Text → Result {0} Unit
check_mode mode =
    if mode == text "shared"
    then ok tt
    else if mode == text "dedicated" || mode == text "private"
    then err (
        message (
          text
            "mode %q is not implemented yet (the API server would reject it); only \"shared\" is supported today"))
    else err
        (message (text "mode must be one of: shared (dedicated and private are on the roadmap)"))

unfoldable pub check_version : Text → Result {0} Unit
check_version version =
    if not (is_kubernetes_version version)
    then err (
        message (
          text
            "kubernetesVersion %q is not implemented yet (the API server would reject it); only v1.28-v1.33 have a known k3s image"))
    else ok tt

unfoldable pub tenant_cluster_manifest : Text → Dict String Text → Text
tenant_cluster_manifest name flags = print_lines (
    text "apiVersion: tenantplane.io/v1alpha1"
    ∷ text "kind: TenantCluster"
    ∷ text "metadata:"
    ∷ entry "  name" name
    ∷ entry "  namespace" (text_at "namespace" flags)
    ∷ text "spec:"
    ∷ entry "  mode" (text_at "mode" flags)
    ∷ entry "  kubernetesVersion" (text_at "kubernetes-version" flags)
    ∷ text "  isolationProfileRef:"
    ∷ entry "    name" (text_at "isolation-profile" flags)
    ∷ text "  syncPolicyRef:"
    ∷ entry "    name" (text_at "sync-policy" flags)
    ∷ text "  controlPlane:"
    ∷ text "    replicas: 1"
    ∷ text "    datastore:"
    ∷ text "      type: sqlite"
    ∷ text "  networking:"
    ∷ text "    egressPolicy: deny-by-default"
    ∷ text "  migration:"
    ∷ text "    allowModeChange: true"
    ∷ [])

unfoldable pub isolation_profile_manifest : Text → Profile → Text
unfolding yaml_string
isolation_profile_manifest name profile = print_lines (
    text "apiVersion: tenantplane.io/v1alpha1"
    ∷ text "kind: IsolationProfile"
    ∷ text "metadata:"
    ∷ entry "  name" name
    ∷ text "spec:"
    ∷ entry "  level" profile.level
    ∷ text "  controls:"
    ∷ entry "    podSecurity" profile.pod_security
    ∷ entry "    defaultDenyNetworkPolicy" (bool_text profile.default_deny_network_policy)
    ∷ entry "    requireResourceRequests" (bool_text profile.require_resource_requests)
    ∷ entry "    runtimeClassName" (yaml_string profile.runtime_class_name)
    ∷ entry "    blockHostPathVolumes" (bool_text profile.block_host_path_volumes)
    ∷ entry "    blockPrivilegedContainers" (bool_text profile.block_privileged_containers)
    ∷ entry "    apiFairness" profile.api_fairness
    ∷ [])

abbrev to_host_entry : String → List Text
to_host_entry kind =
    text "    - apiVersion: v1"
    ∷ entry "      kind" (text kind)
    ∷ text "      direction: toHost"
    ∷ []

unfoldable pub sync_policy_manifest : Text → Text → Text
sync_policy_manifest name conflict_policy = print_lines (
    (text "apiVersion: tenantplane.io/v1alpha1"
      ∷ text "kind: SyncPolicy"
      ∷ text "metadata:"
      ∷ entry "  name" name
      ∷ text "spec:"
      ∷ entry "  conflictPolicy" conflict_policy
      ∷ text "  driftDetection:"
      ∷ text "    enabled: true"
      ∷ text "    interval: 30s"
      ∷ text "  explain:"
      ∷ text "    recordDecisions: true"
      ∷ text "    retain: 1000"
      ∷ text "  resources:"
      ∷ [])
    ++ to_host_entry "Pod"
    ++ to_host_entry "Service"
    ++ to_host_entry "ConfigMap"
    ++ to_host_entry "Secret")

module _ ⦃u : Unicode⦄ ⦃flags : Flags⦄ where
  unfoldable pub render_tenant_cluster : List Text → Result Text
  render_tenant_cluster args = do
    parsed ← flags.parse tenant_cluster_flags args
    name ← only (text "render tenantcluster requires exactly one name") parsed.1
    named ← require_dns_name name
    mode ← check_mode (text_at "mode" parsed.0)
    version ← check_version (text_at "kubernetes-version" parsed.0)
    ok (tenant_cluster_manifest name parsed.0)

  unfoldable pub render_isolation_profile : List Text → Result Text
  render_isolation_profile args = do
    parsed ← flags.parse (("level", text "restricted") ∷ []) args
    name ← only (text "render isolationprofile requires exactly one name") parsed.1
    named ← require_dns_name name
    profile ← profile_for_level (text_at "level" parsed.0)
    ok (isolation_profile_manifest name profile)

  unfoldable pub render_sync_policy : List Text → Result Text
  render_sync_policy args = do
    parsed ← flags.parse (("conflict-policy", text "manual") ∷ []) args
    name ← only (text "render syncpolicy requires exactly one name") parsed.1
    named ← require_dns_name name
    let conflict_policy = text_at "conflict-policy" parsed.0
    allowed ←
        require_one_of conflict_policy (text "manual" ∷ text "tenant-wins" ∷ text "host-wins" ∷ [])
    ok (sync_policy_manifest name conflict_policy)
