-- ===== src/Controller/Namespace.antt =====
-- internal/controller/namespace.go: the namespace of a tenant's control plane; with
-- `deleteRuntimeClassBinding` of admission.go and `mapControlPlaneObject` of
-- tenantcluster_controller.go.
pub mod Laws
pub mod Labels
pub mod Settled
use tenantplane.Base.{
  String, Bool, true, false, not, ◌&&◌, ◌||◌, List, [], ◌∷◌, Option, none, some, ◌==◌, bytes_eq,
  string_eq, if◌then◌else◌, Dict, text_at, insert,
}
use tenantplane.Base.Text.{Text, text, is_empty}
use tenantplane.Base.Go.{Unicode}
use tenantplane.Base.Result.{Result, ok, err, Error, no_match, message, is_not_found}
use tenantplane.Syncplan.HostName.{host_name}
use tenantplane.Syncplan.Transform.Build.{entries}
use tenantplane.Api.{TenantCluster}

-- What the code reads of a corev1.Namespace; `deleting` says that it has a deletion timestamp.
pub record Namespace : Type 0 where
  pub name : Text
  pub labels : Option (Dict String Text)
  pub deleting : Bool

-- The host cluster's client; a write that succeeds has no error.
pub record Host : Type 1 where
  pub State : Type 0
  pub get_namespace : State → Text → Result Namespace
  pub create_namespace : State → Namespace → Option Error × State
  pub update_namespace : State → Namespace → Option Error × State
  pub delete_namespace : State → Namespace → Option Error × State
  -- a ValidatingAdmissionPolicyBinding, by its name
  pub delete_binding : State → Text → Option Error × State

abbrev pub label_managed_by : String
label_managed_by = "app.kubernetes.io/managed-by"

abbrev pub label_tenant : String
label_tenant = "tenantplane.io/tenant"

abbrev pub label_tenant_namespace : String
label_tenant_namespace = "tenantplane.io/tenant-namespace"

unfoldable pub owned_by_tenant : Namespace → TenantCluster → Bool
owned_by_tenant ns tc =
    text_at label_managed_by (entries ns.labels) == text "tenantplane"
    && text_at label_tenant (entries ns.labels) == tc.name
    && text_at label_tenant_namespace (entries ns.labels) == tc.namespace

-- The requests for a changed object, as namespace and name.
unfoldable pub map_control_plane_object : Option (Dict String Text) → List (Text × Text)
map_control_plane_object labels =
    let tenant = text_at label_tenant (entries labels) in
    let tenant_namespace = text_at label_tenant_namespace (entries labels) in
    if not (text_at label_managed_by (entries labels) == text "tenantplane")
    then []
    else if is_empty tenant || is_empty tenant_namespace
    then []
    else (tenant_namespace, tenant) ∷ []

abbrev pub admission_hardening_unsupported : Error → Bool
admission_hardening_unsupported (no_match t) = true
admission_hardening_unsupported _ = false

-- for k, v := range desired.Labels; also whether a label was changed.
unfoldable pub converge_labels : Dict String Text → Namespace → Namespace × Bool
converge_labels [] existing = (existing, false)
converge_labels ((k, v) ∷ desired) existing =
    if text_at k (entries existing.labels) == v then converge_labels desired existing else (
      (converge_labels desired
          (record existing { labels = some (insert k v (entries existing.labels)) })).0,
      true,
    )

module _ ⦃u : Unicode⦄ where
  unfoldable pub control_plane_namespace : TenantCluster → Text
  control_plane_namespace tc = host_name (text "cp") tc.name tc.namespace

  abbrev pub control_plane_labels : TenantCluster → Dict String Text
  control_plane_labels tc =
      (label_managed_by, text "tenantplane")
      ∷ (label_tenant, tc.name)
      ∷ (label_tenant_namespace, tc.namespace)
      ∷ ("pod-security.kubernetes.io/enforce", text "baseline")
      ∷ ("pod-security.kubernetes.io/audit", text "baseline")
      ∷ ("pod-security.kubernetes.io/warn", text "baseline")
      ∷ []

  unfoldable pub build_control_plane_namespace : TenantCluster → Namespace
  build_control_plane_namespace tc = record {
    name = control_plane_namespace tc;
    labels = some (control_plane_labels tc);
    deleting = false;
  }

  unfoldable pub runtime_class_binding_name : TenantCluster → Text
  runtime_class_binding_name tc = host_name (text "runtimeclass") tc.namespace tc.name

module _ (host : Host) ⦃u : Unicode⦄ where
  unfoldable pub ensure_control_plane_namespace :
      TenantCluster → host.State → Option Error × host.State
  unfolding build_control_plane_namespace
  ensure_control_plane_namespace tc s =
      let desired = build_control_plane_namespace tc in
      elim (host.get_namespace s desired.name) [
        | err failure ↦
            if is_not_found failure then host.create_namespace s desired else (some failure, s)
        | ok existing ↦
            if not (owned_by_tenant existing tc)
            then (
              some (
                  message (
                    text
                      "namespace %q already exists and is not managed by tenantplane for this tenant; refusing to adopt it")),
              s,
            )
            else (let (converged, changed) = converge_labels (entries desired.labels) existing in
                if changed then host.update_namespace s converged else (none, s))
      ]

  unfoldable pub delete_runtime_class_binding :
      TenantCluster → host.State → Option Error × host.State
  unfolding runtime_class_binding_name
  delete_runtime_class_binding tc s =
      let (failed, s) = host.delete_binding s (runtime_class_binding_name tc) in
      elim failed [
        | none ↦ (none, s)
        | some e ↦
            if not (is_not_found e) && not (admission_hardening_unsupported e)
            then (some e, s)
            else (none, s)
      ]

  -- What follows the deletion of the binding. The answer says whether the finalizer may go.
  unfoldable pub delete_control_plane_namespace :
      TenantCluster → host.State → Result Bool × host.State
  delete_control_plane_namespace tc s = elim (host.get_namespace s (control_plane_namespace tc)) [
    | err failure ↦ if is_not_found failure then (ok true, s) else (err failure, s)
    | ok ns ↦
        if not (owned_by_tenant ns tc)
        then (ok true, s)
        else if ns.deleting
        then (ok false, s)
        else (let (failed, s) = host.delete_namespace s ns in
            elim failed [
              | none ↦ (ok false, s)
              | some e ↦ if is_not_found e then (ok false, s) else (err e, s)
            ])
  ]

  unfoldable pub teardown : TenantCluster → host.State → Result Bool × host.State
  unfolding delete_runtime_class_binding delete_control_plane_namespace
  teardown tc s =
      let (failed, s) = delete_runtime_class_binding tc s in
      elim failed [ some e ↦ (err e, s) | none ↦ delete_control_plane_namespace tc s ]
