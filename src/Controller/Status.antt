-- ===== src/Controller/Status.antt =====
-- internal/controller/status.go, and the conditions of internal/controller/support.go that need no
-- other part of the controller.
pub mod Laws
use tenantplane.Base.{
  Bool, true, false, not, List, [], ◌∷◌, ◌++◌, Option, none, some, ◌==◌, bytes_eq, if◌then◌else◌,
}
use tenantplane.Base.Text.{Text, text}
use tenantplane.Api.{Condition, TenantCluster, SyncPolicySpec, SyncedResource}
use tenantplane.Syncer.{Direction, to_host, from_host, bidirectional, other}

-- The loop that overwrites the first condition of the type, and the append after it.
unfoldable pub upsert : Condition → List Condition → List Condition
upsert c [] = c ∷ []
upsert c (d ∷ conditions) =
    let rest = upsert c conditions in
    if d.kind == c.kind
    then record d { status = c.status; reason = c.reason; message = c.message } ∷ conditions
    else d ∷ rest

unfoldable pub set_condition : TenantCluster → (kind status reason message : Text) → TenantCluster
unfolding upsert
set_condition tc kind status reason message = record tc {
  status = record tc.status {
    conditions =
        upsert (record { kind = kind; status = status; reason = reason; message = message })
          tc.status.conditions;
  };
}

abbrev pub condition_true : Text
condition_true = text "True"

abbrev pub condition_false : Text
condition_false = text "False"

unfoldable pub set_mode_condition : TenantCluster → TenantCluster
unfolding set_condition
set_mode_condition tc =
    if not (tc.spec.mode == text "shared")
    then set_condition tc (text "ModeSupported") condition_false (text "NotImplemented")
        (text "mode %q is accepted but only %q is implemented; reconciling as shared")
    else set_condition tc (text "ModeSupported") condition_true (text "Shared") []

unfoldable pub set_admission_hardening_condition : TenantCluster → Bool → TenantCluster
unfolding set_condition
set_admission_hardening_condition tc supported =
    if supported
    then set_condition tc (text "AdmissionHardening") condition_true
        (text "ValidatingAdmissionPolicyActive") []
    else set_condition tc (text "AdmissionHardening") condition_false
        (text "ValidatingAdmissionPolicyUnavailable")
        (text
          "runtimeClassName is still enforced by the sync engine, but the admission-layer backstop is unavailable: this cluster does not serve admissionregistration.k8s.io/v1 ValidatingAdmissionPolicy (requires Kubernetes 1.30+)")

unfoldable pub set_controller_scope_condition : TenantCluster → Bool → TenantCluster
unfolding set_condition
set_controller_scope_condition tc supported =
    if supported
    then set_condition tc (text "ControllerRBACScoped") condition_true
        (text "ValidatingAdmissionPolicyActive") []
    else set_condition tc (text "ControllerRBACScoped") condition_false
        (text "ValidatingAdmissionPolicyUnavailable")
        (text
          "the controller's ClusterRole is unavoidably cluster-wide, but the admission-layer policy narrowing it to namespaces it manages is unavailable: this cluster does not serve admissionregistration.k8s.io/v1 ValidatingAdmissionPolicy (requires Kubernetes 1.30+)")

-- syncer.Direction(s)
abbrev pub direction_of : Text → Direction
direction_of t =
    if t == text "toHost"
    then to_host
    else if t == text "fromHost"
    then from_host
    else if t == text "bidirectional"
    then bidirectional
    else other t

abbrev is_known : Direction → Bool
is_known (other t) = false
is_known _ = true

-- The loop over the resources; each gives its place in the message.
unfoldable pub skipped_resources : List SyncedResource → List SyncedResource
skipped_resources [] = []
skipped_resources (res ∷ resources) =
    let rest = skipped_resources resources in
    if is_known (direction_of res.direction) then rest else res ∷ rest

abbrev pub skipped_text : List SyncedResource → Text
skipped_text [] = []
skipped_text (res ∷ []) =
    res.api_version ++ text " " ++ res.kind ++ text " (" ++ res.direction ++ text ")"
skipped_text (res ∷ r ∷ skipped) =
    res.api_version
    ++ text " "
    ++ res.kind
    ++ text " ("
    ++ res.direction
    ++ text ")"
    ++ text ", "
    ++ skipped_text (r ∷ skipped)

unfoldable pub set_sync_support_condition : TenantCluster → Option SyncPolicySpec → TenantCluster
unfolding set_condition skipped_resources
set_sync_support_condition tc none = tc
set_sync_support_condition tc (some policy) = elim (skipped_resources policy.resources) [
  | [] ↦ set_condition tc (text "SyncSupported") condition_true (text "Implemented") []
  | res ∷ skipped ↦
      set_condition tc (text "SyncSupported") condition_false (text "PartiallyImplemented") (
        text "unrecognized sync direction; these declared resources are not synced: "
        ++ skipped_text (res ∷ skipped))
]
