-- ===== src/Controller/Reconcile/Frames.antt =====
-- The steps of the reconciler keep what the clients' writes keep: an invariant of the state that no
-- write breaks, other than one of a status, holds after each of them. This file says what the writes
-- keep.
pub mod Policies
pub mod Objects
use tenantplane.Base.{
  arith, inl, inr, Bool, true, false, not, ◌==◌, bytes_eq, List, [], ◌∷◌, Option, none, some,
}
use tenantplane.Base.Text.{Text, contains}
use tenantplane.Base.Go.{Unicode}
use tenantplane.Base.Result.{Result, ok, err, Error, is_not_found, Result-cases}
use tenantplane.Syncplan.Transform.Build.{entries}
use tenantplane.Base.Action.{Action, perform}
use tenantplane.Base.Action.Triple.{
  Triple, Holds, Anything, Keeps, triples, pure-Triple, return-Triple, read-Triple, bind_any-Triple,
  then-Triple, if-Triple, result-Triple, option-Triple, call-Keeps, perform-Keeps, lift-Keeps,
  unless_not_found-Keeps, attempt-Triple,
}
use tenantplane.Object.{Object, Gvk, Unstructured}
use tenantplane.Api.{TenantCluster}
use tenantplane.Isolation.{Profile, Quantities, NetworkPolicy, ResourceQuota, LimitRange}
use tenantplane.Controller.Namespace.{
  Namespace, converge_labels, admission_hardening_unsupported, build_control_plane_namespace,
  control_plane_namespace, ensure_control_plane_namespace,
}
use tenantplane.Controller.ControlPlane.{
  control_plane_name, external_service_name, control_plane_service_fqdn, Service,
  build_external_service,
}
use tenantplane.Controller.Apis.{Apis, Kind, Owned, Secret, kubeconfig_of}
use tenantplane.Controller.Isolate.{
  desired_labels, apply_isolation, apply_network_policy, apply_quota, apply_limit_range,
  apply_namespace_pod_security_labels,
}
use tenantplane.Controller.Admission.{
  build_runtime_class_binding, ensure_policy, create_supported, reconcile_runtime_class_binding,
  ensure_runtime_class_policy,
}
use tenantplane.Controller.Admission.Scope.{
  scope_policies, ensure_policies, ensure_controller_scope_policies,
}
use tenantplane.Controller.Reconcile.Cleanup.{
  delete_if, delete_services, delete_legacy_objects, cleanup_legacy_control_plane,
}
use tenantplane.Controller.Reconcile.Credentials.{
  extract_kubeconfig, refresh_secret, create_secret, ensure_kubeconfig_secret,
}
use tenantplane.Controller.Reconcile.Objects.{
  create_or_converge, reconcile_service, reconcile_external_service, remove_external_service,
  external_endpoint, reconcile_stateful_set,
}

pub record KindKeeps {S A : Type 0} (I : S → Type 0) (kind : Kind S A) : Type 0 where
  pub create : (s : S) (a : A) → I s → I (kind.create s a).1
  pub update : (s : S) (a : A) → I s → I (kind.update s a).1
  pub delete : (s : S) (a : A) → I s → I (kind.delete s a).1

pub record OwnedKeeps {S A : Type 0} (I : S → Type 0) (kind : Owned S A) : Type 0 where
  pub create_or_update :
      (s : S) (key : Text × Text) (f : A → Result A) → I s → I (kind.create_or_update s key f).1

-- Every write of the clients but that of a status keeps the invariant.
pub record WritesKeep (q : Quantities) (apis : Apis q) (I : apis.host.State → Type 0) : Type 0 where
  pub create_namespace :
      (s : apis.host.State) (ns : Namespace) → I s → I (apis.host.create_namespace s ns).1
  pub update_namespace :
      (s : apis.host.State) (ns : Namespace) → I s → I (apis.host.update_namespace s ns).1
  pub delete_namespace :
      (s : apis.host.State) (ns : Namespace) → I s → I (apis.host.delete_namespace s ns).1
  pub delete_binding :
      (s : apis.host.State) (name : Text) → I s → I (apis.host.delete_binding s name).1
  pub tenants : KindKeeps I apis.tenants
  pub services : KindKeeps I apis.services
  pub stateful_sets : KindKeeps I apis.stateful_sets
  pub secrets : KindKeeps I apis.secrets
  pub claims : KindKeeps I apis.claims
  pub network_policies : OwnedKeeps I apis.network_policies
  pub quotas : OwnedKeeps I apis.quotas
  pub limit_ranges : OwnedKeeps I apis.limit_ranges
  pub create_object : (s : apis.host.State) (o : Object) → I s → I (apis.objects.create s o).1
  pub update_object : (s : apis.host.State) (o : Object) → I s → I (apis.objects.update s o).1
  pub exec_in_pod :
      (s : apis.host.State) (namespace pod container : Text) (command : List Text)
      → I s
      → I (apis.exec_in_pod s namespace pod container command).1

KindKeeps-everything : {S A : Type 0} (kind : Kind S A) → KindKeeps Anything kind
KindKeeps-everything kind = record {
  create = λ s a i. tt;
  update = λ s a i. tt;
  delete = λ s a i. tt;
}

-- The invariant that is no condition is kept.
pub everything-WritesKeep : (q : Quantities) (apis : Apis q) → WritesKeep q apis Anything
everything-WritesKeep q apis = record {
  create_namespace = λ s ns i. tt;
  update_namespace = λ s ns i. tt;
  delete_namespace = λ s ns i. tt;
  delete_binding = λ s name i. tt;
  tenants = KindKeeps-everything _;
  services = KindKeeps-everything _;
  stateful_sets = KindKeeps-everything _;
  secrets = KindKeeps-everything _;
  claims = KindKeeps-everything _;
  network_policies = record { create_or_update = λ s key f i. tt };
  quotas = record { create_or_update = λ s key f i. tt };
  limit_ranges = record { create_or_update = λ s key f i. tt };
  create_object = λ s o i. tt;
  update_object = λ s o i. tt;
  exec_in_pod = λ s namespace pod container command i. tt;
}

module _ {S A : Type 0} (kind : Kind S A) {I : S → Type 0} (keeps : KindKeeps I kind) where
  pub create_or_converge-Keeps :
      (desired : A) (converged : A → A) (found : Result A)
      → Keeps I (create_or_converge kind desired converged found)
  unfolding create_or_converge
  create_or_converge-Keeps desired converged (ok existing) =
      call-Keeps _ (λ s. keeps.update s (converged existing))
  create_or_converge-Keeps desired converged (err failure) =
      if-Triple _ (call-Keeps _ (λ s. keeps.create s desired)) (return-Triple failure tt)
