-- ===== src/Controller/Isolate.antt =====
-- internal/controller/isolation_apply.go: the isolation profile, applied to the tenant's namespace.
use tenantplane.Base.{String, Option, none, some, ◌∷◌, if◌then◌else◌, Dict}
use tenantplane.Base.Text.{Text, text}
use tenantplane.Base.Result.{ok, err, Error, is_not_found}
use tenantplane.Base.Action.{Action, ◌>>=◌, ◌>>◌, pure, return, read, perform, lift}
use tenantplane.Api.{TenantCluster, IsolationProfileSpec}
use tenantplane.Isolation.{
  Profile, Quantities, NetworkPolicy, ResourceQuota, LimitRange, build_network_policy,
  build_resource_quota, build_limit_range, pod_security_labels,
}
use tenantplane.Controller.Namespace.{converge_labels, label_managed_by}
use tenantplane.Controller.Apis.{Apis}

unfoldable pub profile_from_cr : IsolationProfileSpec → Profile
profile_from_cr cr = record {
  level = cr.level;
  pod_security = cr.controls.pod_security;
  default_deny_network_policy = cr.controls.default_deny_network_policy;
  require_resource_requests = cr.controls.require_resource_requests;
  runtime_class_name = cr.controls.runtime_class_name;
  block_host_path_volumes = cr.controls.block_host_path_volumes;
  block_privileged_containers = cr.controls.block_privileged_containers;
  api_fairness = cr.controls.api_fairness;
}

-- The labels that a namespace with the profile carries.
abbrev pub desired_labels : Profile → Dict String Text
desired_labels profile = (label_managed_by, text "tenantplane") ∷ pod_security_labels profile

module _ (q : Quantities) (apis : Apis q) where
  -- The mutate functions take over the desired spec; labels of these kinds are not modelled.
  unfoldable pub apply_network_policy :
      TenantCluster → Option NetworkPolicy → Action apis.host.State Error Unit
  apply_network_policy tc none = pure tt
  apply_network_policy tc (some desired) = perform λ s.
      apis.network_policies.create_or_update s (tc.namespace, desired.name)
        λ np. apis.network_policies.set_owner tc (record np {
          match_expressions = desired.match_expressions;
          policy_types = desired.policy_types;
        })

  unfoldable pub apply_quota :
      TenantCluster → Option (ResourceQuota q) → Action apis.host.State Error Unit
  apply_quota tc none = pure tt
  apply_quota tc (some desired) = perform λ s.
      apis.quotas.create_or_update s (tc.namespace, desired.name)
        λ quota. apis.quotas.set_owner tc (record quota { hard = desired.hard })

  unfoldable pub apply_limit_range :
      TenantCluster → Option (LimitRange q) → Action apis.host.State Error Unit
  apply_limit_range tc none = pure tt
  apply_limit_range tc (some desired) = perform λ s.
      apis.limit_ranges.create_or_update s (tc.namespace, desired.name)
        λ lr. apis.limit_ranges.set_owner tc (record lr {
          default_request = desired.default_request;
          default_limit = desired.default_limit;
        })

  unfoldable pub apply_namespace_pod_security_labels :
      Text → Profile → Action apis.host.State Error Unit
  apply_namespace_pod_security_labels namespace profile = do
    found ← read λ s. apis.host.get_namespace s namespace
    elim found [
      | err failure ↦ if is_not_found failure then pure tt else return failure
      | ok ns ↦
          let (converged, changed) = converge_labels (desired_labels profile) ns in
          if changed then perform (λ s. apis.host.update_namespace s converged) else pure tt
    ]

  unfoldable pub apply_isolation : TenantCluster → Profile → Action apis.host.State Error Unit
  unfolding apply_namespace_pod_security_labels apply_network_policy apply_quota apply_limit_range
  apply_isolation tc profile = do
    apply_network_policy tc (build_network_policy profile tc.namespace)
    quota ←
        lift (
          build_resource_quota q profile tc.spec.resources.cpu tc.spec.resources.memory
            tc.namespace)
    apply_quota tc quota
    apply_limit_range tc (build_limit_range q profile tc.namespace)
    apply_namespace_pod_security_labels tc.namespace profile
