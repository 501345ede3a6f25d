-- ===== src/Isolation.antt =====
-- internal/isolation: the profile of each level, and the objects that enforce it in a namespace.
pub mod Laws
use tenantplane.Base.{
  String, Bool, true, false, not, List, [], ◌∷◌, Option, none, some, ◌==◌, bytes_eq, string_eq,
  if◌then◌else◌, Dict, insert,
}
use tenantplane.Base.Text.{Text, text, is_empty}
use tenantplane.Base.Result.{Result, ok, err, Error, message, ◌>>=◌}

pub record Profile : Type 0 where
  pub level : Text
  pub pod_security : Text
  pub default_deny_network_policy : Bool
  pub require_resource_requests : Bool
  pub runtime_class_name : Text
  pub block_host_path_volumes : Bool
  pub block_privileged_containers : Bool
  pub api_fairness : Text

abbrev pub baseline : Profile
baseline = record {
  level = text "baseline";
  pod_security = text "baseline";
  default_deny_network_policy = false;
  require_resource_requests = true;
  runtime_class_name = [];
  block_host_path_volumes = false;
  block_privileged_containers = false;
  api_fairness = text "tenant";
}

abbrev pub restricted : Profile
restricted = record {
  level = text "restricted";
  pod_security = text "restricted";
  default_deny_network_policy = true;
  require_resource_requests = true;
  runtime_class_name = [];
  block_host_path_volumes = true;
  block_privileged_containers = true;
  api_fairness = text "tenant";
}

abbrev pub sandboxed : Profile
sandboxed = record {
  level = text "sandboxed";
  pod_security = text "restricted";
  default_deny_network_policy = true;
  require_resource_requests = true;
  runtime_class_name = text "kata-qemu";
  block_host_path_volumes = true;
  block_privileged_containers = true;
  api_fairness = text "tenant-strict";
}

unfoldable pub profile_for_level : Text → Result Profile
profile_for_level level =
    if level == text "baseline"
    then ok baseline
    else if level == text "restricted"
    then ok restricted
    else if level == text "sandboxed"
    then ok sandboxed
    else err (message (text "unknown isolation level %q"))

-- A requirement of a label selector: the key, the operator and the values.
pub record Requirement : Type 0 where
  pub key : Text
  pub operator : Text
  pub values : List Text

pub record NetworkPolicy : Type 0 where
  pub name : Text
  pub namespace : Text
  pub match_expressions : List Requirement
  pub policy_types : List Text

unfoldable pub build_network_policy : Profile → Text → Option NetworkPolicy
build_network_policy profile namespace =
    if not profile.default_deny_network_policy
    then none
    else some (record {
      name = text "tenantplane-default-deny";
      namespace = namespace;
      match_expressions =
          record {
            key = text "tenantplane.io/isolation-exempt";
            operator = text "NotIn";
            values = text "true" ∷ [];
          }
          ∷ [];
      policy_types = text "Ingress" ∷ text "Egress" ∷ [];
    })

-- resource.Quantity and its parser; `MustParse` of the texts of this package does not fail.
pub record Quantities : Type 1 where
  pub Quantity : Type 0
  pub parse : Text → Result Quantity
  pub must_parse : Text → Quantity

abbrev pub pod_security_labels : Profile → Dict String Text
pod_security_labels profile =
    ("pod-security.kubernetes.io/enforce", profile.pod_security)
    ∷ ("pod-security.kubernetes.io/audit", profile.pod_security)
    ∷ ("pod-security.kubernetes.io/warn", profile.pod_security)
    ∷ []

pub record ResourceQuota (q : Quantities) : Type 0 where
  pub name : Text
  pub namespace : Text
  pub hard : Dict String q.Quantity

-- The one item of the limit range, which is for containers.
pub record LimitRange (q : Quantities) : Type 0 where
  pub name : Text
  pub namespace : Text
  pub default_request : Dict String q.Quantity
  pub default_limit : Dict String q.Quantity

module _ (q : Quantities) where
  -- The lines for one resource: an empty amount sets nothing.
  unfoldable pub with_amount :
      String → String → Text → Dict String q.Quantity → Result (Dict String q.Quantity)
  with_amount requests limits amount hard =
      if is_empty amount then ok hard else elim (q.parse amount) [
        | err e ↦ err e
        | ok quantity ↦ ok (insert limits quantity (insert requests quantity hard))
      ]

  abbrev pub quota_of : Text → Dict String q.Quantity → Option (ResourceQuota q)
  quota_of namespace [] = none
  quota_of namespace (h ∷ hard) =
      some (record { name = text "tenantplane-quota"; namespace = namespace; hard = h ∷ hard })

  unfoldable pub build_resource_quota :
      Profile → (cpu memory namespace : Text) → Result (Option (ResourceQuota q))
  unfolding with_amount
  build_resource_quota profile cpu memory namespace =
      if not profile.require_resource_requests then ok none else (do
        hard ← with_amount "requests.cpu" "limits.cpu" cpu []
        hard ← with_amount "requests.memory" "limits.memory" memory hard
        ok (quota_of namespace hard))

  unfoldable pub build_limit_range : Profile → Text → Option (LimitRange q)
  build_limit_range profile namespace =
      if not profile.require_resource_requests
      then none
      else (let limit : Dict String q.Quantity =
            ("cpu", q.must_parse (text "500m")) ∷ ("memory", q.must_parse (text "512Mi")) ∷ [] in
          let limit : Dict String q.Quantity =
            if profile.level == text "sandboxed"
            then insert "memory" (q.must_parse (text "256Mi"))
                (insert "cpu" (q.must_parse (text "250m")) limit)
            else limit in
          some (record {
            name = text "tenantplane-defaults";
            namespace = namespace;
            default_request =
                ("cpu", q.must_parse (text "100m")) ∷ ("memory", q.must_parse (text "128Mi")) ∷ [];
            default_limit = limit;
          }))
