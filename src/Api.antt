-- ===== src/Api.antt =====
-- internal/api/v1alpha1/types.go: the fields of the API objects that the modelled parts read and
-- write.
pub mod Copies
use tenantplane.Base.{ℕ, String, Bool, Option, List, Dict}
use tenantplane.Base.Text.{Text}
use tenantplane.Syncer.{ConvergedVersions}
use tenantplane.Object.{ℤ}

pub record Condition : Type 0 where
  pub kind : Text
  pub status : Text
  pub reason : Text
  pub message : Text

pub record StorageSpec : Type 0 where
  pub class_name : Text
  pub size : Text

pub record ExposeSpec : Type 0 where
  pub load_balancer : Bool
  pub annotations : Option (Dict String Text)

-- `replicas` is an int of the host's width; the program turns it into an int32.
pub record ControlPlaneSpec : Type 0 where
  pub replicas : ℤ
  pub datastore_type : Text
  pub storage : StorageSpec
  pub expose : ExposeSpec
  pub extra_tls_sans : List Text

pub record TenantResourceRequests : Type 0 where
  pub cpu : Text
  pub memory : Text

-- The references are the names that they hold. Networking and migration are read nowhere.
pub record TenantClusterSpec : Type 0 where
  pub mode : Text
  pub kubernetes_version : Text
  pub isolation_profile_ref : Text
  pub sync_policy_ref : Text
  pub control_plane : ControlPlaneSpec
  pub resources : TenantResourceRequests

pub record TenantClusterStatus : Type 0 where
  pub phase : Text
  pub endpoint : Text
  pub external_endpoint : Text
  pub conditions : List Condition

-- Of the metadata: name, namespace, finalizers, and whether there is a deletion timestamp.
pub record TenantCluster : Type 0 where
  pub name : Text
  pub namespace : Text
  pub finalizers : List Text
  pub deleting : Bool
  pub spec : TenantClusterSpec
  pub status : TenantClusterStatus

pub record IsolationControls : Type 0 where
  pub pod_security : Text
  pub default_deny_network_policy : Bool
  pub require_resource_requests : Bool
  pub runtime_class_name : Text
  pub block_host_path_volumes : Bool
  pub block_privileged_containers : Bool
  pub api_fairness : Text

-- The spec of an IsolationProfile.
pub record IsolationProfileSpec : Type 0 where
  pub level : Text
  pub controls : IsolationControls

pub record SyncDecisionEntry : Type 0 where
  pub time : ℕ
  pub action : Text
  pub kind : Text
  pub tenant_namespace : Text
  pub tenant_name : Text
  pub host_namespace : Text
  pub host_name : Text
  pub reason : Text

pub record SyncDecisionStatus : Type 0 where
  pub entries : List SyncDecisionEntry
  pub last_converged : Dict Text ConvergedVersions

pub record DriftDetectionSpec : Type 0 where
  pub enabled : Bool
  pub interval : Text

pub record ExplainSpec : Type 0 where
  pub record_decisions : Bool
  pub retain : ℤ

pub record SyncedResource : Type 0 where
  pub api_version : Text
  pub kind : Text
  pub direction : Text

pub record SyncPolicySpec : Type 0 where
  pub conflict_policy : Text
  pub drift_detection : DriftDetectionSpec
  pub explain : ExplainSpec
  pub resources : List SyncedResource
