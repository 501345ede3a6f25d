-- ===== src/Controller/Apis.antt =====
-- The clients of the reconciler in internal/controller: what `r.Get`, `r.Create`, `r.Update`,
-- `r.Delete` and `r.Status().Update` do to each kind of object, `controllerutil.CreateOrUpdate` and
-- `SetControllerReference`, and a command in a pod.
use tenantplane.Base.{Bool, String, Option, List, Dict, string_eq, text_at}
use tenantplane.Base.Text.{Text}
use tenantplane.Base.Result.{Result, Error}
use tenantplane.Object.{Object, Gvk}
use tenantplane.Api.{TenantCluster, IsolationProfileSpec, SyncPolicySpec}
use tenantplane.Isolation.{Quantities, NetworkPolicy, ResourceQuota, LimitRange}
use tenantplane.Controller.Namespace.{Host}
use tenantplane.Controller.ControlPlane.{Service}
use tenantplane.Controller.ControlPlane.Workload.{StatefulSet}

-- The objects of one kind; a key is a namespace and a name. A write gives the object back as the
-- client leaves it.
pub record Kind (S : Type 0) (A : Type 0) : Type 0 where
  pub get : S → Text × Text → Result A
  pub create : S → A → Result A × S
  pub update : S → A → Result A × S
  pub delete : S → A → Option Error × S

-- The objects of one kind that are created or updated under an owner.
pub record Owned (S : Type 0) (A : Type 0) : Type 0 where
  pub create_or_update : S → Text × Text → (A → Result A) → Option Error × S
  pub set_owner : TenantCluster → A → Result A

-- The client for unstructured objects. A namespace is empty for the kinds that have none.
pub record Objects (S : Type 0) : Type 0 where
  pub get : S → Gvk → (namespace name : Text) → Result Object
  pub list : S → Gvk → Option Text → Dict String Text → Result (List Object)
  pub create : S → Object → Result Object × S
  pub update : S → Object → Result Object × S
  pub delete : S → Object → Result Object × S

-- What the program reads and writes of a corev1.Secret; `payload` is its Data.
pub record Secret : Type 0 where
  pub name : Text
  pub namespace : Text
  pub labels : Dict String Text
  pub payload : Dict String Text

-- A corev1.PersistentVolumeClaim by its name.
pub record Claim : Type 0 where
  pub name : Text
  pub namespace : Text

pub record Apis (q : Quantities) : Type 1 where
  pub host : Host
  pub tenants : Kind host.State TenantCluster
  -- controllerutil.ContainsFinalizer, AddFinalizer and RemoveFinalizer
  pub contains_finalizer : TenantCluster → Text → Bool
  pub add_finalizer : TenantCluster → Text → TenantCluster
  pub remove_finalizer : TenantCluster → Text → TenantCluster
  pub update_status : host.State → TenantCluster → Option Error × host.State
  pub profiles : host.State → Text → Result IsolationProfileSpec
  pub policies : host.State → Text → Result SyncPolicySpec
  pub services : Kind host.State Service
  pub stateful_sets : Kind host.State (StatefulSet q)
  pub secrets : Kind host.State Secret
  pub claims : Kind host.State Claim
  pub network_policies : Owned host.State NetworkPolicy
  pub quotas : Owned host.State (ResourceQuota q)
  pub limit_ranges : Owned host.State (LimitRange q)
  pub secret_owner : TenantCluster → Secret → Result Secret
  pub objects : Objects host.State
  -- execInPod: the pod's namespace and name, the container and the command
  pub exec_in_pod : host.State → Text → Text → Text → List Text → Result Text × host.State

abbrev pub kubeconfig_of : Secret → Text
kubeconfig_of secret = text_at "kubeconfig" secret.payload
