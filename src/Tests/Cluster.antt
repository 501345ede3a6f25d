-- ===== src/Tests/Cluster.antt =====
-- A host in memory for the reconciler: one tenant, its StatefulSet and its Secret, and the statuses
-- that have been written.
use tenantplane.Base.{
  if◌then◌else◌, ◌≡◌, refl, String, not, ◌&&◌, ◌||◌, ◌==◌, bytes_eq, string_eq, lookup, beq_refl,
  eq_of_beq, Bool-cases, inl, inr, arith, Dict, ℕ, Bool, true, false, List, [], ◌∷◌, ◌++◌, Option,
  none, some,
}
use tenantplane.Base.Text.{Text, text}
use tenantplane.Base.Result.{Result, ok, err, not_found, no_match}
use tenantplane.Object.{pos, Object}
use tenantplane.Api.{TenantCluster, IsolationProfileSpec, SyncPolicySpec}
use tenantplane.Isolation.{Quantities}
use tenantplane.Controller.Namespace.{Namespace, Host}
use tenantplane.Controller.ControlPlane.Workload.{StatefulSet}
use tenantplane.Controller.ControlPlane.Exempt.{Selectors}
use tenantplane.Controller.Apis.{Apis, Kind, Owned, Objects, Secret}
use tenantplane.Controller.Cadence.{Parsers}
use tenantplane.Controller.Sync.Outside.{SyncApis}
use tenantplane.Tests.Setting.{tenant}

-- Quantities as they are written.
abbrev pub quantities : Quantities
quantities = record { Quantity = Text; parse = λ t. ok t; must_parse = λ t. t }

instance abbrev pub parsers : Parsers
parsers = record { parse_duration = λ t. some (pos 1000000000); parse_group_version = λ t. none }

pub record Room : Type 0 where
  pub tenant : TenantCluster
  pub namespaces : List Namespace
  pub stateful_set : Option (StatefulSet quantities)
  pub secret : Option Secret
  pub written : List TenantCluster
  pub policies : List Object

-- A kind without objects, whose writes are forgotten.
abbrev pub forgetful : {A : Type 0} → Kind Room A
forgetful = record {
  get = λ s key. err (not_found key.1);
  create = λ s a. (ok a, s);
  update = λ s a. (ok a, s);
  delete = λ s a. (none, s);
}

abbrev pub owned : {A : Type 0} → Owned Room A
owned = record { create_or_update = λ s key f. (none, s); set_owner = λ tc a. ok a }

abbrev pub objects : {S : Type 0} → Objects S
objects = record {
  get = λ s gvk namespace name. err (no_match name);
  list = λ s gvk namespace labels. ok [];
  create = λ s o. (ok o, s);
  update = λ s o. (ok o, s);
  delete = λ s o. (ok o, s);
}

abbrev found_or : {A : Type 0} → Text → Option A → Result A
found_or name none = err (not_found name)
found_or name (some a) = ok a

abbrev pub namespace_of : Text → List Namespace → Result Namespace
namespace_of name [] = err (not_found name)
namespace_of name (ns ∷ s) = ok ns

abbrev pub host : Host
host = record {
  State = Room;
  get_namespace = λ s name. namespace_of name s.namespaces;
  create_namespace = λ s ns. (none, record s { namespaces = ns ∷ s.namespaces });
  update_namespace = λ s ns. (none, record s { namespaces = ns ∷ [] });
  delete_namespace = λ s ns. (none, record s { namespaces = [] });
  delete_binding = λ s name. (some (not_found name), s);
}

abbrev pub profile : IsolationProfileSpec
profile = record {
  level = text "baseline";
  controls = record {
    pod_security = text "baseline";
    default_deny_network_policy = false;
    require_resource_requests = false;
    runtime_class_name = [];
    block_host_path_volumes = false;
    block_privileged_containers = false;
    api_fairness = text "tenant";
  };
}

abbrev pub policy : SyncPolicySpec
policy = record {
  conflict_policy = [];
  drift_detection = record { enabled = true; interval = text "1s" };
  explain = record { record_decisions = false; retain = pos 0 };
  resources = [];
}

abbrev pub kubeconfig : Text
kubeconfig = text "a:" ++ 0x0a ∷ text "  server: https://127.0.0.1:6443"

abbrev pub has_text : Text → List Text → Bool
has_text t [] = false
has_text t (x ∷ xs) = let rest = has_text t xs in if x == t then true else rest

abbrev pub without_text : Text → List Text → List Text
without_text t [] = []
without_text t (x ∷ xs) = let rest = without_text t xs in if x == t then rest else x ∷ rest

abbrev pub apis : Apis quantities
apis = record {
  host = host;
  tenants = record {
    get = λ s key. ok s.tenant;
    create = λ s tc. (ok tc, s);
    update = λ s tc. (ok tc, record s { tenant = tc });
    delete = λ s tc. (none, s);
  };
  contains_finalizer = λ tc finalizer. has_text finalizer tc.finalizers;
  add_finalizer = λ tc finalizer. record tc { finalizers = tc.finalizers ++ finalizer ∷ [] };
  remove_finalizer =
      λ tc finalizer. record tc { finalizers = without_text finalizer tc.finalizers };
  update_status = λ s tc. (none, record s { written = tc ∷ s.written });
  profiles = λ s name. ok profile;
  policies = λ s name. ok policy;
  services = forgetful;
  stateful_sets = record {
    get = λ s key. found_or key.1 s.stateful_set;
    create = λ s sts. (ok sts, record s { stateful_set = some sts });
    update = λ s sts. (ok sts, record s { stateful_set = some sts });
    delete = λ s sts. (none, record s { stateful_set = none });
  };
  secrets = record {
    get = λ s key. found_or key.1 s.secret;
    create = λ s secret. (ok secret, record s { secret = some secret });
    update = λ s secret. (ok secret, record s { secret = some secret });
    delete = λ s secret. (none, record s { secret = none });
  };
  claims = forgetful;
  network_policies = owned;
  quotas = owned;
  limit_ranges = owned;
  secret_owner = λ tc secret. ok secret;
  objects = objects;
  exec_in_pod = λ s namespace pod container command. (ok kubeconfig, s);
}

abbrev pub room : Room
room = record {
  tenant = tenant;
  namespaces = [];
  stateful_set = none;
  secret = none;
  written = [];
  policies = [];
}

abbrev pub sync : SyncApis Room
sync = record {
  Config = Text;
  parse_config = λ raw. ok raw;
  connect = λ config. ok config;
  Tenant = Unit;
  tenant_objects = objects;
  view = λ address s. tt;
  put = λ address t s. s;
  limiter = record { State = ℕ; allow = λ n. (true, n) };
  new_limiter = λ limits. limits.1;
  emit = λ tc event s. s;
  now = λ s. 0;
  get_decisions = λ tc s. err (not_found tc.name);
  own_decisions = λ tc s. none;
  create_decisions = λ tc s. (none, s);
  update_decisions = λ tc s status. (none, s);
}

-- The labels have one of the values at the key.
abbrev has_entry : Text → List Text → Dict String Text → Bool
has_entry key values [] = false
has_entry key values ((k, v) ∷ labels) =
    (text k == key && has_text v values) || has_entry key values labels

pub has_entry-lookup :
    (key : String) (value : Text) (labels : Dict String Text)
    → lookup key labels ≡ some value
    → has_entry (text key) (value ∷ []) labels ≡ true
has_entry-lookup key value [] h = ground arith
has_entry-lookup key value ((k, v) ∷ labels) h = elim (Bool-cases (k == key)) [
  | inl same ↦
      let first : v ≡ value = ground arith in
      rw (eq_of_beq k key same, first, beq_refl (text key), beq_refl value) refl
  | inr differs ↦ ground (arith, has_entry-lookup key value labels)
]

-- Requirements that are NotIn; the others match.
abbrev pub selectors : Selectors
selectors = record {
  matches = λ r labels. not (r.operator == text "NotIn" && has_entry r.key r.values labels);
  not_in = λ key value labels h. rw (has_entry-lookup key value labels h) refl;
}
