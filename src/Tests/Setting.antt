-- ===== src/Tests/Setting.antt =====
-- The concrete settings that the tests and examples run in: a Unicode table for ASCII, clusters and a
-- limiter in memory, and a ConfigMap of the tenant dev.
use tenantplane.Base.{
  ℕ, zero, suc, Bool, true, false, List, [], ◌∷◌, ◌++◌, Option, none, ◌==◌, bytes_eq, if◌then◌else◌,
}
use tenantplane.Base.Text.{Text, text}
use tenantplane.Base.Go.{Unicode}
use tenantplane.Base.Result.{Result, ok, err, not_found}
use tenantplane.Object.{pos, Object, string, object, field, end, Gvk, Unstructured}
use tenantplane.Object.Memory.{memory}
use tenantplane.Syncplan.Plan.{ResourceRef}
use tenantplane.Api.{TenantCluster}
use tenantplane.Syncer.{Cluster, Clients, Engine, World, ConvergenceHistory}

instance abbrev pub ascii : Unicode
ascii = record { letter_table = λ _. false; digit_table = λ _. false; lower_table = λ c. c }

instance abbrev pub in_memory : Unstructured
in_memory = memory

abbrev find : Text → List Object → Result Object
find name [] = err (not_found name)
find name (o ∷ objects) = if memory.get_name o == name then ok o else find name objects

abbrev pub without : Text → List Object → List Object
without name [] = []
without name (o ∷ objects) =
    let rest = without name objects in if memory.get_name o == name then rest else o ∷ rest

abbrev pub cluster : Cluster
cluster = record {
  State = List Object;
  get = λ s gvk namespace name. find name s;
  list = λ s gvk namespace labels. ok s;
  create_object = λ s o. (ok o, s ++ o ∷ []);
  update_object = λ s o. (ok o, without (memory.get_name o) s ++ o ∷ []);
  delete_object = λ s o. (ok o, without (memory.get_name o) s);
}

abbrev allow : ℕ → Bool × ℕ
allow zero = (false, zero)
allow (suc n) = (true, n)

abbrev pub env : Clients
env = record { host = cluster; tenant = cluster; limiter = record { State = ℕ; allow = allow } }

abbrev pub engine : Engine
engine = record {
  tenant = text "dev";
  host_namespace = text "tenant-dev";
  has_recorder = true;
  skip_namespaces = none;
  required_runtime_class_name = [];
}

abbrev pub config_map_gvk : Gvk
config_map_gvk = record { group = []; version = text "v1"; kind = text "ConfigMap" }

abbrev pub config_map : Object
config_map =
    ("apiVersion", string (text "v1"))
    ∷ ("kind", string (text "ConfigMap"))
    ∷ (
      "metadata",
      object (
          field "name" (string (text "app")) (
            field "namespace" (string (text "default"))
              (field "resourceVersion" (string (text "7")) end))),
    )
    ∷ ("data", object (field "key" (string (text "value")) end))
    ∷ []

abbrev pub ref : ResourceRef
ref = record {
  tenant_cluster = text "dev";
  tenant_namespace = text "tenant-dev";
  virtual_namespace = text "default";
  kind = text "ConfigMap";
  name = text "app";
}

-- An object that nobody has labelled, at the host name of the ConfigMap.
abbrev pub stranger : Object
stranger =
    ("kind", string (text "ConfigMap"))
    ∷ ("metadata", object (field "name" (string (text "app-x-default-x-dev")) end))
    ∷ []

abbrev pub world : List Object → Option ℕ → Option ConvergenceHistory → World env
world host limiter history = record {
  host = host;
  tenant = config_map ∷ [];
  limiter = limiter;
  history = history;
  recorded = [];
}

abbrev pub tenant : TenantCluster
tenant = record {
  name = text "dev";
  namespace = text "teams";
  finalizers = text "tenantplane.io/teardown" ∷ [];
  deleting = false;
  spec = record {
    mode = text "shared";
    kubernetes_version = text "v1.30.2";
    isolation_profile_ref = text "restricted";
    sync_policy_ref = text "default";
    control_plane = record {
      replicas = pos 1;
      datastore_type = text "sqlite";
      storage = record { class_name = []; size = [] };
      expose = record { load_balancer = false; annotations = none };
      extra_tls_sans = [];
    };
    resources = record { cpu = []; memory = [] };
  };
  status = record { phase = []; endpoint = []; external_endpoint = []; conditions = [] };
}
