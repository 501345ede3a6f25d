-- ===== src/Tests/Controllers.antt =====
-- The theorems on isolation and on the controller's parts, at concrete inputs.
use tenantplane.Base.{
  ◌≡◌, ◌++◌, refl, false, true, [], ◌∷◌, List, Option, none, some, length, min, bytes_eq,
}
use tenantplane.Base.Text.{Text, text}
use tenantplane.Base.Result.{ok, err, not_found}
use tenantplane.Object.{pos}
use tenantplane.Api.{SyncDecisionEntry, SyncDecisionStatus, SyncPolicySpec}
use tenantplane.Syncer.{Decision, create, ConvergedVersions}
use tenantplane.Isolation.{Quantities, ResourceQuota}
use tenantplane.Controller.Namespace.{Namespace, Host}
use tenantplane.Controller.Decisions.{
  Store, status_after, record_sync_decisions, load_convergence_history, empty_status,
}
use tenantplane.Controller.Decisions.Laws.{AreRecords, status_after_lem, load-record}
use tenantplane.Controller.Cadence.{Parsers}
use tenantplane.Tests.Setting.{ascii, ref}

-- A namespace that somebody else has made, and a host with nothing but it.
abbrev foreign : Namespace
foreign = record { name = text "cp-x-dev-x-teams"; labels = none; deleting = false }

abbrev host : Host
host = record {
  State = List Namespace;
  get_namespace = λ s name. elim s [ [] ↦ err (not_found name) | ns ∷ s ↦ ok ns ];
  create_namespace = λ s ns. (none, ns ∷ s);
  update_namespace = λ s ns. (none, ns ∷ []);
  delete_namespace = λ s ns. (none, []);
  delete_binding = λ s name. (some (not_found name), s);
}

abbrev own : Namespace
own = record {
  name = text "cp-x-dev-x-teams";
  labels = some (
      ("app.kubernetes.io/managed-by", text "tenantplane")
      ∷ ("tenantplane.io/tenant", text "dev")
      ∷ ("tenantplane.io/tenant-namespace", text "teams")
      ∷ []);
  deleting = false;
}

abbrev decision : Decision
decision = record {
  action = create;
  kind = text "ConfigMap";
  ref = ref;
  host = record { namespace = text "tenant-dev"; name = text "app-x-default-x-dev" };
  reason = [];
}

status_after_lem_example :
    (added : List SyncDecisionEntry) × AreRecords 5 (decision ∷ decision ∷ []) added
    × (length (status_after 5 (decision ∷ decision ∷ []) 1 none empty_status).entries
        ≡ min 1 (length ([] ++ added)))
    × ((evicted : List SyncDecisionEntry) × (evicted
            ++ (status_after 5 (decision ∷ decision ∷ []) 1 none empty_status).entries
          ≡ [] ++ added))
status_after_lem_example = status_after_lem 5 (decision ∷ decision ∷ []) 1 none empty_status

abbrev store : Store
store = record {
  State = Option SyncDecisionStatus;
  get = λ s. elim s [ none ↦ err (not_found (text "dev")) | some status ↦ ok status ];
  set_owner = λ s. none;
  create_empty = λ s. (none, some empty_status);
  update_status = λ s status. (none, some status);
}

abbrev agreed : Text × ConvergedVersions
agreed = (
  text "app-x-default-x-dev",
  record { tenant_resource_version = text "7"; host_resource_version = text "1" },
)

load-record_example :
    load_convergence_history store
      (record_sync_decisions store 5 (decision ∷ []) (pos 3) (some (agreed ∷ [])) none).1
    ≡ ok (agreed ∷ [])
unfolding record_sync_decisions
load-record_example = load-record store (λ s status done. refl) 5 decision [] 2 agreed [] none refl

instance abbrev parsers : Parsers
parsers = record { parse_duration = λ t. some (pos 1000000000); parse_group_version = λ t. none }

abbrev policy : SyncPolicySpec
policy = record {
  conflict_policy = [];
  drift_detection = record { enabled = true; interval = text "1s" };
  explain = record { record_decisions = false; retain = pos 0 };
  resources = [];
}

-- Quantities as they are written.
abbrev quantities : Quantities
quantities = record { Quantity = Text; parse = λ t. ok t; must_parse = λ t. t }

abbrev quota : Option (ResourceQuota quantities)
quota = some (record {
  name = text "tenantplane-quota";
  namespace = text "teams";
  hard = ("requests.cpu", text "2") ∷ ("limits.cpu", text "2") ∷ [];
})
