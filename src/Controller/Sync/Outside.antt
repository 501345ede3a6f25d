-- ===== src/Controller/Sync/Outside.antt =====
-- What a sync of internal/controller/sync.go reaches outside, and the events of
-- internal/controller/decision_recorder.go.
use tenantplane.Base.{ℕ, Bool, true, false, ◌++◌, Option, if◌then◌else◌, string_eq}
use tenantplane.Base.Text.{Text, text}
use tenantplane.Base.Result.{Result, Error}
use tenantplane.Api.{TenantCluster, SyncDecisionStatus}
use tenantplane.Syncer.{Action as Act, delete, Decision, Cluster, Limiter}
use tenantplane.Controller.Apis.{Objects}
use tenantplane.Controller.Decisions.{action_text}

-- An event on a TenantCluster.
pub record Event : Type 0 where
  pub event_type : Text
  pub reason : Text
  pub message : Text

abbrev pub is_delete : Act → Bool
is_delete delete = true
is_delete _ = false

-- What the recorder emits for a decision.
unfoldable pub event_of : Decision → Event
event_of d = record {
  event_type = if is_delete d.action then text "Warning" else text "Normal";
  reason = text "Sync" ++ action_text d.action;
  message =
      d.kind
      ++ text " "
      ++ d.ref.virtual_namespace
      ++ text "/"
      ++ d.ref.name
      ++ text " -> host "
      ++ d.host.namespace
      ++ text "/"
      ++ d.host.name
      ++ text ": "
      ++ d.reason;
}

-- What a sync needs besides the clients of the host: clientcmd and client.New, the cluster that a
-- kubeconfig reaches, as a part of the state, packages rate and time, the events, and the client for
-- the SyncDecision of a tenant.
pub record SyncApis (S : Type 0) : Type 1 where
  pub Config : Type 0
  pub parse_config : Text → Result Config
  pub connect : Config → Result Text
  pub Tenant : Type 0
  pub tenant_objects : Objects Tenant
  pub view : Text → S → Tenant
  pub put : Text → Tenant → S → S
  pub limiter : Limiter
  pub new_limiter : ℕ × ℕ → limiter.State
  pub emit : TenantCluster → Event → S → S
  pub now : S → ℕ
  pub get_decisions : TenantCluster → S → Result SyncDecisionStatus
  pub own_decisions : TenantCluster → S → Option Error
  pub create_decisions : TenantCluster → S → Option Error × S
  pub update_decisions : TenantCluster → S → SyncDecisionStatus → Option Error × S

abbrev pub cluster_of : {S : Type 0} → Objects S → Cluster
cluster_of {S} objects = record {
  State = S;
  get = objects.get;
  list = objects.list;
  create_object = objects.create;
  update_object = objects.update;
  delete_object = objects.delete;
}
