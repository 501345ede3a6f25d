-- ===== src/Controller/Sync.antt =====
-- `runSync` and `virtualClientFor` of internal/controller/sync.go, and the recorder of
-- internal/controller/decision_recorder.go: the passes that a policy asks for.
pub mod Outside
pub mod Laws
pub mod Frame
use tenantplane.Base.{
  ℕ, String, Bool, true, false, List, [], ◌∷◌, ◌++◌, Option, none, some, if◌then◌else◌, Dict,
  lookup, string_eq,
}
use tenantplane.Base.Text.{Text, text}
use tenantplane.Base.Go.{Unicode}
use tenantplane.Base.Result.{Result, ok, err, Error, message, wrap, is_not_found, ◌>>=◌}
use tenantplane.Base.Action.{Flow, stop, next, Action, lift}
use tenantplane.Object.{ℤ, Unstructured}
use tenantplane.Api.{TenantCluster, SyncPolicySpec, SyncDecisionStatus}
use tenantplane.Isolation.{Quantities, Profile}
use tenantplane.Syncer.{
  Direction, to_host, from_host, bidirectional, other, Resource, Action as Act, create, update,
  delete, skip, Decision, Cluster, Limiter, Clients, Engine, World, ConvergenceHistory,
}
use tenantplane.Syncer.Orphans.{Outcome}
use tenantplane.Syncer.Pass.{sync_to_host, sync_from_host, sync_bidirectional}
use tenantplane.Controller.Apis.{Apis, Objects, Secret}
use tenantplane.Controller.Cadence.{Parsers, rate_limiter_for_fairness, sync_resources_from_policy}
use tenantplane.Controller.Decisions.{
  Store, action_text, load_convergence_history, record_sync_decisions,
}
use tenantplane.Controller.Sync.Outside.{SyncApis, cluster_of, event_of}

module _ (q : Quantities) (apis : Apis q) (sync : SyncApis apis.host.State) where
  abbrev pub sync_clients : Clients
  sync_clients = record {
    host = cluster_of apis.objects;
    tenant = cluster_of sync.tenant_objects;
    limiter = sync.limiter;
  }

  abbrev pub decision_store : TenantCluster → Store
  decision_store tc = record {
    State = apis.host.State;
    get = sync.get_decisions tc;
    set_owner = sync.own_decisions tc;
    create_empty = sync.create_decisions tc;
    update_status = sync.update_decisions tc;
  }

  -- The address of the tenant's cluster.
  unfoldable pub virtual_client_for : TenantCluster → Text → apis.host.State → Result Text
  virtual_client_for tc secret_name s = elim (apis.secrets.get s (tc.namespace, secret_name)) [
    | err failure ↦
        if is_not_found failure
        then err (message (text "kubeconfig secret %q not found yet"))
        else err failure
    | ok secret ↦ elim (lookup "kubeconfig" secret.payload) [
      | none ↦ err (message (text "kubeconfig secret %q has no \"kubeconfig\" key"))
      | some raw ↦ elim (sync.parse_config raw) [
        | err e ↦ err (wrap (text "parse kubeconfig") e)
        | ok config ↦ sync.connect config
      ]
    ]
  ]

  -- for each decision, in order: recorder.Eventf
  unfoldable pub emit_all : TenantCluster → List Decision → apis.host.State → apis.host.State
  emit_all tc [] s = s
  emit_all tc (d ∷ ds) s = emit_all tc ds (sync.emit tc (event_of d) s)

  -- The history that the engine starts with, none where decisions are not recorded.
  unfoldable pub initial_history :
      TenantCluster → SyncPolicySpec → apis.host.State → Result (Option ConvergenceHistory)
  initial_history tc policy s =
      if policy.explain.record_decisions
      then elim (load_convergence_history (decision_store tc) s) [
        | err e ↦ err (wrap (text "load sync convergence history") e)
        | ok history ↦ ok (some history)
      ]
      else ok none

  -- The events and the durable decisions of a pass that had no error; a failure to persist is
  -- logged.
  unfoldable pub persist :
      TenantCluster → SyncPolicySpec → List Decision → World sync_clients → World sync_clients
  persist tc policy decisions w =
      if policy.explain.record_decisions
      then record w {
        host =
            (record_sync_decisions (decision_store tc) (sync.now w.host) decisions
              policy.explain.retain w.history w.host).1;
      }
      else w

  abbrev pub first_of : Option Error → Error → Error
  first_of none e = e
  first_of (some first) e = first

  module _ ⦃u : Unicode⦄ ⦃k : Unstructured⦄ where
    -- The switch on the direction; none where there is no pass.
    unfoldable pub pass_for :
        Engine → Text → Resource → World sync_clients → Option (Outcome × World sync_clients)
    pass_for e policy res w = elim res.direction [
      | to_host ↦ some (sync_to_host sync_clients e res w)
      | from_host ↦ some (sync_from_host sync_clients e res w)
      | bidirectional ↦ some (sync_bidirectional sync_clients e res policy w)
      | other t ↦ none
    ]

    -- The rest of the loop's body: the first error so far and the world, after a pass.
    unfoldable pub after_pass :
        TenantCluster
        → SyncPolicySpec
        → Option Error
        → World sync_clients
        → Option (Outcome × World sync_clients)
        → Option Error × World sync_clients
    after_pass tc policy first w none = (first, w)
    after_pass tc policy first w (some (outcome, done)) = elim outcome.error [
      | some failure ↦ (some (first_of first failure), done)
      | none ↦ (first, persist tc policy outcome.decisions done)
    ]

    -- The loop over the resources, with the first error so far.
    unfoldable pub run_passes :
        TenantCluster
        → SyncPolicySpec
        → Engine
        → List Resource
        → Option Error
        → World sync_clients
        → Option Error × World sync_clients
    unfolding after_pass
    run_passes tc policy e [] first w = (first, w)
    run_passes tc policy e (res ∷ resources) first w =
        let (first, w) = after_pass tc policy first w (pass_for e policy.conflict_policy res w) in
        run_passes tc policy e resources first w

    abbrev pub engine_for : TenantCluster → SyncPolicySpec → Profile → Engine
    engine_for tc policy profile = record {
      tenant = tc.name;
      host_namespace = tc.namespace;
      has_recorder = policy.explain.record_decisions;
      skip_namespaces = none;
      required_runtime_class_name = profile.runtime_class_name;
    }

    abbrev limiter_for : Profile → Option sync.limiter.State
    limiter_for profile = elim (rate_limiter_for_fairness profile.api_fairness) [
      | none ↦ none
      | some limits ↦ some (sync.new_limiter limits)
    ]

    -- The passes over the cluster at the address. The events of the pass are emitted at its end.
    unfoldable pub sync_at :
        TenantCluster
        → SyncPolicySpec
        → Profile
        → List Resource
        → Text
        → Option ConvergenceHistory
        → apis.host.State
        → Option Error × apis.host.State
    unfolding run_passes emit_all
    sync_at tc policy profile resources address history s =
        let start : World sync_clients = record {
          host = s;
          tenant = sync.view address s;
          limiter = limiter_for profile;
          history = history;
          recorded = [];
        } in
        let (first, w) = run_passes tc policy (engine_for tc policy profile) resources none start in
        (first, emit_all tc w.recorded (sync.put address w.tenant w.host))

    unfoldable pub run_sync :
        ⦃parsers : Parsers⦄
        → TenantCluster
        → SyncPolicySpec
        → Profile
        → Text
        → Action apis.host.State Error Unit
    unfolding sync_at initial_history virtual_client_for
    run_sync tc policy profile secret_name s = elim (sync_resources_from_policy (some policy)) [
      | [] ↦ (next tt, s)
      | res ∷ resources ↦ elim (virtual_client_for tc secret_name s) [
        | err e ↦ (stop (wrap (text "connect to tenant control plane") e), s)
        | ok address ↦ elim (initial_history tc policy s) [
          | err e ↦ (stop e, s)
          | ok history ↦
              let (first, s) = sync_at tc policy profile (res ∷ resources) address history s in
              elim first [ none ↦ (next tt, s) | some e ↦ (stop e, s) ]
        ]
      ]
    ]
