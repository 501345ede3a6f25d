-- ===== src/Controller/Sync/Frame.antt =====
-- A sync of internal/controller/sync.go keeps what the writes that it makes keep.
use tenantplane.Base.{Option, none, some, List, [], ◌∷◌}
use tenantplane.Base.Cases.{if-holds, result-holds, option-holds}
use tenantplane.Base.Text.{Text, text}
use tenantplane.Base.Go.{Unicode}
use tenantplane.Base.Result.{Error, ok, err, wrap}
use tenantplane.Base.Action.{Flow, stop, next}
use tenantplane.Base.Action.Triple.{Keeps, Holds-Anything}
use tenantplane.Object.{Gvk, Unstructured}
use tenantplane.Api.{TenantCluster, SyncPolicySpec}
use tenantplane.Isolation.{Quantities, Profile}
use tenantplane.Syncer.{
  Direction, to_host, from_host, bidirectional, other, Resource, Decision, Engine, World,
  ConvergenceHistory,
}
use tenantplane.Syncer.Frame.{ClusterKeeps}
use tenantplane.Syncer.Orphans.{Outcome}
use tenantplane.Syncer.Pass.Frame.{
  sync_to_host-keeps, sync_from_host-keeps, sync_bidirectional-keeps,
}
use tenantplane.Controller.Apis.{Apis}
use tenantplane.Controller.Cadence.{Parsers, sync_resources_from_policy}
use tenantplane.Controller.Decisions.Frame.{StoreKeeps, record_sync_decisions-keeps}
use tenantplane.Controller.Sync.{
  sync_clients, decision_store, virtual_client_for, emit_all, initial_history, persist, pass_for,
  after_pass, run_passes, sync_at, run_sync, first_of, engine_for, limiter_for,
}
use tenantplane.Controller.Sync.Outside.{SyncApis, Event, cluster_of, event_of}

-- The writes of a sync.
pub record SyncKeeps (q : Quantities) (apis : Apis q) (sync : SyncApis apis.host.State)
    (J : apis.host.State → Type 0) : Type 0 where
  pub objects : ClusterKeeps (cluster_of apis.objects) J
  pub decisions : (tc : TenantCluster) → StoreKeeps (decision_store q apis sync tc) J
  pub put :
      (s : apis.host.State) (address : Text) (t : sync.Tenant) → J s → J (sync.put address t s)
  pub emit :
      (s : apis.host.State) (tc : TenantCluster) (event : Event) → J s → J (sync.emit tc event s)

module _ (q : Quantities) (apis : Apis q) (sync : SyncApis apis.host.State)
    (J : apis.host.State → Type 0) (keeps : SyncKeeps q apis sync J) ⦃u : Unicode⦄
    ⦃k : Unstructured⦄ where
  emit_all-keeps :
      (tc : TenantCluster) (ds : List Decision) (s : apis.host.State)
      → J s
      → J (emit_all q apis sync tc ds s)
  unfolding emit_all
  emit_all-keeps tc [] s j = j
  emit_all-keeps tc (d ∷ ds) s j =
      emit_all-keeps tc ds (sync.emit tc (event_of d) s) (keeps.emit s tc (event_of d) j)

  module _ (tc : TenantCluster) (policy : SyncPolicySpec) where
    persist-keeps :
        (decisions : List Decision) (w : World (sync_clients q apis sync))
        → J w.host
        → J (persist q apis sync tc policy decisions w).host
    unfolding persist
    persist-keeps decisions w j =
        if-holds (λ (v : World (sync_clients q apis sync)). J v.host)
          policy.explain.record_decisions
          (record_sync_decisions-keeps (decision_store q apis sync tc) J (keeps.decisions tc)
            (sync.now w.host) decisions policy.explain.retain w.history w.host j)
          j

    abbrev Ran : Type 0
    Ran = Outcome × World (sync_clients q apis sync)

    -- The rest of the loop's body, after a pass.
    ran-keeps :
        (first : Option Error) (w : World (sync_clients q apis sync)) (result : Ran)
        → J result.1.host
        → J (after_pass q apis sync tc policy first w (some result)).1.host
    unfolding after_pass
    ran-keeps first w (outcome, done) j =
        option-holds (λ (r : Option Error × World (sync_clients q apis sync)). J r.1.host)
          outcome.error {x = (first, persist q apis sync tc policy outcome.decisions done)}
          {y = λ failure. (some (first_of q apis sync first failure), done)}
          (persist-keeps outcome.decisions done j) (λ failure. j)

    after_pass-keeps :
        (e : Engine) (gvk : Gvk) (direction : Direction) (first : Option Error)
        (w : World (sync_clients q apis sync))
        → J w.host
        → J
            (after_pass q apis sync tc policy first w (
              pass_for q apis sync e policy.conflict_policy
                (record { gvk = gvk; direction = direction })
                w)).1.host
    unfolding pass_for after_pass
    after_pass-keeps e gvk to_host first w j =
        ran-keeps first w _ (sync_to_host-keeps _ J keeps.objects e _ w j)
    after_pass-keeps e gvk from_host first w j =
        ran-keeps first w _ (sync_from_host-keeps _ J keeps.objects e _ w j)
    after_pass-keeps e gvk bidirectional first w j =
        ran-keeps first w _
          (sync_bidirectional-keeps _ J keeps.objects e _ w j policy.conflict_policy)
    after_pass-keeps e gvk (other t) first w j = j

    run_passes-keeps :
        (e : Engine) (resources : List Resource) (first : Option Error)
        (w : World (sync_clients q apis sync))
        → J w.host
        → J (run_passes q apis sync tc policy e resources first w).1.host
    unfolding run_passes
    run_passes-keeps e [] first w j = j
    run_passes-keeps e (res ∷ resources) first w j =
        run_passes-keeps e resources _ _ (after_pass-keeps e res.gvk res.direction first w j)

    module _ (profile : Profile) where
      sync_at-keeps :
          (resources : List Resource) (address : Text) (history : Option ConvergenceHistory)
          (s : apis.host.State)
          → J s
          → J (sync_at q apis sync tc policy profile resources address history s).1
      unfolding sync_at
      sync_at-keeps resources address history s j =
          let start : World (sync_clients q apis sync) = record {
            host = s;
            tenant = sync.view address s;
            limiter = limiter_for q apis sync profile;
            history = history;
            recorded = [];
          } in
          let e = engine_for q apis sync tc policy profile in
          let w = (run_passes q apis sync tc policy e resources none start).1 in
          emit_all-keeps tc w.recorded (sync.put address w.tenant w.host)
            (keeps.put w.host address w.tenant (run_passes-keeps e resources none start j))

      abbrev SyncOutcome : Type 0
      SyncOutcome = Flow Error Unit × apis.host.State

      -- The predicate holds after a run.
      record Done (r : SyncOutcome) : Type 0 where
        kept : J r.1

      connected-Done :
          (resources : List Resource) (secret_name : Text) (s : apis.host.State)
          → J s
          → Done (elim (virtual_client_for q apis sync tc secret_name s) [
            | err e ↦ (stop (wrap (text "connect to tenant control plane") e), s)
            | ok address ↦ elim (initial_history q apis sync tc policy s) [
              | err e ↦ (stop e, s)
              | ok history ↦
                  let (first, s) =
                    sync_at q apis sync tc policy profile resources address history s in
                  elim first [ none ↦ (next tt, s) | some e ↦ (stop e, s) ]
            ]
          ])
      connected-Done resources secret_name s j =
          result-holds Done (virtual_client_for q apis sync tc secret_name s)
            (λ e. record { kept = j })
            (λ address connected.
              result-holds Done (initial_history q apis sync tc policy s) (λ e. record { kept = j })
                (λ history loaded.
                  let r = sync_at q apis sync tc policy profile resources address history s in
                  let kept : J r.1 = sync_at-keeps resources address history s j in
                  option-holds Done r.0 (record { kept = kept }) (λ e. record { kept = kept })))

      run_sync-Done :
          ⦃parsers : Parsers⦄ (secret_name : Text) (s : apis.host.State)
          → J s
          → Done (run_sync q apis sync tc policy profile secret_name s)
      unfolding run_sync
      run_sync-Done secret_name s j = go (sync_resources_from_policy (some policy))
        where
          go :
              (resources : List Resource)
              → Done (elim resources [
                | [] ↦ (next tt, s)
                | res ∷ resources ↦ elim (virtual_client_for q apis sync tc secret_name s) [
                  | err e ↦ (stop (wrap (text "connect to tenant control plane") e), s)
                  | ok address ↦ elim (initial_history q apis sync tc policy s) [
                    | err e ↦ (stop e, s)
                    | ok history ↦
                        let (first, s) =
                          sync_at q apis sync tc policy profile
                            (res ∷ resources)
                            address
                            history
                            s in
                        elim first [ none ↦ (next tt, s) | some e ↦ (stop e, s) ]
                  ]
                ]
              ])
          go [] = record { kept = j }
          go (res ∷ resources) = connected-Done (res ∷ resources) secret_name s j

      -- A sync keeps a predicate of the host that its writes keep.
      pub run_sync-Keeps :
          ⦃parsers : Parsers⦄ (secret_name : Text)
          → Keeps J (run_sync q apis sync tc policy profile secret_name)
      run_sync-Keeps secret_name = record {
        run = λ s j. ((run_sync-Done secret_name s j).kept, Holds-Anything _);
      }
