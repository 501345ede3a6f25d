-- ===== src/Controller/Sync/Laws.antt =====
-- The passes of a sync, in sequence: whose error is reported, and which cluster they may change.
use Prim.Derive.{subst}
use tenantplane.Base.{◌≡◌, refl, sym, ap, ◌∙◌, Option, none, some, List, [], ◌∷◌, All, arith}
use tenantplane.Base.Go.{Unicode}
use tenantplane.Base.Result.{Error}
use tenantplane.Object.{Unstructured}
use tenantplane.Api.{TenantCluster, SyncPolicySpec}
use tenantplane.Isolation.{Quantities}
use tenantplane.Syncer.{to_host, Resource, Engine, World}
use tenantplane.Syncer.Orphans.{Outcome}
use tenantplane.Syncer.Pass.{sync_to_host}
use tenantplane.Syncer.Pass.Laws.{sync_to_host-tenant}
use tenantplane.Controller.Apis.{Apis}
use tenantplane.Controller.Sync.{sync_clients, pass_for, after_pass, persist, run_passes}
use tenantplane.Controller.Sync.Outside.{SyncApis}

module _ (q : Quantities) (apis : Apis q) (sync : SyncApis apis.host.State) ⦃u : Unicode⦄
    ⦃k : Unstructured⦄ (tc : TenantCluster) (policy : SyncPolicySpec) (e : Engine) where
  after_pass-first :
      (first : Error) (w : World (sync_clients q apis sync))
      (result : Option (Outcome × World (sync_clients q apis sync)))
      → (after_pass q apis sync tc policy (some first) w result).0 ≡ some first
  unfolding after_pass
  after_pass-first first w none = refl
  after_pass-first first w (some (outcome, done)) = ground arith

  -- The error that a sync reports is the one of the first pass that had one: no later pass replaces
  -- it.
  pub run_passes-first :
      (resources : List Resource) (first : Error) (w : World (sync_clients q apis sync))
      → (run_passes q apis sync tc policy e resources (some first) w).0 ≡ some first
  unfolding run_passes
  run_passes-first [] first w = refl
  run_passes-first (res ∷ resources) first w =
      let step =
        after_pass q apis sync tc policy (some first) w
          (pass_for q apis sync e policy.conflict_policy res w) in
      subst (λ o. (run_passes q apis sync tc policy e resources o step.1).0 ≡ some first)
        (sym (after_pass-first first w (pass_for q apis sync e policy.conflict_policy res w)))
        (run_passes-first resources first step.1)

  -- What a pass leaves of the tenant's cluster is what the rest of the body leaves.
  after_pass-tenant :
      (first : Option Error) (w : World (sync_clients q apis sync))
      (outcome : Outcome × World (sync_clients q apis sync))
      → (after_pass q apis sync tc policy first w (some outcome)).1.tenant ≡ outcome.1.tenant
  unfolding after_pass persist
  after_pass-tenant first w outcome = ground arith

  pass_for-to_host :
      (res : Resource) (w : World (sync_clients q apis sync))
      → res.direction ≡ to_host
      → pass_for q apis sync e policy.conflict_policy res w
        ≡ some (sync_to_host (sync_clients q apis sync) e res w)
  unfolding pass_for
  pass_for-to_host res w h = ground arith

  -- With a policy whose directions are all towards the host, a sync never writes to the tenant's
  -- cluster.
  pub run_passes-tenant :
      (resources : List Resource) (first : Option Error) (w : World (sync_clients q apis sync))
      → All (λ res. res.direction ≡ to_host) resources
      → (run_passes q apis sync tc policy e resources first w).1.tenant ≡ w.tenant
  unfolding run_passes
  run_passes-tenant [] first w h = refl
  run_passes-tenant (res ∷ resources) first w h =
      let step =
        after_pass q apis sync tc policy first w
          (pass_for q apis sync e policy.conflict_policy res w) in
      run_passes-tenant resources step.0 step.1 h.1
      ∙ ap (λ result. (after_pass q apis sync tc policy first w result).1.tenant)
          (pass_for-to_host res w h.0)
      ∙ after_pass-tenant first w (sync_to_host (sync_clients q apis sync) e res w)
      ∙ sync_to_host-tenant (sync_clients q apis sync) e res w
