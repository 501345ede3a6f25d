-- ===== src/Controller/Reconcile/Synced.antt =====
-- Reconcile of internal/controller/tenantcluster_controller.go with the sync of
-- internal/controller/sync.go.
use tenantplane.Base.Text.{Text}
use tenantplane.Base.Go.{Unicode}
use tenantplane.Object.{Unstructured}
use tenantplane.Api.{TenantCluster}
use tenantplane.Isolation.{Quantities}
use tenantplane.Controller.Apis.{Apis}
use tenantplane.Controller.Cadence.{Parsers}
use tenantplane.Controller.Sync.{run_sync}
use tenantplane.Controller.Sync.Outside.{SyncApis}
use tenantplane.Controller.Sync.Frame.{SyncKeeps, run_sync-Keeps}
use tenantplane.Controller.Reconcile.{reconcile}
use tenantplane.Controller.Reconcile.Frames.{WritesKeep}
use tenantplane.Controller.Reconcile.Honest.{IsHonest}
use tenantplane.Controller.Reconcile.Outcomes.{reconcile-IsHonest}

module _ (q : Quantities) (apis : Apis q) (sync : SyncApis apis.host.State) ⦃u : Unicode⦄
    ⦃k : Unstructured⦄ ⦃parsers : Parsers⦄ {I : apis.host.State → Type 0} where
  -- Take an invariant of the state that every write of the clients keeps, those of the sync among
  -- them, and that the write of a status keeps where the status is honest: Ready is True in the phase
  -- Ready alone, and then the endpoint is the Service's. Reconcile with its sync keeps it; so it
  -- writes no status that is not honest.
  pub reconcile_synced-IsHonest :
      (keeps : WritesKeep q apis I) (sync_keeps : SyncKeeps q apis sync I)
      (honest : (s : apis.host.State) (tc : TenantCluster)
        → IsHonest tc
        → I s
        → I (apis.update_status s tc).1)
      (key : Text × Text) (s : apis.host.State)
      → I s
      → I (reconcile q apis (run_sync q apis sync) key s).1
  reconcile_synced-IsHonest keeps sync_keeps honest key s i =
      reconcile-IsHonest q apis keeps honest (run_sync q apis sync)
        (λ tc policy profile secret_name.
          run_sync-Keeps q apis sync I sync_keeps tc policy profile secret_name)
        key s i
