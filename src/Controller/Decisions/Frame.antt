-- ===== src/Controller/Decisions/Frame.antt =====
-- Recording decisions, in internal/controller/sync_decisions.go, keeps what the writes of the record
-- keep.
use tenantplane.Base.{ℕ, zero, suc, Option, some, List, [], ◌∷◌}
use tenantplane.Base.Cases.{if-holds, result-holds, option-holds}
use tenantplane.Base.Result.{is_not_found}
use tenantplane.Object.{ℤ, pos, negsuc}
use tenantplane.Api.{SyncDecisionStatus}
use tenantplane.Syncer.{Decision, ConvergenceHistory}
use tenantplane.Controller.Decisions.{Store, fetch_or_create, record_sync_decisions, status_after}

-- The writes of a client for the SyncDecision of a tenant.
pub record StoreKeeps (store : Store) (J : store.State → Type 0) : Type 0 where
  pub create_empty : (s : store.State) → J s → J (store.create_empty s).1
  pub update_status :
      (s : store.State) (status : SyncDecisionStatus) → J s → J (store.update_status s status).1

module _ (store : Store) (J : store.State → Type 0) (keeps : StoreKeeps store J) where
  -- The predicate holds after a call with a result.
  record After {A : Type 0} (r : A × store.State) : Type 0 where
    kept : J r.1

  fetch_or_create-keeps : (s : store.State) → J s → After (fetch_or_create store s)
  unfolding fetch_or_create
  fetch_or_create-keeps s j =
      let created : J (store.create_empty s).1 = keeps.create_empty s j in
      result-holds After (store.get s)
        (λ failure.
          if-holds After (is_not_found failure)
            (option-holds After (store.set_owner s)
              (option-holds After (store.create_empty s).0 (record { kept = created })
                (λ e. record { kept = created }))
              (λ e. record { kept = j }))
            (record { kept = j }))
        (λ status there. record { kept = j })

  record_sync_decisions-After :
      (now : ℕ) (decisions : List Decision) (retain : ℤ) (history : Option ConvergenceHistory)
      (s : store.State)
      → J s
      → After (record_sync_decisions store now decisions retain history s)
  unfolding record_sync_decisions
  record_sync_decisions-After now [] retain history s j = record { kept = j }
  record_sync_decisions-After now (d ∷ decisions) (pos zero) history s j = record { kept = j }
  record_sync_decisions-After now (d ∷ decisions) (negsuc n) history s j = record { kept = j }
  record_sync_decisions-After now (d ∷ decisions) (pos (suc n)) history s j =
      let (fetched, s') = fetch_or_create store s in
      let kept : J s' = (fetch_or_create-keeps s j).kept in
      result-holds After fetched {x = λ e. (some e, s')}
        {y = λ status.
          store.update_status s' (status_after now (d ∷ decisions) (suc n) history status)}
        (λ e. record { kept = kept })
        (λ status there. record { kept = keeps.update_status s' _ kept })

  pub record_sync_decisions-keeps :
      (now : ℕ) (decisions : List Decision) (retain : ℤ) (history : Option ConvergenceHistory)
      (s : store.State)
      → J s
      → J (record_sync_decisions store now decisions retain history s).1
  record_sync_decisions-keeps now decisions retain history s j =
      (record_sync_decisions-After now decisions retain history s j).kept
