-- ===== src/Controller/Decisions/Laws.antt =====
-- The durable record of internal/controller/sync_decisions.go, and the history in it.
use tenantplane.Base.{
  ℕ, ◌-◌, ◌≡◌, refl, List, [], ◌∷◌, ◌++◌, Option, none, some, length, take, ltb, map, arith, suc,
  Bool-cases, inl, inr, length-drop, take-append-drop, min,
}
use tenantplane.Base.Result.{ok, Result-cases}
use tenantplane.Base.Text.{Text, text}
use tenantplane.Object.{pos}
use tenantplane.Api.{SyncDecisionEntry, SyncDecisionStatus}
use tenantplane.Syncer.{
  Action, create, update, delete, skip, Decision, ConvergedVersions, ConvergenceHistory,
}
use tenantplane.Controller.Decisions.{
  Store, action_text, entry_of, retained, status_after, load_convergence_history, fetch_or_create,
  record_sync_decisions,
}

retained-length :
    (retain : ℕ) (es : List SyncDecisionEntry)
    → length (retained retain es) ≡ min retain (length es)
unfolding retained
retained-length retain es = ground (arith, length-drop (length es - retain) es)

retained-suffix :
    (retain : ℕ) (es : List SyncDecisionEntry)
    → (evicted : List SyncDecisionEntry) × (evicted ++ retained retain es ≡ es)
unfolding retained
retained-suffix retain es = elim (Bool-cases (ltb retain (length es))) [
  | inl long ↦
      (take (length es - retain) es, rw (long, retained) (take-append-drop (length es - retain) es))
  | inr short ↦ ([], rw (short, retained) refl)
]

-- What an entry says of a decision.
abbrev pub IsNamed : Action → Text → Type 0
IsNamed create name = name ≡ text "Create"
IsNamed update name = name ≡ text "Update"
IsNamed delete name = name ≡ text "Delete"
IsNamed skip name = name ≡ text "Skip"

abbrev pub IsRecord : ℕ → Decision → SyncDecisionEntry → Type 0
IsRecord now d e =
    (e.time ≡ now)
    × IsNamed d.action e.action
    × (e.kind ≡ d.kind)
    × (e.tenant_namespace ≡ d.ref.virtual_namespace)
    × (e.tenant_name ≡ d.ref.name)
    × (e.host_namespace ≡ d.host.namespace)
    × (e.host_name ≡ d.host.name)
    × (e.reason ≡ d.reason)

-- One entry for each decision, in their order.
abbrev pub AreRecords : ℕ → List Decision → List SyncDecisionEntry → Type 0
AreRecords now [] [] = Unit
AreRecords now (d ∷ decisions) (e ∷ es) = IsRecord now d e × AreRecords now decisions es
AreRecords now _ _ = ⊥

action_text-IsNamed : (a : Action) → IsNamed a (action_text a)
action_text-IsNamed create = refl
action_text-IsNamed update = refl
action_text-IsNamed delete = refl
action_text-IsNamed skip = refl

map-AreRecords :
    (now : ℕ) (decisions : List Decision) → AreRecords now decisions (map (entry_of now) decisions)
map-AreRecords now [] = tt
map-AreRecords now (d ∷ decisions) = (
  (refl, action_text-IsNamed d.action, refl, refl, refl, refl, refl, refl),
  map-AreRecords now decisions,
)

-- A pass adds one entry for each decision, in their order, with the time, the name of the action, the
-- kind, both places and the reason. The record keeps the last `retain` of the old entries and these:
-- the oldest are the ones that go.
pub status_after_lem :
    (now : ℕ) (decisions : List Decision) (retain : ℕ) (history : Option ConvergenceHistory)
    (status : SyncDecisionStatus)
    → (added : List SyncDecisionEntry) × AreRecords now decisions added
      × (length (status_after now decisions retain history status).entries
          ≡ min retain (length (status.entries ++ added)))
      × ((evicted : List SyncDecisionEntry) × (evicted
              ++ (status_after now decisions retain history status).entries
            ≡ status.entries ++ added))
unfolding status_after
status_after_lem now decisions retain history status =
    let added = map (entry_of now) decisions in
    let es = status.entries ++ added in
    (added, map-AreRecords now decisions, retained-length retain es, retained-suffix retain es)

module _ (store : Store) where
  -- What the store does: an update that reports no error is what the next read finds.
  abbrev pub IsReadBack : Type 0
  IsReadBack =
      (s : store.State) (status : SyncDecisionStatus)
      → (store.update_status s status).0 ≡ none
      → store.get (store.update_status s status).1 ≡ ok status

  -- In a store whose reads find what was written: a history that has entries is loaded as it was
  -- recorded, when there was a decision, retain is positive, and nothing failed.
  pub load-record :
      IsReadBack
      → (now : ℕ) (d : Decision) (decisions : List Decision) (n : ℕ)
        (entry : Text × ConvergedVersions) (history : ConvergenceHistory) (s : store.State)
      → (record_sync_decisions store now (d ∷ decisions) (pos (suc n)) (some (entry ∷ history)) s).0
        ≡ none
      → load_convergence_history store
          (record_sync_decisions store now
            (d ∷ decisions)
            (pos (suc n))
            (some (entry ∷ history))
            s).1
        ≡ ok (entry ∷ history)
  unfolding record_sync_decisions load_convergence_history status_after
  load-record reads now d decisions n entry history s done =
      elim (Result-cases (fetch_or_create store s).0) [
        | inl (status, fetched) ↦
            let s' = (fetch_or_create store s).1 in
            let status' =
              status_after now (d ∷ decisions) (suc n) (some (entry ∷ history)) status in
            let written = store.update_status s' status' in ground (arith, reads s' status')
        | inr (failure, unfetched) ↦ ground arith
      ]
