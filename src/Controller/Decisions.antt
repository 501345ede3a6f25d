-- ===== src/Controller/Decisions.antt =====
-- internal/controller/sync_decisions.go: the durable record of a tenant's decisions, and the history
-- that the engine gets from it.
pub mod Laws
pub mod Frame
use tenantplane.Base.{
  ℕ, zero, suc, ◌-◌, Bool, true, false, List, [], ◌∷◌, ◌++◌, Option, none, some, if◌then◌else◌,
  Dict, length, drop, ltb, map, insert,
}
use tenantplane.Base.Text.{Text, text}
use tenantplane.Base.Result.{Result, ok, err, Error, is_not_found}
use tenantplane.Object.{ℤ, pos, negsuc}
use tenantplane.Api.{SyncDecisionEntry, SyncDecisionStatus}
use tenantplane.Syncer.{
  Action, create, update, delete, skip, Decision, ConvergedVersions, ConvergenceHistory,
}

-- The client, for the SyncDecision of one tenant: its status, where it is there. `create` makes it
-- with the owner reference, which `SetControllerReference` can refuse.
pub record Store : Type 1 where
  pub State : Type 0
  pub get : State → Result SyncDecisionStatus
  pub set_owner : State → Option Error
  pub create_empty : State → Option Error × State
  pub update_status : State → SyncDecisionStatus → Option Error × State

abbrev pub action_text : Action → Text
action_text create = text "Create"
action_text update = text "Update"
action_text delete = text "Delete"
action_text skip = text "Skip"

abbrev pub entry_of : ℕ → Decision → SyncDecisionEntry
entry_of now d = record {
  time = now;
  action = action_text d.action;
  kind = d.kind;
  tenant_namespace = d.ref.virtual_namespace;
  tenant_name = d.ref.name;
  host_namespace = d.host.namespace;
  host_name = d.host.name;
  reason = d.reason;
}

-- The entries after the appends, cut to the last `retain`.
unfoldable pub retained : ℕ → List SyncDecisionEntry → List SyncDecisionEntry
retained retain entries =
    if ltb retain (length entries) then drop (length entries - retain) entries else entries

-- LastConverged becomes a copy of the history, unless that is nil or empty.
abbrev pub last_converged_after :
    Option ConvergenceHistory → Dict Text ConvergedVersions → Dict Text ConvergedVersions
last_converged_after none kept = kept
last_converged_after (some []) kept = kept
last_converged_after (some (entry ∷ history)) kept = entry ∷ history

unfoldable pub status_after :
    ℕ → List Decision → ℕ → Option ConvergenceHistory → SyncDecisionStatus → SyncDecisionStatus
unfolding retained
status_after now decisions retain history status = record {
  entries = retained retain (status.entries ++ map (entry_of now) decisions);
  last_converged = last_converged_after history status.last_converged;
}

abbrev pub empty_status : SyncDecisionStatus
empty_status = record { entries = []; last_converged = [] }

module _ (store : Store) where
  unfoldable pub load_convergence_history : store.State → Result ConvergenceHistory
  load_convergence_history s = elim (store.get s) [
    | ok status ↦ ok status.last_converged
    | err failure ↦ if is_not_found failure then ok [] else err failure
  ]

  -- The record that is there, or a new one; with the error that ends the call.
  unfoldable pub fetch_or_create : store.State → Result SyncDecisionStatus × store.State
  fetch_or_create s = elim (store.get s) [
    | ok status ↦ (ok status, s)
    | err failure ↦
        if is_not_found failure
        then elim (store.set_owner s) [
          | some e ↦ (err e, s)
          | none ↦
              let (failed, s) = store.create_empty s in
              elim failed [ none ↦ (ok empty_status, s) | some e ↦ (err e, s) ]
        ]
        else (err failure, s)
  ]

  abbrev is_positive : ℤ → Bool
  is_positive (pos zero) = false
  is_positive (pos (suc n)) = true
  is_positive (negsuc n) = false

  abbrev magnitude : ℤ → ℕ
  magnitude (pos n) = n
  magnitude (negsuc n) = 0

  unfoldable pub record_sync_decisions :
      ℕ → List Decision → ℤ → Option ConvergenceHistory → store.State → Option Error × store.State
  unfolding fetch_or_create status_after
  record_sync_decisions now [] retain history s = (none, s)
  record_sync_decisions now (d ∷ decisions) retain history s =
      if is_positive retain
      then (let (fetched, s) = fetch_or_create s in
          elim fetched [
            | err e ↦ (some e, s)
            | ok status ↦
                store.update_status s
                  (status_after now (d ∷ decisions) (magnitude retain) history status)
          ])
      else (none, s)
