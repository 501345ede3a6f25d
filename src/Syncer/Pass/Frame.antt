-- ===== src/Syncer/Pass/Frame.antt =====
-- The passes of internal/syncer/engine.go keep what the writes of the host's client keep.
use tenantplane.Base.{◌≡◌, refl, ◌∙◌, sym, List, [], ◌∷◌, inl, inr, bytes_eq}
use Prim.Derive.{subst}
use tenantplane.Base.Cases.{if-holds, result-holds}
use tenantplane.Base.Text.{Text}
use tenantplane.Base.Go.{Unicode}
use tenantplane.Base.Result.{ok, Result-cases}
use tenantplane.Object.{Object, Unstructured}
use tenantplane.Syncer.{Resource, Decision, Clients, Engine, World}
use tenantplane.Syncer.Frame.{StepsKeep, ClusterKeeps, host-StepsKeep}
use tenantplane.Syncer.Pair.{is_to_host, is_bidirectional, reconcile_pair}
use tenantplane.Syncer.Pair.Frame.{pair-keeps}
use tenantplane.Syncer.Orphans.{Outcome}
use tenantplane.Syncer.Orphans.Safety.{Survives, collect_orphans-survives}
use tenantplane.Syncer.Pass.{
  ref_for, record_decision, record_all, Progress, project, sync_object, sync_all, sync_pass,
  sync_to_host, sync_from_host, sync_bidirectional, is_from_host,
}
use tenantplane.Syncer.Pass.Loop.{object-by}
use tenantplane.Syncer.Pass.Laws.{pass-listed, pass-unlisted, listed, collected, looped}

module _ (env : Clients) ⦃u : Unicode⦄ ⦃k : Unstructured⦄ (J : env.host.State → Type 0)
    (steps : StepsKeep env (λ w. J w.host)) (e : Engine) (res : Resource) (policy : Text) where
  record_decision-host : (d : Decision) (w : World env) → (record_decision env e d w).host ≡ w.host
  unfolding record_decision
  record_decision-host d w = if-holds (λ (v : World env). v.host ≡ w.host) e.has_recorder refl refl

  record_all-host : (ds : List Decision) (w : World env) → (record_all env e ds w).host ≡ w.host
  unfolding record_all
  record_all-host [] w = refl
  record_all-host (d ∷ ds) w =
      record_all-host ds (record_decision env e d w) ∙ record_decision-host d w

  project-keeps :
      (obj host : Object) (p : Progress env)
      → J p.world.host
      → J (project env e res.direction policy res.gvk obj host p).world.host
  unfolding project
  project-keeps obj host p j =
      let ref = ref_for e res.gvk.kind obj in
      let step = reconcile_pair env e res.direction policy ref obj host p.world in
      let kept : J step.1.host =
        pair-keeps env (λ w. J w.host) steps e res.direction policy ref obj host p.world j in
      result-holds (λ (q : Progress env). J q.world.host) step.0 (λ failure. kept)
        (λ d done. subst J (sym (record_decision-host d step.1)) kept)

  all-keeps :
      (items : List Object) (p : Progress env)
      → J p.world.host
      → J (sync_all env e res.direction policy res.gvk items p).world.host
  unfolding sync_all
  all-keeps [] p j = j
  all-keeps (obj ∷ items) p j =
      all-keeps items (sync_object env e res.direction policy res.gvk obj p) (
        object-by env e res.direction policy res.gvk (λ q. J q.world.host) obj p (λ _. j) (λ _ _. j)
          (λ host _. project-keeps obj host p j))

  module _ (w : World env) (j : J w.host) where
    -- A pass whose deletions the predicate survives.
    pub pass-survives :
        (items : List Object)
        → listed env e policy res w ≡ ok items
        → Survives env res.gvk (looped env e policy res w items).desired J
        → J (sync_pass env e res policy w).1.host
    pass-survives items h safe = rw (pass-listed env e policy res w items h) (
        subst J
          (sym (
            record_all-host (collected env e policy res w items).0.decisions
              (collected env e policy res w items).1))
          (collect_orphans-survives env e res.gvk (looped env e policy res w items).desired
            (looped env e policy res w items).world J safe
            (all-keeps items (record { decisions = []; errs = []; desired = []; world = w }) j)))

    pub pass-keeps :
        ((s : env.host.State) (o : Object) → J s → J (env.host.delete_object s o).1)
        → J (sync_pass env e res policy w).1.host
    pass-keeps delete_keeps = elim (Result-cases (listed env e policy res w)) [
      | inl (items, h) ↦ pass-survives items h (λ obj s stray i. delete_keeps s obj i)
      | inr (failure, h) ↦ rw (pass-unlisted env e policy res w failure h) j
    ]

-- Each of the entry points keeps a predicate of the host that its writes keep.
module _ (env : Clients) ⦃u : Unicode⦄ ⦃k : Unstructured⦄ (J : env.host.State → Type 0)
    (keeps : ClusterKeeps env.host J) (e : Engine) (res : Resource) (w : World env)
    (j : J w.host) where
  kept : (policy : Text) → J (sync_pass env e res policy w).1.host
  kept policy = pass-keeps env J (host-StepsKeep env J keeps) e res policy w j keeps.delete_object

  abbrev After : Outcome × World env → Type 0
  After step = J step.1.host

  pub sync_to_host-keeps : J (sync_to_host env e res w).1.host
  unfolding sync_to_host
  sync_to_host-keeps = if-holds After (is_to_host res.direction) (kept []) j

  pub sync_from_host-keeps : J (sync_from_host env e res w).1.host
  unfolding sync_from_host
  sync_from_host-keeps = if-holds After (is_from_host res.direction) (kept []) j

  pub sync_bidirectional-keeps : (policy : Text) → J (sync_bidirectional env e res policy w).1.host
  unfolding sync_bidirectional
  sync_bidirectional-keeps policy = if-holds After (is_bidirectional res.direction) (kept policy) j
