-- ===== src/Syncer/Pass/Laws.antt =====
-- What holds of a whole pass over one resource: what the recorder gets, and which cluster changes.
use tenantplane.Base.{
  ◌≡◌, refl, sym, ◌∙◌, true, none, some, List, [], ◌∷◌, ◌++◌, append_assoc, append-nil, arith, inl,
  inr, if◌then◌else◌, bytes_eq,
}
use tenantplane.Base.Text.{Text, text}
use tenantplane.Base.Go.{Unicode}
use tenantplane.Base.Result.{Result, ok, err, Error, Result-cases, wrap}
use tenantplane.Object.{Object, Gvk, Unstructured}
use tenantplane.Syncer.{
  Direction, to_host, from_host, bidirectional, other, Resource, Decision, Clients, Engine, World,
}
use tenantplane.Syncer.Pair.{is_to_host}
use tenantplane.Syncer.Pair.Safety.{reconcile_pair-to_host}
use tenantplane.Syncer.Pair.Frame.{pair-recorded}
use tenantplane.Syncer.Orphans.{Outcome, list_gvk, collect_orphans, aggregate}
use tenantplane.Syncer.Orphans.Safety.{collect_orphans-IsApart}
use tenantplane.Syncer.Pass.{
  ref_for, record_decision, record_all, Progress, project, sync_object, sync_all, sync_pass,
  sync_to_host, with_error, not_implemented,
}
use tenantplane.Syncer.Pass.Loop.{object-by}

module _ (env : Clients) ⦃u : Unicode⦄ ⦃k : Unstructured⦄ (e : Engine) (direction : Direction)
    (policy : Text) (gvk : Gvk) where
  -- The recorder has been given what was there before, and the decisions.
  abbrev IsRecorded : List Decision → Progress env → Type 0
  IsRecorded before p = p.world.recorded ≡ before ++ p.decisions

  project-IsRecorded :
      (before : List Decision) (obj host : Object) (p : Progress env)
      → e.has_recorder ≡ true
      → IsRecorded before p
      → IsRecorded before (project env e direction policy gvk obj host p)
  unfolding project record_decision
  project-IsRecorded before obj host p recorder h = grind (
    arith,
    append_assoc,
    pair-recorded env e direction policy (ref_for e gvk.kind obj) obj host p.world,
  )

  all-IsRecorded :
      (before : List Decision) (items : List Object) (p : Progress env)
      → e.has_recorder ≡ true
      → IsRecorded before p
      → IsRecorded before (sync_all env e direction policy gvk items p)
  unfolding sync_all
  all-IsRecorded before [] p recorder h = h
  all-IsRecorded before (obj ∷ items) p recorder h =
      all-IsRecorded before items (sync_object env e direction policy gvk obj p) recorder (
        object-by env e direction policy gvk (IsRecorded before) obj p (λ _. h) (λ _ _. h)
          (λ host _. project-IsRecorded before obj host p recorder h))

  record_all-recorded :
      (ds : List Decision) (w : World env)
      → e.has_recorder ≡ true
      → (record_all env e ds w).recorded ≡ w.recorded ++ ds
  unfolding record_all record_decision
  record_all-recorded [] w recorder = grind (arith, append-nil)
  record_all-recorded (d ∷ ds) w recorder = grind (
    arith,
    append_assoc,
    record_all-recorded ds (record w { recorded = w.recorded ++ d ∷ [] }) recorder,
  )

module _ (env : Clients) ⦃u : Unicode⦄ ⦃k : Unstructured⦄ (e : Engine) (policy : Text)
    (res : Resource) (w : World env) where
  abbrev pub listed : Result (List Object)
  listed = env.tenant.list w.tenant (list_gvk res.gvk) none []

  abbrev pub looped : List Object → Progress env
  looped items =
      sync_all env e res.direction policy res.gvk items
        (record { decisions = []; errs = []; desired = []; world = w })

  abbrev pub collected : List Object → Outcome × World env
  collected items = collect_orphans env e res.gvk (looped items).desired (looped items).world

  pub pass-listed :
      (items : List Object)
      → listed ≡ ok items
      → sync_pass env e res policy w ≡ (
        record {
          decisions = (looped items).decisions ++ (collected items).0.decisions;
          error = aggregate (with_error (looped items).errs (collected items).0.error);
        },
        record_all env e (collected items).0.decisions (collected items).1,
      )
  unfolding sync_pass
  pass-listed items h = ground arith

  pub pass-unlisted :
      (failure : Error)
      → listed ≡ err failure
      → sync_pass env e res policy w
        ≡ (record { decisions = []; error = some (wrap (text "list virtual %s") failure) }, w)
  unfolding sync_pass
  pass-unlisted failure h = ground arith

  -- An engine with a recorder gives it exactly the decisions that the pass returns, in their order.
  pub sync_pass-recorded :
      e.has_recorder ≡ true
      → (sync_pass env e res policy w).1.recorded
        ≡ w.recorded ++ (sync_pass env e res policy w).0.decisions
  sync_pass-recorded recorder = elim (Result-cases listed) [
    | inl (items, h) ↦ rw (pass-listed items h) (
        grind (
          arith,
          append_assoc,
          record_all-recorded env e res.direction policy res.gvk (collected items).0.decisions
              (collected items).1 recorder,
          (collect_orphans-IsApart env e res.gvk (looped items).desired (looped items).world).1,
          all-IsRecorded env e res.direction policy res.gvk w.recorded items
              (record { decisions = []; errs = []; desired = []; world = w }) recorder
              (sym (append-nil w.recorded)),
        ))
    | inr (failure, h) ↦ rw (pass-unlisted failure h) (sym (append-nil w.recorded))
  ]

module _ (env : Clients) ⦃u : Unicode⦄ ⦃k : Unstructured⦄ (e : Engine) (policy : Text)
    (gvk : Gvk) where
  project-tenant :
      (obj host : Object) (p : Progress env)
      → (project env e to_host policy gvk obj host p).world.tenant ≡ p.world.tenant
  unfolding project record_decision
  project-tenant obj host p =
      ground (arith, reconcile_pair-to_host env e policy (ref_for e gvk.kind obj) obj host p.world)

  all-tenant :
      (items : List Object) (p : Progress env)
      → (sync_all env e to_host policy gvk items p).world.tenant ≡ p.world.tenant
  unfolding sync_all
  all-tenant [] p = refl
  all-tenant (obj ∷ items) p =
      all-tenant items (sync_object env e to_host policy gvk obj p)
      ∙ object-by env e to_host policy gvk (λ q. q.world.tenant ≡ p.world.tenant) obj p (λ _. refl)
          (λ _ _. refl) (λ host _. project-tenant obj host p)

  record_all-tenant :
      (ds : List Decision) (w : World env) → (record_all env e ds w).tenant ≡ w.tenant
  unfolding record_all record_decision
  record_all-tenant [] w = refl
  record_all-tenant (d ∷ ds) w = record_all-tenant ds (record_decision env e d w) ∙ ground arith

module _ (env : Clients) ⦃u : Unicode⦄ ⦃k : Unstructured⦄ (e : Engine) (res : Resource)
    (w : World env) where
  pass-to_host : res.direction ≡ to_host → (sync_pass env e res [] w).1.tenant ≡ w.tenant
  pass-to_host towards = elim (Result-cases (listed env e [] res w)) [
    | inl (items, h) ↦ rw (pass-listed env e [] res w items h) (
        record_all-tenant env e [] res.gvk (collected env e [] res w items).0.decisions
          (collected env e [] res w items).1
        ∙ (collect_orphans-IsApart env e res.gvk (looped env e [] res w items).desired
            (looped env e [] res w items).world).0
        ∙ rw towards (
            all-tenant env e [] res.gvk items
              (record { decisions = []; errs = []; desired = []; world = w })))
    | inr (failure, h) ↦ rw (pass-unlisted env e [] res w failure h) refl
  ]

  -- A pass towards the host never writes to the tenant's cluster: whatever the pairs do, whatever is
  -- collected, and also where the direction is refused.
  pub sync_to_host-tenant : (sync_to_host env e res w).1.tenant ≡ w.tenant
  unfolding sync_to_host
  sync_to_host-tenant = go res.direction refl
    where
      go :
          (d : Direction)
          → res.direction ≡ d
          → (if is_to_host d then sync_pass env e res [] w else not_implemented env w).1.tenant
            ≡ w.tenant
      go to_host h = pass-to_host h
      go from_host h = refl
      go bidirectional h = refl
      go (other t) h = refl
