-- ===== src/Syncer/Pair/Settled/Steps.antt =====
-- What each write of a bidirectional pair leaves, in internal/syncer/engine.go.
use tenantplane.Base.{
  ◌≡◌, ◌≢◌, refl, sym, ap, ◌∙◌, true, some, ◌==◌, bytes_eq, string_eq, arith, inl, inr, ◌⊎◌,
}
use Prim.Derive.{subst}
use tenantplane.Base.Cases.{if-holds, result-holds, option-holds}
use tenantplane.Base.Text.{Text, text}
use tenantplane.Base.Result.{Result, ok, err}
use tenantplane.Object.{Object, Unstructured}
use tenantplane.Object.Laws.{IsUnstructured}
use tenantplane.Object.Frame.{IsFramed, standing}
use tenantplane.Syncplan.Plan.{ResourceRef}
use tenantplane.Syncplan.Transform.Build.{reverse_lookup}
use tenantplane.Syncplan.Transform.Content.{content_equal, merge_host_content_into_tenant}
use tenantplane.Syncer.{bidirectional, skip, Decision, Clients, Engine, World}
use tenantplane.Syncer.Pair.{
  converge_existing, reconcile_bidirectional_conflict, push_to_host, pull_to_tenant, create_missing,
  target_of, comparable, Step, rate_limited, pushed, last_converged, decide, converge_if,
  reason_agree, reason_manual, reason_host_changed, reason_host_wins, set_converged,
}
use tenantplane.Syncer.Pair.Safety.{is_ours, is_source_of, found}
use tenantplane.Syncer.Pair.Settled.{Settled, last_converged-set_converged, set_converged-host}
use tenantplane.Syncer.Pair.Settled.Server.{
  ReadsBack, reverse_lookup-standing, pushed-standing, comparable-version,
}

-- A decision that is no skip: one of the sides was written.
abbrev pub Writes : Result Decision → Type 0
Writes (ok d) = d.action ≢ skip
Writes (err e) = ⊥

module _ (env : Clients) ⦃k : Unstructured⦄ where
  -- The tenant's object after a step: the one before, or the answer to an update of it.
  abbrev pub Now : Object → World env → World env → Object → Type 0
  Now before w after now =
      ((now ≡ before) × (after.tenant ≡ w.tenant))
      ⊎ ((merged : Object) × ((env.tenant.update_object w.tenant merged).0 ≡ ok now)
          × ((env.tenant.update_object w.tenant merged).1 ≡ after.tenant))

  -- A step that wrote one of the sides has left the pair at rest.
  abbrev pub LeavesSettled : ResourceRef → Object → Object → World env → Step env → Type 0
  LeavesSettled ref before host w step =
      Writes step.0 → (now : Object) × Now before w step.1 now × Settled env ref now host step.1

  module _ (laws : IsUnstructured k) (framed : IsFramed k) (server : ReadsBack env.host k)
      (ref : ResourceRef) (before host : Object) (mine : is_ours host ref ≡ true) where
    Settled-of :
        (w : World env) (o written : Object)
        → standing k o ≡ standing k host
        → env.host.get w.host (k.group_version_kind o) (k.get_namespace o) (k.get_name o)
          ≡ ok written
        → reverse_lookup (some written) ≡ reverse_lookup (some o)
        → Settled env ref before host (
            set_converged env
              (k.get_name host)
              (k.get_resource_version before)
              (k.get_resource_version written)
              w)
    Settled-of w o written place read kept = record {
      existing = written;
      there =
          rw
            (set_converged-host env (k.get_name host) (k.get_resource_version before)
              (k.get_resource_version written) w)
            (subst
              (λ st. env.host.get w.host st.gvk st.identity.namespace st.identity.name ≡ ok written)
              place read);
      ours = ap (is_source_of ref) (kept ∙ reverse_lookup-standing env o host place) ∙ mine;
      agreed = last_converged-set_converged env _ _ _ w;
    }

    rate_limited-frame :
        (w : World env)
        → ((rate_limited env w).1.host ≡ w.host) × ((rate_limited env w).1.tenant ≡ w.tenant)
    unfolding rate_limited
    rate_limited-frame w = ground arith

    pub create-settles :
        (w : World env)
        → LeavesSettled ref before host w
            (create_missing env bidirectional ref (target_of env host) before host w)
    unfolding create_missing set_converged
    create-settles w =
        let limited = (rate_limited env w).1 in
        if-holds (LeavesSettled ref before host w) (rate_limited env w).0
          (λ wrote. absurd (wrote refl))
          (result-holds (LeavesSettled ref before host w)
            (env.host.create_object (rate_limited env w).1.host host).0
            (λ failure wrote. absurd wrote)
            (λ written answer wrote. (
              before,
              inl (refl, (rate_limited-frame w).1),
              Settled-of (record limited { host = (env.host.create_object limited.host host).1 })
                  host written refl (server.create_reads limited.host host written answer)
                  (server.create_keeps limited.host host written answer),
            )))

    push-settles :
        (existing : Object) (w : World env)
        → LeavesSettled ref before host w
            (push_to_host env ref (target_of env host) before existing host true w)
    unfolding push_to_host set_converged
    push-settles existing w =
        let limited = (rate_limited env w).1 in
        let desired = pushed env existing host in
        if-holds (LeavesSettled ref before host w) (rate_limited env w).0
          (λ wrote. absurd (wrote refl))
          (result-holds (LeavesSettled ref before host w)
            (env.host.update_object (rate_limited env w).1.host (pushed env existing host)).0
            (λ failure wrote. absurd wrote)
            (λ written answer wrote. (
              before,
              inl (refl, (rate_limited-frame w).1),
              Settled-of (record limited { host = (env.host.update_object limited.host desired).1 })
                  desired written (pushed-standing env framed existing host)
                  (server.update_reads limited.host desired written answer)
                  (server.update_keeps limited.host desired written answer),
            )))

    skip-settles :
        (reason : Text) (w after : World env)
        → LeavesSettled ref before host w (ok (decide skip ref (target_of env host) reason), after)
    skip-settles reason w after wrote = absurd (wrote refl)

    module _ (e : Engine) (policy : Text) (existing : Object) (w : World env)
        (there : found env e policy ref before host w ≡ ok existing)
        (ours : is_ours existing ref ≡ true) where
      pull-settles :
          (reason : Text)
          → LeavesSettled ref before host w (
              pull_to_tenant env ref
                (target_of env host)
                before
                (comparable env e ref existing)
                reason
                true
                w)
      unfolding pull_to_tenant set_converged
      pull-settles reason =
          let merged = merge_host_content_into_tenant (comparable env e ref existing) before in
          let limited = (rate_limited env w).1 in
          let (same_host, same_tenant) = rate_limited-frame w in
          if-holds (LeavesSettled ref before host w) (rate_limited env w).0
            (λ wrote. absurd (wrote refl))
            (result-holds (LeavesSettled ref before host w)
              (env.tenant.update_object (rate_limited env w).1.tenant merged).0
              (λ failure wrote. absurd wrote)
              (λ now answer wrote. (
                now,
                inr (
                  merged,
                  subst (λ t. (env.tenant.update_object t merged).0 ≡ ok now) same_tenant answer,
                  ap (λ t. (env.tenant.update_object t merged).1) (sym same_tenant),
                ),
                record {
                  existing = existing;
                  there = rw same_host there;
                  ours = ours;
                  agreed =
                      last_converged-set_converged env (k.get_name host)
                        (k.get_resource_version now)
                        (k.get_resource_version (comparable env e ref existing))
                        (record limited {
                          tenant = (env.tenant.update_object limited.tenant merged).1;
                        })
                      ∙ ap
                          (λ v. some (record {
                            tenant_resource_version = k.get_resource_version now;
                            host_resource_version = v;
                          }))
                          (comparable-version env laws framed e ref existing);
                },
              )))

      conflict-settles : LeavesSettled ref before host w (
          reconcile_bidirectional_conflict env policy ref
            (target_of env host)
            before
            existing
            (comparable env e ref existing)
            host
            w)
      unfolding reconcile_bidirectional_conflict
      conflict-settles =
          let P = LeavesSettled ref before host w in
          if-holds P (policy == text "tenant-wins") (push-settles existing w) (
            if-holds P (policy == text "host-wins") (pull-settles reason_host_wins) (
              option-holds P (last_converged env (k.get_name host) w) (λ wrote. absurd (wrote refl))
                (λ last. if-holds P _ (push-settles existing w) (
                  if-holds P _ (pull-settles reason_host_changed)
                    (skip-settles reason_manual w w)))))

      pub converge-settles : LeavesSettled ref before host w (
          converge_existing env e bidirectional policy ref
            (target_of env host)
            before
            existing
            host
            w)
      unfolding converge_existing
      converge-settles =
          if-holds (LeavesSettled ref before host w)
            (content_equal before (comparable env e ref existing))
            (skip-settles reason_agree w
              (converge_if env true (target_of env host) before existing w))
            conflict-settles
