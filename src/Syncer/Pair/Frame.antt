-- ===== src/Syncer/Pair/Frame.antt =====
-- A pair's step keeps what its writes keep; it leaves the recorder alone.
use tenantplane.Base.{List, ◌≡◌, refl, Bool, true, false, some, ◌==◌, not, ◌&&◌, bytes_eq}
use tenantplane.Base.Cases.{if-holds, result-holds, option-holds}
use tenantplane.Base.Text.{Text, text}
use tenantplane.Base.Result.{ok, err, is_not_found}
use tenantplane.Object.{Object, Unstructured}
use tenantplane.Syncplan.Plan.{ResourceRef, HostTarget}
use tenantplane.Syncplan.Transform.Build.{reverse_lookup}
use tenantplane.Syncplan.Transform.Content.{content_equal, merge_host_content_into_tenant}
use tenantplane.Syncer.{
  Direction, to_host, from_host, bidirectional, other, skip, Decision, Clients, Engine, World,
}
use tenantplane.Syncer.Frame.{StepsKeep}
use tenantplane.Syncer.Pair.{
  Step, set_converged, rate_limited, pushed, push_to_host, pull_to_tenant, converge_existing,
  converge_if, create_missing, reconcile_existing, reconcile_bidirectional_conflict, reconcile_pair,
  target_of, comparable, reason_authoritative, reason_host_wins, reason_host_changed,
  last_converged, same_source, is_to_host, is_bidirectional, decide, reason_manual, reason_collides,
  reason_occupied,
}

module _ (env : Clients) ⦃k : Unstructured⦄ (I : World env → Type 0) (keeps : StepsKeep env I) where
  pub rate_limited-keeps : (w : World env) → I w → I (rate_limited env w).1
  unfolding rate_limited
  rate_limited-keeps w i =
      option-holds (λ (r : Bool × World env). I r.1) w.limiter i (λ l. keeps.limiter w _ i)

  module _ (e : Engine) (direction : Direction) (policy : Text) (ref : ResourceRef)
      (virtual_obj host : Object) where
    -- The invariant holds after the step.
    record After (step : Step env) : Type 0 where
      kept : I step.1

    converge_if-keeps :
        (track : Bool) (target : HostTarget) (tenant_obj host_obj : Object) (w : World env)
        → I w
        → I (converge_if env track target tenant_obj host_obj w)
    unfolding set_converged
    converge_if-keeps track target tenant_obj host_obj w i =
        if-holds I track (keeps.history w _ i) i

    push-keeps :
        (existing : Object) (track : Bool) (w : World env)
        → I w
        → After (push_to_host env ref (target_of env host) virtual_obj existing host track w)
    unfolding push_to_host
    push-keeps existing track w i =
        let limited = (rate_limited env w).1 in
        let kept = rate_limited-keeps w i in
        let desired = pushed env existing host in
        let written : World env = record limited {
          host = (env.host.update_object limited.host desired).1;
        } in
        if-holds After (rate_limited env w).0 (record { kept = kept })
          (result-holds After (env.host.update_object limited.host desired).0
            (λ failure. record { kept = keeps.update_host limited desired kept })
            (λ o answer. record {
              kept =
                  converge_if-keeps track (target_of env host) virtual_obj o written
                    (keeps.update_host limited desired kept);
            }))

    pull-keeps :
        (existing : Object) (reason : Text) (track : Bool) (w : World env)
        → I w
        → After (pull_to_tenant env ref (target_of env host) virtual_obj existing reason track w)
    unfolding pull_to_tenant
    pull-keeps existing reason track w i =
        let limited = (rate_limited env w).1 in
        let kept = rate_limited-keeps w i in
        let merged = merge_host_content_into_tenant existing virtual_obj in
        let written : World env = record limited {
          tenant = (env.tenant.update_object limited.tenant merged).1;
        } in
        if-holds After (rate_limited env w).0 (record { kept = kept })
          (result-holds After (env.tenant.update_object limited.tenant merged).0
            (λ failure. record { kept = keeps.update_tenant limited merged kept })
            (λ o answer. record {
              kept =
                  converge_if-keeps track (target_of env host) o existing written
                    (keeps.update_tenant limited merged kept);
            }))

    create-keeps :
        (w : World env)
        → I w
        → After (create_missing env direction ref (target_of env host) virtual_obj host w)
    unfolding create_missing
    create-keeps w i =
        let limited = (rate_limited env w).1 in
        let kept = rate_limited-keeps w i in
        let written : World env = record limited {
          host = (env.host.create_object limited.host host).1;
        } in
        if-holds After (rate_limited env w).0 (record { kept = kept })
          (result-holds After (env.host.create_object limited.host host).0
            (λ failure. record { kept = keeps.create_host limited host kept })
            (λ o answer. record {
              kept =
                  converge_if-keeps (is_bidirectional direction) (target_of env host) virtual_obj o
                    written (keeps.create_host limited host kept);
            }))

    conflict-keeps :
        (existing comparable_host : Object) (w : World env)
        → I w
        → After (
            reconcile_bidirectional_conflict env policy ref
              (target_of env host)
              virtual_obj
              existing
              comparable_host
              host
              w)
    unfolding reconcile_bidirectional_conflict
    conflict-keeps existing comparable_host w i =
        let leave : After (ok (decide skip ref (target_of env host) reason_manual), w) = record {
          kept = i;
        } in
        let push = push-keeps existing true w i in
        let pull = λ (reason : Text). pull-keeps comparable_host reason true w i in
        if-holds After (policy == text "tenant-wins") push (
          if-holds After (policy == text "host-wins") (pull reason_host_wins) (
            option-holds After (last_converged env (k.get_name host) w) leave (λ last.
              let tenant_changed =
                not (k.get_resource_version virtual_obj == last.tenant_resource_version) in
              let host_changed =
                not (k.get_resource_version existing == last.host_resource_version) in
              if-holds After (tenant_changed && not host_changed) push (
                if-holds After (host_changed && not tenant_changed) (pull reason_host_changed)
                  leave))))

    direction-keeps :
        (x : Direction) (existing comparable_host : Object) (w : World env)
        → I w
        → After (elim x as (λ _. Step env) [
          | from_host ↦
              pull_to_tenant env ref
                (target_of env host)
                virtual_obj
                comparable_host
                reason_authoritative
                false
                w
          | _ ↦
              reconcile_bidirectional_conflict env policy ref
                (target_of env host)
                virtual_obj
                existing
                comparable_host
                host
                w
        ])
    direction-keeps from_host existing comparable_host w i =
        pull-keeps comparable_host reason_authoritative false w i
    direction-keeps to_host existing comparable_host w i =
        conflict-keeps existing comparable_host w i
    direction-keeps bidirectional existing comparable_host w i =
        conflict-keeps existing comparable_host w i
    direction-keeps (other t) existing comparable_host w i =
        conflict-keeps existing comparable_host w i

    converge-keeps :
        (existing : Object) (w : World env)
        → I w
        → After (
            converge_existing env e direction policy ref
              (target_of env host)
              virtual_obj
              existing
              host
              w)
    unfolding converge_existing
    converge-keeps existing w i =
        if-holds After (content_equal virtual_obj (comparable env e ref existing))
          (record {
            kept =
                converge_if-keeps (is_bidirectional direction) (target_of env host) virtual_obj
                  existing w i;
          })
          (direction-keeps direction existing (comparable env e ref existing) w i)

    existing-keeps :
        (existing : Object) (w : World env)
        → I w
        → After (
            reconcile_existing env e direction policy ref
              (target_of env host)
              virtual_obj
              existing
              host
              w)
    unfolding reconcile_existing
    existing-keeps existing w i =
        let occupied : After (ok (decide skip ref (target_of env host) reason_occupied), w) =
          record { kept = i } in
        option-holds After (reverse_lookup (some existing)) occupied (λ existing_ref.
          let collides : After
              (ok (decide skip ref (target_of env host) (reason_collides existing_ref)), w) =
            record { kept = i } in
          if-holds After (not (same_source existing_ref ref)) collides (
            if-holds After (is_to_host direction) (push-keeps existing false w i)
              (converge-keeps existing w i)))

    pair-After :
        (w : World env) → I w → After (reconcile_pair env e direction policy ref virtual_obj host w)
    unfolding reconcile_pair
    pair-After w i =
        result-holds After
          (env.host.get w.host (k.group_version_kind host) (k.get_namespace host) (k.get_name host))
          (λ failure.
            let leave : After (err failure, w) = record { kept = i } in
            if-holds After (is_not_found failure) (create-keeps w i) leave)
          (λ existing there. existing-keeps existing w i)

    pub pair-keeps :
        (w : World env) → I w → I (reconcile_pair env e direction policy ref virtual_obj host w).1
    pair-keeps w i = (pair-After w i).kept

-- No step of a pair gives the recorder anything.
recorded-StepsKeep :
    (env : Clients) (before : List Decision) → StepsKeep env (λ w. w.recorded ≡ before)
recorded-StepsKeep env before = record {
  limiter = λ w l same. same;
  history = λ w h same. same;
  create_host = λ w o same. same;
  update_host = λ w o same. same;
  update_tenant = λ w o same. same;
}

pub pair-recorded :
    (env : Clients) ⦃k : Unstructured⦄ (e : Engine) (direction : Direction) (policy : Text)
    (ref : ResourceRef) (virtual_obj host : Object) (w : World env)
    → (reconcile_pair env e direction policy ref virtual_obj host w).1.recorded ≡ w.recorded
pair-recorded env e direction policy ref virtual_obj host w =
    pair-keeps env (λ v. v.recorded ≡ w.recorded) (recorded-StepsKeep env w.recorded) e direction
      policy ref virtual_obj host w refl
