-- ===== src/Syncer/Pair.antt =====
-- `reconcilePair` of internal/syncer/engine.go and what it calls: one virtual object and its host
-- object are made to agree.
pub mod Safety
pub mod Conflict
pub mod Limits
pub mod Frame
pub mod Renamed
pub mod Settled
use tenantplane.Base.{
  Bool, true, false, not, ◌&&◌, Option, none, some, [], ◌∷◌, ◌++◌, ◌==◌, bytes_eq, if◌then◌else◌,
  lookup, insert,
}
use tenantplane.Base.Text.{Text, text, is_empty}
use tenantplane.Base.Result.{Result, ok, err, Error, is_not_found}
use tenantplane.Object.{Object, Unstructured}
use tenantplane.Syncplan.Plan.{ResourceRef, HostTarget}
use tenantplane.Syncplan.Transform.Build.{reverse_lookup}
use tenantplane.Syncplan.Transform.Adopt.{adopt_host_allocated_fields}
use tenantplane.Syncplan.Transform.Content.{content_equal, merge_host_content_into_tenant}
use tenantplane.Syncer.{
  Direction, to_host, from_host, bidirectional, Action, create, update, skip, Decision,
  ConvergedVersions, ConvergenceHistory, Clients, Engine, World,
}

abbrev pub is_bidirectional : Direction → Bool
is_bidirectional bidirectional = true
is_bidirectional _ = false

abbrev pub is_to_host : Direction → Bool
is_to_host to_host = true
is_to_host _ = false

abbrev pub decide : Action → ResourceRef → HostTarget → Text → Decision
decide action ref target reason = record {
  action = action;
  kind = ref.kind;
  ref = ref;
  host = target;
  reason = reason;
}

unfoldable pub same_source : ResourceRef → ResourceRef → Bool
same_source a b =
    a.tenant_cluster == b.tenant_cluster
    && a.virtual_namespace == b.virtual_namespace
    && a.name == b.name

-- The reasons that decisions give.
abbrev pub reason_limited : Text
reason_limited = text "apiFairness rate limit reached for this tenant; retrying next sync pass"

abbrev pub reason_created : Text
reason_created = text "virtual object has no host counterpart yet"

abbrev pub reason_pushed : Text
reason_pushed = text "reconciled host object to match virtual source"

abbrev pub reason_occupied : Text
reason_occupied = text "host name is already occupied by an object tenantplane does not manage"

abbrev pub reason_collides : ResourceRef → Text
reason_collides existing =
    text "host name collides with a different tenant object ("
    ++ existing.virtual_namespace
    ++ text "/"
    ++ existing.name
    ++ text ")"

abbrev pub reason_agree : Text
reason_agree = text "tenant and host already agree"

abbrev pub reason_authoritative : Text
reason_authoritative = text "host is authoritative for this direction"

abbrev pub reason_host_wins : Text
reason_host_wins = text "conflictPolicy \"host-wins\": pulled the host's state into the tenant"

abbrev pub reason_host_changed : Text
reason_host_changed =
    text
      "only the host changed since tenant and host last agreed; conflictPolicy \"manual\" only holds back a genuine two-sided conflict"

abbrev pub reason_manual : Text
reason_manual =
    text
      "tenant and host disagree; conflictPolicy is \"manual\" (or unset) so neither side was changed"

module _ (env : Clients) where
  abbrev pub Step : Type 0
  Step = Result Decision × World env

  unfoldable pub set_converged : Text → Text → Text → World env → World env
  set_converged host_name tenant_rv host_rv w =
      let versions : ConvergedVersions = record {
        tenant_resource_version = tenant_rv;
        host_resource_version = host_rv;
      } in
      let history : ConvergenceHistory = elim w.history [ none ↦ [] | some h ↦ h ] in
      record w { history = some (insert host_name versions history) }

  -- Whether the write is refused, and the limiter after the question.
  unfoldable pub rate_limited : World env → Bool × World env
  rate_limited w = elim w.limiter [
    | none ↦ (false, w)
    | some l ↦
        let (allowed, l') = env.limiter.allow l in (not allowed, record w { limiter = some l' })
  ]

  module _ ⦃k : Unstructured⦄ where
    abbrev converge_if : Bool → HostTarget → Object → Object → World env → World env
    converge_if track target tenant_obj host_obj w =
        if track
        then set_converged target.name (k.get_resource_version tenant_obj)
            (k.get_resource_version host_obj) w
        else w

    -- The object that `pushToHost` writes.
    unfoldable pub pushed : Object → Object → Object
    pushed existing_host host =
        adopt_host_allocated_fields existing_host
          (k.set_resource_version host (k.get_resource_version existing_host))

    unfoldable pub push_to_host :
        ResourceRef → HostTarget → Object → Object → Object → Bool → World env → Step
    unfolding rate_limited pushed set_converged
    push_to_host ref target virtual_obj existing_host host track_history w =
        let (limited, w) = rate_limited w in
        if limited
        then (ok (decide skip ref target reason_limited), w)
        else (let (written, h) = env.host.update_object w.host (pushed existing_host host) in
            let w : World env = record w { host = h } in
            elim written [
              | err e ↦ (err e, w)
              | ok host ↦ (
                ok (decide update ref target reason_pushed),
                converge_if track_history target virtual_obj host w,
              )
            ])

    unfoldable pub pull_to_tenant :
        ResourceRef → HostTarget → Object → Object → Text → Bool → World env → Step
    unfolding rate_limited set_converged
    pull_to_tenant ref target virtual_obj existing_host reason track_history w =
        let (limited, w) = rate_limited w in
        if limited
        then (ok (decide skip ref target reason_limited), w)
        else (let (written, t) =
              env.tenant.update_object w.tenant
                (merge_host_content_into_tenant existing_host virtual_obj) in
            let w : World env = record w { tenant = t } in
            elim written [
              | err e ↦ (err e, w)
              | ok merged ↦ (
                ok (decide update ref target reason),
                converge_if track_history target merged existing_host w,
              )
            ])

    -- e.History[target.Name]; a nil map has no entries.
    unfoldable pub last_converged : Text → World env → Option ConvergedVersions
    last_converged name w = elim w.history [ none ↦ none | some h ↦ lookup name h ]

    unfoldable pub reconcile_bidirectional_conflict :
        Text → ResourceRef → HostTarget → Object → Object → Object → Object → World env → Step
    unfolding last_converged
    reconcile_bidirectional_conflict policy ref target virtual_obj existing comparable_host host w =
        let push = push_to_host ref target virtual_obj existing host true w in
        let pull =
          λ (reason : Text). pull_to_tenant ref target virtual_obj comparable_host reason true w in
        let leave : Step = (ok (decide skip ref target reason_manual), w) in
        if policy == text "tenant-wins"
        then push
        else if policy == text "host-wins"
        then pull reason_host_wins
        else elim (last_converged target.name w) [
          | none ↦ leave
          | some last ↦
              let tenant_changed =
                not (k.get_resource_version virtual_obj == last.tenant_resource_version) in
              let host_changed =
                not (k.get_resource_version existing == last.host_resource_version) in
              if tenant_changed && not host_changed
              then push
              else if host_changed && not tenant_changed
              then pull reason_host_changed
              else leave
        ]

    -- The host object without the runtime class that the engine has put in.
    unfoldable pub comparable : Engine → ResourceRef → Object → Object
    comparable e ref existing =
        if ref.kind == text "Pod" && not (is_empty e.required_runtime_class_name)
        then k.remove_nested_field existing ("spec" ∷ "runtimeClassName" ∷ [])
        else existing

    -- Both objects exist, the host object is ours, and the direction is not toHost.
    unfoldable pub converge_existing :
        Engine
        → Direction
        → Text
        → ResourceRef
        → HostTarget
        → Object
        → Object
        → Object
        → World env
        → Step
    unfolding comparable
    converge_existing e direction policy ref target virtual_obj existing host w =
        let comparable_host = comparable e ref existing in
        if content_equal virtual_obj comparable_host
        then (
          ok (decide skip ref target reason_agree),
          converge_if (is_bidirectional direction) target virtual_obj existing w,
        )
        else elim direction [
          | from_host ↦
              pull_to_tenant ref target virtual_obj comparable_host reason_authoritative false w
          | _ ↦
              reconcile_bidirectional_conflict policy ref target virtual_obj existing
                comparable_host host w
        ]

    -- The host object is not there yet.
    unfoldable pub create_missing :
        Direction → ResourceRef → HostTarget → Object → Object → World env → Step
    unfolding rate_limited set_converged
    create_missing direction ref target virtual_obj host w =
        let (limited, w) = rate_limited w in
        if limited
        then (ok (decide skip ref target reason_limited), w)
        else (let (written, h) = env.host.create_object w.host host in
            let w : World env = record w { host = h } in
            elim written [
              | err e ↦ (err e, w)
              | ok host ↦ (
                ok (decide create ref target reason_created),
                converge_if (is_bidirectional direction) target virtual_obj host w,
              )
            ])

    -- The host name is taken by `existing`.
    unfoldable pub reconcile_existing :
        Engine
        → Direction
        → Text
        → ResourceRef
        → HostTarget
        → Object
        → Object
        → Object
        → World env
        → Step
    reconcile_existing e direction policy ref target virtual_obj existing host w =
        elim (reverse_lookup (some existing)) [
          | none ↦ (ok (decide skip ref target reason_occupied), w)
          | some existing_ref ↦
              if not (same_source existing_ref ref)
              then (ok (decide skip ref target (reason_collides existing_ref)), w)
              else if is_to_host direction
              then push_to_host ref target virtual_obj existing host false w
              else converge_existing e direction policy ref target virtual_obj existing host w
        ]

    abbrev pub target_of : Object → HostTarget
    target_of host = record { namespace = k.get_namespace host; name = k.get_name host }

    unfoldable pub reconcile_pair :
        Engine → Direction → Text → ResourceRef → Object → Object → World env → Step
    reconcile_pair e direction policy ref virtual_obj host w =
        let target = target_of host in
        elim (env.host.get w.host (k.group_version_kind host) target.namespace target.name) [
          | ok existing ↦
              reconcile_existing e direction policy ref target virtual_obj existing host w
          | err failure ↦
              if is_not_found failure
              then create_missing direction ref target virtual_obj host w
              else (err failure, w)
        ]
