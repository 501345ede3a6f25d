-- ===== src/Syncer/Pair/Safety.antt =====
-- What one reconciled pair can change, in `reconcilePair` of internal/syncer/engine.go.
use tenantplane.Base.{
  ◌≡◌, refl, sym, ◌∙◌, Bool, true, false, Option, none, some, bytes_eq, if◌then◌else◌, arith,
  Option-cases, inl, inr,
}
use tenantplane.Base.Text.{Text}
use tenantplane.Base.Result.{Result, ok, err, Error, is_not_found, Result-cases}
use tenantplane.Object.{Object, Unstructured}
use tenantplane.Syncplan.Plan.{ResourceRef, HostTarget}
use tenantplane.Syncplan.Transform.Build.{reverse_lookup}
use tenantplane.Syncer.{Direction, to_host, from_host, skip, Decision, Clients, Engine, World}
use tenantplane.Syncer.Pair.{
  same_source, push_to_host, pull_to_tenant, converge_existing, create_missing, reconcile_existing,
  reconcile_pair, target_of, comparable, reason_authoritative, decide, reason_occupied,
  reason_collides, is_to_host,
}

-- Whether the object on the host was made for this tenant object.
abbrev pub is_source_of : ResourceRef → Option ResourceRef → Bool
is_source_of ref none = false
is_source_of ref (some existing_ref) = same_source existing_ref ref

module _ ⦃k : Unstructured⦄ where
  abbrev pub is_ours : Object → ResourceRef → Bool
  is_ours existing ref = is_source_of ref (reverse_lookup (some existing))

module _ (env : Clients) ⦃k : Unstructured⦄ (e : Engine) (policy : Text) (ref : ResourceRef)
    (virtual_obj host : Object) (w : World env) where
  -- What the host has at the place of the desired object.
  abbrev pub found : Result Object
  found = env.host.get w.host (k.group_version_kind host) (k.get_namespace host) (k.get_name host)

  pub pair-found :
      (direction : Direction) (existing : Object)
      → found ≡ ok existing
      → reconcile_pair env e direction policy ref virtual_obj host w
        ≡ reconcile_existing env e direction policy ref
            (target_of env host)
            virtual_obj
            existing
            host
            w
  unfolding reconcile_pair
  pair-found direction existing there = ground arith

  pub pair-failed :
      (direction : Direction) (failure : Error)
      → found ≡ err failure
      → reconcile_pair env e direction policy ref virtual_obj host w ≡ (
          if is_not_found failure
          then create_missing env direction ref (target_of env host) virtual_obj host w
          else (err failure, w))
  unfolding reconcile_pair
  pair-failed direction failure there = ground arith

  pub existing-unmanaged :
      (direction : Direction) (existing : Object)
      → reverse_lookup (some existing) ≡ none
      → reconcile_existing env e direction policy ref
          (target_of env host)
          virtual_obj
          existing
          host
          w
        ≡ (ok (decide skip ref (target_of env host) reason_occupied), w)
  unfolding reconcile_existing
  existing-unmanaged direction existing h = ground arith

  pub existing-collides :
      (direction : Direction) (existing : Object) (r : ResourceRef)
      → reverse_lookup (some existing) ≡ some r
      → same_source r ref ≡ false
      → reconcile_existing env e direction policy ref
          (target_of env host)
          virtual_obj
          existing
          host
          w
        ≡ (ok (decide skip ref (target_of env host) (reason_collides r)), w)
  unfolding reconcile_existing
  existing-collides direction existing r h differ = ground arith

  pub existing-ours :
      (direction : Direction) (existing : Object)
      → is_ours existing ref ≡ true
      → reconcile_existing env e direction policy ref
          (target_of env host)
          virtual_obj
          existing
          host
          w
        ≡ (if is_to_host direction
            then push_to_host env ref (target_of env host) virtual_obj existing host false w
            else converge_existing env e direction policy ref
                (target_of env host)
                virtual_obj
                existing
                host
                w)
  unfolding reconcile_existing
  existing-ours direction existing ours = ground arith

  -- An object at the host name that was not made for this tenant object is left alone, in every
  -- direction: the decision is to skip, and nothing changes.
  pub reconcile_pair-foreign :
      (direction : Direction) (existing : Object)
      → found ≡ ok existing
      → is_ours existing ref ≡ false
      → (d : Decision) × (reconcile_pair env e direction policy ref virtual_obj host w ≡ (ok d, w))
        × (d.action ≡ skip)
  reconcile_pair-foreign direction existing there foreign =
      elim (Option-cases (reverse_lookup (some existing))) [
        | inl unmanaged ↦ (
          decide skip ref (target_of env host) reason_occupied,
          pair-found direction existing there ∙ existing-unmanaged direction existing unmanaged,
          refl,
        )
        | inr (r, managed) ↦ (
          decide skip ref (target_of env host) (reason_collides r),
          pair-found direction existing there
              ∙ existing-collides direction existing r managed (sym (rw managed) ∙ foreign),
          refl,
        )
      ]

  push-tenant :
      (target : HostTarget) (existing : Object) (track : Bool)
      → (push_to_host env ref target virtual_obj existing host track w).1.tenant ≡ w.tenant
  unfolding push_to_host
  push-tenant target existing track = ground arith

  create-tenant :
      (direction : Direction) (target : HostTarget)
      → (create_missing env direction ref target virtual_obj host w).1.tenant ≡ w.tenant
  unfolding create_missing
  create-tenant direction target = ground arith

  pull-host :
      (target : HostTarget) (existing : Object) (reason : Text) (track : Bool)
      → (pull_to_tenant env ref target virtual_obj existing reason track w).1.host ≡ w.host
  unfolding pull_to_tenant
  pull-host target existing reason track = ground arith

  existing-tenant :
      (existing : Object)
      → (reconcile_existing env e to_host policy ref
          (target_of env host)
          virtual_obj
          existing
          host
          w).1.tenant
        ≡ w.tenant
  unfolding reconcile_existing
  existing-tenant existing = ground (arith, push-tenant (target_of env host) existing false)

  -- Towards the host, the tenant's cluster is never written.
  pub reconcile_pair-to_host :
      (reconcile_pair env e to_host policy ref virtual_obj host w).1.tenant ≡ w.tenant
  reconcile_pair-to_host = elim (Result-cases found) [
    | inl (existing, there) ↦ rw (pair-found to_host existing there) (existing-tenant existing)
    | inr (failure, missing) ↦
        rw (pair-failed to_host failure missing)
          (ground (arith, create-tenant to_host (target_of env host)))
  ]

  existing-host :
      (existing : Object)
      → (reconcile_existing env e from_host policy ref
          (target_of env host)
          virtual_obj
          existing
          host
          w).1.host
        ≡ w.host
  unfolding reconcile_existing converge_existing
  existing-host existing = ground (
    arith,
    pull-host (target_of env host) (comparable env e ref existing) reason_authoritative false,
  )

  -- From the host, an object that is there is never written.
  pub reconcile_pair-from_host :
      (existing : Object)
      → found ≡ ok existing
      → (reconcile_pair env e from_host policy ref virtual_obj host w).1.host ≡ w.host
  reconcile_pair-from_host existing there =
      rw (pair-found from_host existing there) (existing-host existing)
