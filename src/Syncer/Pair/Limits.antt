-- ===== src/Syncer/Pair/Limits.antt =====
-- An exhausted limiter: a pair is put off, and neither cluster is written.
use tenantplane.Base.{◌≡◌, ap, Bool, true, false, some, bytes_eq, arith, inl, inr}
use tenantplane.Base.Text.{Text}
use tenantplane.Base.Result.{ok, Result-cases}
use tenantplane.Object.{Object, Unstructured}
use tenantplane.Syncplan.Plan.{ResourceRef, HostTarget}
use tenantplane.Syncer.{Direction, skip, Clients, Engine, World}
use tenantplane.Syncer.Pair.{
  rate_limited, set_converged, push_to_host, pull_to_tenant, converge_existing, create_missing,
  reconcile_existing, reconcile_bidirectional_conflict, reconcile_pair, target_of, Step, comparable,
  decide, reason_limited, reason_host_wins, reason_host_changed, reason_authoritative,
}
use tenantplane.Syncer.Pair.Safety.{found, pair-found, pair-failed}

-- The limiter has no token, and asking it gives it none.
abbrev pub IsExhausted : (env : Clients) → World env → Type 0
IsExhausted env w =
    (l : env.limiter.State) × (w.limiter ≡ some l) × (env.limiter.allow l ≡ (false, l))

-- Both clusters and the limiter are as they were.
pub record IsUntouched (env : Clients) (w w' : World env) : Type 0 where
  pub host : w'.host ≡ w.host
  pub tenant : w'.tenant ≡ w.tenant
  pub limiter : w'.limiter ≡ w.limiter

pub limited : (env : Clients) (w : World env) → IsExhausted env w → rate_limited env w ≡ (true, w)
unfolding rate_limited
limited env w (l, there, refused) = ground arith

module _ (env : Clients) ⦃k : Unstructured⦄ (ref : ResourceRef) (target : HostTarget)
    (virtual_obj : Object) (w : World env) (out : IsExhausted env w) where
  push-limited :
      (existing host : Object) (track : Bool)
      → push_to_host env ref target virtual_obj existing host track w
        ≡ (ok (decide skip ref target reason_limited), w)
  unfolding push_to_host
  push-limited existing host track = ground (arith, limited env w out)

  pull-limited :
      (existing : Object) (reason : Text) (track : Bool)
      → pull_to_tenant env ref target virtual_obj existing reason track w
        ≡ (ok (decide skip ref target reason_limited), w)
  unfolding pull_to_tenant
  pull-limited existing reason track = ground (arith, limited env w out)

  create-limited :
      (direction : Direction) (host : Object)
      → create_missing env direction ref target virtual_obj host w
        ≡ (ok (decide skip ref target reason_limited), w)
  unfolding create_missing
  create-limited direction host = ground (arith, limited env w out)

  IsUntouched-set_converged :
      (name tenant_rv host_rv : Text)
      → IsUntouched env w (set_converged env name tenant_rv host_rv w)
  unfolding set_converged
  IsUntouched-set_converged name tenant_rv host_rv = ground arith

module _ (env : Clients) ⦃k : Unstructured⦄ (e : Engine) (direction : Direction) (policy : Text)
    (ref : ResourceRef) (virtual_obj host : Object) (w : World env) (out : IsExhausted env w) where
  unchanged_step : (s : Step env) → s.1 ≡ w → IsUntouched env w s.1
  unchanged_step s same = record {
    host = ap (λ w. w.host) same;
    tenant = ap (λ w. w.tenant) same;
    limiter = ap (λ w. w.limiter) same;
  }

  conflict-limited :
      (existing comparable_host : Object)
      → (reconcile_bidirectional_conflict env policy ref
          (target_of env host)
          virtual_obj
          existing
          comparable_host
          host
          w).1
        ≡ w
  unfolding reconcile_bidirectional_conflict
  conflict-limited existing comparable_host = ground (
    arith,
    push-limited env ref (target_of env host) virtual_obj w out existing host true,
    pull-limited env ref (target_of env host) virtual_obj w out comparable_host reason_host_wins
        true,
    pull-limited env ref (target_of env host) virtual_obj w out comparable_host reason_host_changed
        true,
  )

  converge-limited :
      (existing : Object)
      → IsUntouched env w
          (converge_existing env e direction policy ref
            (target_of env host)
            virtual_obj
            existing
            host
            w).1
  unfolding converge_existing
  converge-limited existing = ground (
    arith,
    unchanged_step
        (reconcile_bidirectional_conflict env policy ref (target_of env host) virtual_obj existing
          (comparable env e ref existing) host w)
        (conflict-limited existing (comparable env e ref existing)),
    pull-limited env ref (target_of env host) virtual_obj w out (comparable env e ref existing)
        reason_authoritative false,
    IsUntouched-set_converged env ref (target_of env host) virtual_obj w out (k.get_name host)
        (k.get_resource_version virtual_obj) (k.get_resource_version existing),
  )

  existing-limited :
      (existing : Object)
      → IsUntouched env w
          (reconcile_existing env e direction policy ref
            (target_of env host)
            virtual_obj
            existing
            host
            w).1
  unfolding reconcile_existing
  existing-limited existing = ground (
    arith,
    converge-limited existing,
    push-limited env ref (target_of env host) virtual_obj w out existing host false,
  )

  -- When the limiter has no token, a pair writes to neither cluster, in every direction and under
  -- every policy.
  pub reconcile_pair-limited :
      IsUntouched env w (reconcile_pair env e direction policy ref virtual_obj host w).1
  reconcile_pair-limited = elim (Result-cases (found env e policy ref virtual_obj host w)) [
    | inl (existing, there) ↦
        rw (pair-found env e policy ref virtual_obj host w direction existing there)
          (existing-limited existing)
    | inr (failure, missing) ↦
        rw (pair-failed env e policy ref virtual_obj host w direction failure missing) (
          ground
            (arith, create-limited env ref (target_of env host) virtual_obj w out direction host))
  ]
