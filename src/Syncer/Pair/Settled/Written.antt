-- ===== src/Syncer/Pair/Settled/Written.antt =====
-- What a write of a bidirectional pair leaves, in internal/syncer/engine.go: a pair that is at rest.
use tenantplane.Base.{ℕ, ◌≡◌, sym, ◌∙◌, true, bytes_eq, string_eq, Bool-cases, inl, inr}
use Prim.Derive.{subst}
use tenantplane.Base.Cases.{if-holds}
use tenantplane.Base.Text.{Text}
use tenantplane.Base.Result.{is_not_found, Result-cases}
use tenantplane.Object.{Object, Unstructured}
use tenantplane.Object.Laws.{IsUnstructured}
use tenantplane.Object.Frame.{IsFramed, standing}
use tenantplane.Syncplan.Plan.{ResourceRef}
use tenantplane.Syncer.{bidirectional, Clients, Engine, World}
use tenantplane.Syncer.Pair.{reconcile_pair}
use tenantplane.Syncer.Pair.Conflict.{IsManual}
use tenantplane.Syncer.Pair.Safety.{
  is_ours, found, pair-found, pair-failed, existing-ours, reconcile_pair-foreign,
}
use tenantplane.Syncer.Pair.Settled.{later, later-rests, Settled-moved}
use tenantplane.Syncer.Pair.Settled.Server.{ReadsBack}
use tenantplane.Syncer.Pair.Settled.Steps.{
  Writes, Now, LeavesSettled, create-settles, converge-settles,
}

module _ (env : Clients) ⦃k : Unstructured⦄ (laws : IsUnstructured k) (framed : IsFramed k)
    (server : ReadsBack env.host k) (ref : ResourceRef) (before host : Object)
    (mine : is_ours host ref ≡ true) where
  -- Of a bidirectional pair.
  pub pair-settles :
      (e : Engine) (policy : Text) (w : World env)
      → LeavesSettled env ref before host w
          (reconcile_pair env e bidirectional policy ref before host w)
  pair-settles e policy w =
      let P = LeavesSettled env ref before host w in
      elim (Result-cases (found env e policy ref before host w)) [
        | inr (failure, missing) ↦
            subst P (sym (pair-failed env e policy ref before host w bidirectional failure missing))
              (if-holds P (is_not_found failure)
                (create-settles env laws framed server ref before host mine w)
                (λ wrote. absurd wrote))
        | inl (existing, there) ↦ elim (Bool-cases (is_ours existing ref)) [
          | inl ours ↦
              subst P
                (sym (
                  pair-found env e policy ref before host w bidirectional existing there
                  ∙ existing-ours env e policy ref before host w bidirectional existing ours))
                (converge-settles env laws framed server ref before host mine e policy existing w
                  there ours)
          | inr foreign ↦
              let (d, same, skips) =
                reconcile_pair-foreign env e policy ref before host w bidirectional existing there
                  foreign in
              subst P (sym same) (λ wrote. absurd (wrote skips))
        ]
      ]

  -- Take a client of the host that reads back its writes and keeps labels, and a policy for neither
  -- side. When a bidirectional pass of a pair, whose desired object is recognised as its own, has
  -- written one of the sides, then no number of later passes writes either, with the tenant's
  -- object as it is then and any desired object at the same place: the pair has come to rest.
  pub reconcile_pair-settles :
      (e : Engine) (policy : Text) (w : World env) (desired : Object) (n : ℕ)
      → IsManual policy
      → standing k desired ≡ standing k host
      → Writes (reconcile_pair env e bidirectional policy ref before host w).0
      → let after = (reconcile_pair env e bidirectional policy ref before host w).1 in
        (now : Object) × Now env before w after now
        × ((later env e policy ref now desired n after).host ≡ after.host)
        × ((later env e policy ref now desired n after).tenant ≡ after.tenant)
  reconcile_pair-settles e policy w desired n manual place wrote =
      let (now, how, settled) = pair-settles e policy w wrote in
      let (host_kept, tenant_kept) =
        later-rests env e policy manual ref now desired n
          (reconcile_pair env e bidirectional policy ref before host w).1
          (Settled-moved env ref now host desired _ place settled) in
      (now, how, host_kept, tenant_kept)
