-- ===== src/Controller/Reconcile/Deletion.antt =====
-- The deletion of a TenantCluster: when its finalizer goes.
pub mod Ends
use tenantplane.Base.{◌≡◌, true, false, not, inl, inr, arith}
use tenantplane.Base.Go.{Unicode}
use tenantplane.Base.Result.{ok, err, Result-cases}
use tenantplane.Base.Action.{next, call, attempt, ◌>>=◌, pure, return}
use tenantplane.Base.Action.Triple.{
  Triple, Anything, Keeps, pure-Triple, return-Triple, bind_any-Triple, if-Triple, result-Triple,
  call-Keeps, attempt-Triple,
}
use tenantplane.Api.{TenantCluster}
use tenantplane.Isolation.{Quantities}
use tenantplane.Controller.Namespace.{
  Namespace, owned_by_tenant, control_plane_namespace, teardown, delete_runtime_class_binding,
  delete_control_plane_namespace, runtime_class_binding_name,
}
use tenantplane.Controller.Namespace.Laws.{teardown-released}
use tenantplane.Controller.Cadence.{requeue_waiting}
use tenantplane.Controller.Apis.{Apis}
use tenantplane.Controller.Reconcile.{reconcile_deleted}
use tenantplane.Controller.Reconcile.Returns.{teardown_finalizer, or_fail}
use tenantplane.Controller.Reconcile.Frames.{WritesKeep}

module _ (q : Quantities) (apis : Apis q) ⦃u : Unicode⦄ {I : apis.host.State → Type 0}
    (keeps : WritesKeep q apis I) where
  delete_runtime_class_binding_lem :
      (tc : TenantCluster) (s : apis.host.State)
      → I s
      → I (delete_runtime_class_binding apis.host tc s).1
  unfolding delete_runtime_class_binding
  delete_runtime_class_binding_lem tc s i =
      ground (arith, keeps.delete_binding s (runtime_class_binding_name tc) i)

  delete_control_plane_namespace_lem :
      (tc : TenantCluster) (s : apis.host.State)
      → I s
      → I (delete_control_plane_namespace apis.host tc s).1
  unfolding delete_control_plane_namespace
  delete_control_plane_namespace_lem tc s i =
      elim (Result-cases (apis.host.get_namespace s (control_plane_namespace tc))) [
        | inl (ns, there) ↦ ground (arith, keeps.delete_namespace s ns i)
        | inr (failure, missing) ↦ ground arith
      ]

  teardown-Keeps : (tc : TenantCluster) → Keeps I (call (λ s. teardown apis.host tc s))
  unfolding teardown
  teardown-Keeps tc = call-Keeps _ λ s i.
      let unbound = delete_runtime_class_binding_lem tc s i in
      ground (
        arith,
        unbound,
        delete_control_plane_namespace_lem tc (delete_runtime_class_binding apis.host tc s).1
            unbound,
      )

  pub reconcile_deleted-Triple :
      (tc : TenantCluster) → Triple I Anything Anything (reconcile_deleted q apis tc)
  unfolding reconcile_deleted or_fail
  reconcile_deleted-Triple tc =
      if-Triple (not (apis.contains_finalizer tc teardown_finalizer)) (pure-Triple (ok 0) tt) (
        bind_any-Triple
          (bind_any-Triple (attempt-Triple _ (teardown-Keeps tc)) λ result.
            result-Triple result (λ done. pure-Triple done tt) (λ e. return-Triple (err e) tt))
          λ done. if-Triple (not done) (pure-Triple (ok requeue_waiting) tt) (
            bind_any-Triple
              (bind_any-Triple (attempt-Triple _ (call-Keeps _ (λ s. keeps.tenants.update s _)))
                λ result.
                  result-Triple result (λ done. pure-Triple done tt)
                    (λ e. return-Triple (err e) tt))
              λ updated. pure-Triple (ok 0) tt))

module _ (q : Quantities) (apis : Apis q) ⦃u : Unicode⦄ (tc : TenantCluster) (s : apis.host.State)
    (guarded : apis.contains_finalizer tc teardown_finalizer ≡ true) where
  -- Until the teardown says that it is done, a tenant with the finalizer keeps it: the call ends
  -- with the teardown, and comes back after five seconds.
  pub reconcile_deleted-waits :
      (teardown apis.host tc s).0 ≡ ok false
      → reconcile_deleted q apis tc s ≡ (next (ok requeue_waiting), (teardown apis.host tc s).1)
  unfolding reconcile_deleted or_fail attempt call ◌>>=◌ pure return
  reconcile_deleted-waits waits = ground arith

  -- A call that ends without a requeue has found no namespace of the tenant at the control plane's
  -- name after its teardown.
  pub reconcile_deleted-released :
      (ns : Namespace)
      → (reconcile_deleted q apis tc s).0 ≡ next (ok 0)
      → apis.host.get_namespace (teardown apis.host tc s).1 (control_plane_namespace tc) ≡ ok ns
      → owned_by_tenant ns tc ≡ false
  unfolding reconcile_deleted or_fail attempt call ◌>>=◌ pure return
  reconcile_deleted-released ns ended there =
      teardown-released apis.host tc s ns (ground arith) there
