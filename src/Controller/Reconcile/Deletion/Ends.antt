-- ===== src/Controller/Reconcile/Deletion/Ends.antt =====
-- The deletion of a TenantCluster in internal/controller/tenantcluster_controller.go comes to its end
-- when the cluster does what it is asked: call after call, with the cluster's own work in between.
use tenantplane.Base.{
  ℕ, zero, suc, ◌<◌, ◌≡◌, sym, ap, ◌∙◌, Bool, true, false, ◌||◌, Option, none, some, Bool-cases,
  ◌⊎◌, inl, inr, arith,
}
use Prim.Derive.{subst}
use tenantplane.Base.Go.{Unicode}
use tenantplane.Base.Result.{Result, ok, err, Error, is_not_found, Result-cases}
use tenantplane.Base.Action.{next, call, attempt, ◌>>=◌, pure, return}
use tenantplane.Base.Text.{Text}
use tenantplane.Api.{TenantCluster}
use tenantplane.Isolation.{Quantities}
use tenantplane.Controller.Namespace.{
  Namespace, owned_by_tenant, admission_hardening_unsupported, control_plane_namespace, teardown,
  delete_runtime_class_binding, runtime_class_binding_name,
}
use tenantplane.Controller.Namespace.Laws.{teardown-foreign}
use tenantplane.Controller.Apis.{Apis}
use tenantplane.Controller.Reconcile.{reconcile_deleted}
use tenantplane.Controller.Reconcile.Returns.{teardown_finalizer, or_fail}
use tenantplane.Controller.Reconcile.Deletion.{reconcile_deleted-waits}

-- An answer to a deletion after which the object is gone, or its kind is not there at all.
abbrev pub is_gone : Option Error → Bool
is_gone none = true
is_gone (some e) = is_not_found e

abbrev pub is_unbound : Option Error → Bool
is_unbound none = true
is_unbound (some e) = is_not_found e || admission_hardening_unsupported e

-- A cluster that deletes what it is asked to delete, and says so or that it was gone already. `wait` is what it does between two calls; a namespace that is
-- being deleted goes away within finitely many such turns, which `turns` counts.
pub record Obliges (q : Quantities) (apis : Apis q) ⦃u : Unicode⦄ (tc : TenantCluster)
    (wait : apis.host.State → apis.host.State) (turns : apis.host.State → ℕ) : Type 0 where
  pub unbinds :
      (s : apis.host.State) (name : Text) → is_unbound (apis.host.delete_binding s name).0 ≡ true
  pub unbinds_only :
      (s : apis.host.State) (name : Text) → turns (apis.host.delete_binding s name).1 ≡ turns s
  pub missing :
      (s : apis.host.State) (e : Error)
      → apis.host.get_namespace s (control_plane_namespace tc) ≡ err e
      → is_not_found e ≡ true
  pub deletes :
      (s : apis.host.State) (ns : Namespace)
      → apis.host.get_namespace s (control_plane_namespace tc) ≡ ok ns
      → ns.deleting ≡ false
      → (is_gone (apis.host.delete_namespace s ns).0 ≡ true)
        × (turns (wait (apis.host.delete_namespace s ns).1) < turns s)
  pub proceeds :
      (s : apis.host.State) (ns : Namespace)
      → apis.host.get_namespace s (control_plane_namespace tc) ≡ ok ns
      → ns.deleting ≡ true
      → turns (wait s) < turns s
  pub updates :
      (s : apis.host.State) (tenant : TenantCluster)
      → (updated : TenantCluster) × ((apis.tenants.update s tenant).0 ≡ ok updated)

module _ (q : Quantities) (apis : Apis q) ⦃u : Unicode⦄ (tc : TenantCluster)
    (wait : apis.host.State → apis.host.State) (turns : apis.host.State → ℕ) where
  abbrev unbound : apis.host.State → apis.host.State
  unbound s = (delete_runtime_class_binding apis.host tc s).1

  -- What there is at the control plane's name once the binding is deleted.
  abbrev standing_at : apis.host.State → Result Namespace
  standing_at s = apis.host.get_namespace (unbound s) (control_plane_namespace tc)

  -- The state before the call after n calls and turns.
  pub later : ℕ → apis.host.State → apis.host.State
  later zero s = s
  later (suc n) s = later n (wait (reconcile_deleted q apis tc s).1)

  -- The call of this state writes the tenant without its finalizer, and ends.
  abbrev pub Ends : apis.host.State → Type 0
  Ends s =
      (t : apis.host.State) × (reconcile_deleted q apis tc s
        ≡ (next (ok 0), (apis.tenants.update t (apis.remove_finalizer tc teardown_finalizer)).1))

  module _ (obliges : Obliges q apis tc wait turns)
      (guarded : apis.contains_finalizer tc teardown_finalizer ≡ true) (s : apis.host.State) where
    unbound_lem : (delete_runtime_class_binding apis.host tc s).0 ≡ none
    unfolding delete_runtime_class_binding
    unbound_lem = ground (arith, obliges.unbinds s (runtime_class_binding_name tc))

    turns-unbound : turns (unbound s) ≡ turns s
    unfolding delete_runtime_class_binding
    turns-unbound = ground (
      arith,
      obliges.unbinds s (runtime_class_binding_name tc),
      obliges.unbinds_only s (runtime_class_binding_name tc),
    )

    teardown-gone :
        (e : Error) → standing_at s ≡ err e → teardown apis.host tc s ≡ (ok true, unbound s)
    unfolding teardown
    teardown-gone e gone = ground (arith, unbound_lem, obliges.missing (unbound s) e gone)

    teardown-terminating :
        (ns : Namespace)
        → standing_at s ≡ ok ns
        → owned_by_tenant ns tc ≡ true
        → ns.deleting ≡ true
        → teardown apis.host tc s ≡ (ok false, unbound s)
    unfolding teardown
    teardown-terminating ns there owned deleting = ground (arith, unbound_lem)

    teardown-live :
        (ns : Namespace)
        → standing_at s ≡ ok ns
        → owned_by_tenant ns tc ≡ true
        → ns.deleting ≡ false
        → teardown apis.host tc s ≡ (ok false, (apis.host.delete_namespace (unbound s) ns).1)
    unfolding teardown
    teardown-live ns there owned live =
        ground (arith, unbound_lem, (obliges.deletes (unbound s) ns there live).0)

    released-Ends : (t : apis.host.State) → teardown apis.host tc s ≡ (ok true, t) → Ends s
    unfolding reconcile_deleted or_fail attempt call ◌>>=◌ pure return
    released-Ends t done =
        (t, ground (arith, (obliges.updates t (apis.remove_finalizer tc teardown_finalizer)).1))

    waits-shrinks :
        (t : apis.host.State)
        → teardown apis.host tc s ≡ (ok false, t)
        → turns (wait t) < turns s
        → turns (wait (reconcile_deleted q apis tc s).1) < turns s
    waits-shrinks t torn fewer =
        let waits = reconcile_deleted-waits q apis tc s guarded (ap (λ r. r.0) torn) in
        subst (λ t. turns (wait t) < turns s) (sym (ap (λ r. r.1) waits ∙ ap (λ r. r.1) torn)) fewer

    -- Either the call ends the deletion, or fewer turns are left before the next one.
    progress : Ends s ⊎ (turns (wait (reconcile_deleted q apis tc s).1) < turns s)
    progress = elim (Result-cases (standing_at s)) [
      | inr (e, gone) ↦ inl (released-Ends (unbound s) (teardown-gone e gone))
      | inl (ns, there) ↦ elim (Bool-cases (owned_by_tenant ns tc)) [
        | inr foreign ↦ inl (
            released-Ends (unbound s)
              (teardown-foreign apis.host tc s ns unbound_lem there foreign))
        | inl owned ↦ elim (Bool-cases ns.deleting) [
          | inl deleting ↦ inr (
              waits-shrinks (unbound s) (teardown-terminating ns there owned deleting) (
                subst (λ n. turns (wait (unbound s)) < n) turns-unbound
                  (obliges.proceeds (unbound s) ns there deleting)))
          | inr live ↦ inr (
              let deleted = (apis.host.delete_namespace (unbound s) ns).1 in
              waits-shrinks deleted (teardown-live ns there owned live) (
                subst (λ n. turns (wait deleted) < n) turns-unbound
                  (obliges.deletes (unbound s) ns there live).1))
        ]
      ]
    ]

  -- Take a cluster that deletes what it is asked to delete, or answers that it is not found, a
  -- namespace within finitely many turns, and accepts the update of the tenant. A tenant with the finalizer that is being deleted is
  -- released: within as many calls as there are turns left, and one more, a call writes it without
  -- the finalizer and ends.
  pub reconcile_deleted-Ends :
      (obliges : Obliges q apis tc wait turns) (n : ℕ) (s : apis.host.State)
      → apis.contains_finalizer tc teardown_finalizer ≡ true
      → turns s < n
      → (m : ℕ) × (m < n) × Ends (later m s)
  unfolding later
  reconcile_deleted-Ends obliges zero s guarded few = absurd (omega arith)
  reconcile_deleted-Ends obliges (suc n) s guarded few = elim (progress obliges guarded s) [
    | inl ends ↦ (0, omega arith, ends)
    | inr fewer ↦
        let (m, below, ends) =
          reconcile_deleted-Ends obliges n (wait (reconcile_deleted q apis tc s).1) guarded
            (omega arith) in
        (suc m, omega arith, ends)
  ]
