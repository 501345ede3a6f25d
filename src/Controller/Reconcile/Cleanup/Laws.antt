-- ===== src/Controller/Reconcile/Cleanup/Laws.antt =====
-- What the cleanup of a legacy control plane leaves alone.
use tenantplane.Base.{
  ◌≡◌, refl, ap, ◌∙◌, Bool, true, false, ◌++◌, ◌==◌, bytes_eq, if◌then◌else◌, inl, inr, arith,
}
use tenantplane.Base.Text.{Text, text}
use tenantplane.Base.Go.{Unicode}
use tenantplane.Base.Result.{ok, err, Error, Result-cases}
use tenantplane.Base.Action.{continue, Flow, stop, next, Action, ◌>>=◌, ◌>>◌, pure, return, read}
use tenantplane.Api.{TenantCluster}
use tenantplane.Isolation.{Quantities}
use tenantplane.Controller.Namespace.{control_plane_namespace}
use tenantplane.Controller.ControlPlane.{
  control_plane_name, external_service_name, control_plane_pod_name,
}
use tenantplane.Controller.Apis.{Apis, Kind}
use tenantplane.Controller.Reconcile.Cleanup.{
  is_legacy, delete_if, delete_services, delete_legacy_objects, cleanup_legacy_control_plane,
}

module _ {S A : Type 0} (kind : Kind S A) where
  -- The object of the key, if it is there, fails the test.
  abbrev IsSpared : (A → Bool) → Text × Text → S → Type 0
  IsSpared test key s = (a : A) → kind.get s key ≡ ok a → test a ≡ false

  delete_if-spared :
      (test : A → Bool) (key : Text × Text) (s : S)
      → IsSpared test key s
      → (delete_if kind test key s).1 ≡ s
  unfolding delete_if ◌>>=◌ read pure return
  delete_if-spared test key s spared = elim (Result-cases (kind.get s key)) [
    | inl (a, there) ↦ ground (arith, spared a)
    | inr (e, missing) ↦ ground arith
  ]

module _ {S R : Type 0} where
  continue-state :
      {A B : Type 0} (r : Flow R A × S) (f : A → Action S R B) (s t : S)
      → r.1 ≡ s
      → ((a : A) → (f a s).1 ≡ t)
      → s ≡ t
      → (continue r f).1 ≡ t
  continue-state (stop e, s') f s t h k same = h ∙ same
  continue-state (next a, s') f s t h k same = ap (λ x. (f a x).1) h ∙ k a

  if_same :
      (b : Bool) (s : S) (act : Action S R Unit)
      → (act s).1 ≡ s
      → ((if b then pure tt else act) s).1 ≡ s
  unfolding pure
  if_same true s act h = refl
  if_same false s act h = h

  -- Two actions of which neither changes the state.
  then-spared :
      {B : Type 0} (act : Action S R Unit) (rest : Action S R B) (s : S)
      → (act s).1 ≡ s
      → (rest s).1 ≡ s
      → ((act >> rest) s).1 ≡ s
  unfolding ◌>>◌
  then-spared act rest s h k = continue-state (act s) (λ done. rest) s s h (λ done. k) refl

module _ (q : Quantities) (apis : Apis q) ⦃u : Unicode⦄ (tc : TenantCluster)
    (s : apis.host.State) where
  -- The Service of the name in the tenant's namespace, if there is one, is not legacy.
  abbrev IsSparedService : Text → Type 0
  IsSparedService name =
      IsSpared apis.services (λ svc. is_legacy tc svc.labels) (tc.namespace, name) s

  -- The cleanup changes nothing when no StatefulSet and no Service at the names of the control plane
  -- in the tenant's namespace has the labels of a control plane of the tenant, and when there is no
  -- claim at the name of its volume.
  pub cleanup-spared :
      IsSpared apis.stateful_sets
        (λ sts. is_legacy tc sts.labels)
        (tc.namespace, control_plane_name tc)
        s
      → IsSparedService (control_plane_name tc)
      → IsSparedService (external_service_name tc)
      → (failure : Error)
      → apis.claims.get s (tc.namespace, text "data-" ++ control_plane_pod_name tc) ≡ err failure
      → (cleanup_legacy_control_plane q apis tc s).1 ≡ s
  unfolding cleanup_legacy_control_plane delete_legacy_objects delete_services pure
  cleanup-spared sts internal external failure missing =
      let claim =
        delete_if-spared apis.claims (λ pvc. true)
          (tc.namespace, text "data-" ++ control_plane_pod_name tc) s (λ pvc there. ground arith) in
      if_same (tc.namespace == control_plane_namespace tc) s (delete_legacy_objects q apis tc) (
        then-spared _ _ s
          (delete_if-spared apis.stateful_sets (λ sts. is_legacy tc sts.labels) _ s sts)
          (then-spared _ _ s
            (then-spared _ _ s
              (delete_if-spared apis.services (λ svc. is_legacy tc svc.labels) _ s internal)
              (then-spared _ _ s
                (delete_if-spared apis.services (λ svc. is_legacy tc svc.labels) _ s external)
                refl))
            claim))
