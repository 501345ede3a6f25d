-- ===== src/Controller/Reconcile/Objects.antt =====
-- The steps of the reconciler in internal/controller/tenantcluster_controller.go that converge the
-- objects of a control plane: its Services and its StatefulSet, and the address of the external one.
use tenantplane.Base.{not, List, [], ◌∷◌, ◌++◌, none, some, if◌then◌else◌}
use tenantplane.Base.Text.{Text, text, is_empty}
use tenantplane.Base.Go.{Unicode}
use tenantplane.Base.Result.{Result, ok, err, Error, is_not_found}
use tenantplane.Base.Action.{Action, ◌>>=◌, pure, return, read, call, perform, lift}
use tenantplane.Api.{TenantCluster}
use tenantplane.Isolation.{Quantities}
use tenantplane.Controller.Namespace.{control_plane_namespace}
use tenantplane.Controller.ControlPlane.{
  api_port_text, external_service_name, Service, Ingress, build_external_service,
}
use tenantplane.Controller.ControlPlane.Workload.{StatefulSet, build_stateful_set}
use tenantplane.Controller.Apis.{Apis, Kind}

-- The address of the first ingress that has one.
unfoldable pub first_address : List Ingress → Text
first_address [] = []
first_address (ing ∷ ingress) =
    let rest = first_address ingress in
    let host = if is_empty ing.hostname then ing.ip else ing.hostname in
    if is_empty host then rest else text "https://" ++ host ++ b':' ∷ api_port_text

-- What an update writes over the fields of the Service that is there.
abbrev pub converged_service : Service → Service → Service
converged_service existing desired = record existing {
  labels = desired.labels;
  ports = desired.ports;
  selector = desired.selector;
}

abbrev pub converged_external : Service → Service → Service
converged_external existing desired = record existing {
  labels = desired.labels;
  annotations = desired.annotations;
  service_type = desired.service_type;
  ports = desired.ports;
  selector = desired.selector;
}

module _ (q : Quantities) where
  abbrev pub converged_stateful_set : StatefulSet q → StatefulSet q → StatefulSet q
  converged_stateful_set existing desired = record existing {
    labels = desired.labels;
    replicas = desired.replicas;
    template = desired.template;
  }

module _ {S A : Type 0} (kind : Kind S A) where
  -- Creates the object where the read did not find it, and writes over it otherwise; gives the
  -- object as the client leaves it.
  unfoldable pub create_or_converge : A → (A → A) → Result A → Action S Error A
  create_or_converge desired converged (err failure) =
      if is_not_found failure then call (λ s. kind.create s desired) else return failure
  create_or_converge desired converged (ok existing) = call λ s. kind.update s (converged existing)

module _ (q : Quantities) (apis : Apis q) where
  unfoldable pub reconcile_service : TenantCluster → Service → Action apis.host.State Error Unit
  unfolding create_or_converge
  reconcile_service tc desired = do
    found ← read λ s. apis.services.get s (desired.namespace, desired.name)
    written ←
        create_or_converge apis.services desired (λ existing. converged_service existing desired)
          found
    pure tt

  module _ ⦃u : Unicode⦄ where
    -- Where no exposure is requested.
    unfoldable pub remove_external_service : Result Service → Action apis.host.State Error Unit
    remove_external_service (err failure) = if is_not_found failure then pure tt else return failure
    remove_external_service (ok existing) = perform λ s. apis.services.delete s existing

    unfoldable pub reconcile_external_service : TenantCluster → Action apis.host.State Error Unit
    unfolding create_or_converge remove_external_service
    reconcile_external_service tc = do
      found ← read λ s. apis.services.get s (control_plane_namespace tc, external_service_name tc)
      elim (build_external_service tc) [
        | none ↦ remove_external_service found
        | some desired ↦ do
          written ←
              create_or_converge apis.services desired
                (λ existing. converged_external existing desired) found
          pure tt
      ]

    unfoldable pub external_endpoint : TenantCluster → Action apis.host.State Error Text
    unfolding first_address
    external_endpoint tc = if not tc.spec.control_plane.expose.load_balancer then pure [] else (do
      found ← read λ s. apis.services.get s (control_plane_namespace tc, external_service_name tc)
      elim found [
        | err failure ↦ if is_not_found failure then pure [] else return failure
        | ok svc ↦ pure (first_address svc.ingress)
      ])

    unfoldable pub reconcile_stateful_set :
        TenantCluster → Action apis.host.State Error (StatefulSet q)
    unfolding create_or_converge
    reconcile_stateful_set tc = do
      desired ← lift (build_stateful_set q tc)
      found ← read λ s. apis.stateful_sets.get s (desired.namespace, desired.name)
      create_or_converge apis.stateful_sets desired
          (λ existing. converged_stateful_set q existing desired) found
