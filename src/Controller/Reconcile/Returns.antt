-- ===== src/Controller/Reconcile/Returns.antt =====
-- What `Reconcile` of internal/controller/tenantcluster_controller.go returns and writes on its way
-- out: `degrade`, the phases, and the early returns.
use tenantplane.Base.{ℕ, zero, suc, Bool, true, false, [], ◌∷◌, ◌++◌, bytes_eq}
use tenantplane.Base.Text.{Text, text}
use tenantplane.Base.Go.{Unicode}
use tenantplane.Base.Result.{Result, ok, err, Error, error_text}
use tenantplane.Base.Action.{Flow, stop, next, Action, ◌>>=◌, ◌>>◌, pure, return, perform, attempt}
use tenantplane.Object.{ℤ, pos, negsuc}
use tenantplane.Api.{TenantCluster}
use tenantplane.Isolation.{Quantities}
use tenantplane.Controller.Status.{condition_true, condition_false, set_condition}
use tenantplane.Controller.ControlPlane.{api_port_text, control_plane_service_fqdn}
use tenantplane.Controller.Cadence.{requeue_waiting}
use tenantplane.Controller.Apis.{Apis}
use tenantplane.Controller.Reconcile.Objects.{external_endpoint}

abbrev pub teardown_finalizer : Text
teardown_finalizer = text "tenantplane.io/teardown"

-- What a call of Reconcile returns: an error, or after how many nanoseconds it is wanted again, 0 for
-- not at all.
abbrev pub ReconcileResult : Type 0
ReconcileResult = Result ℕ

abbrev pub with_phase : TenantCluster → Text → TenantCluster
with_phase tc phase = record tc { status = record tc.status { phase = phase } }

-- The status that `degrade` writes.
unfoldable pub degraded : TenantCluster → Text → Text → TenantCluster
degraded tc reason message =
    set_condition (with_phase tc (text "Degraded")) (text "Ready") condition_false reason message

unfoldable pub provisioning : TenantCluster → TenantCluster
provisioning tc =
    set_condition (with_phase tc (text "Provisioning")) (text "Ready") condition_false
      (text "WaitingForControlPlane") (text "control-plane pod is not ready yet")

-- The part of the status of a ready tenant that comes before the sync: phase, endpoints and
-- condition.
abbrev pub published : ⦃u : Unicode⦄ → TenantCluster → Text → TenantCluster
published tc external_endpoint = record tc {
  status = record tc.status {
    phase = text "Ready";
    endpoint = text "https://" ++ control_plane_service_fqdn tc ++ b':' ∷ api_port_text;
    external_endpoint = external_endpoint;
  };
}

unfoldable pub ready : ⦃u : Unicode⦄ → TenantCluster → Text → TenantCluster
ready tc external_endpoint =
    set_condition (published tc external_endpoint) (text "Ready") condition_true
      (text "ControlPlaneRunning") []

-- sts.Status.ReadyReplicas < 1
abbrev pub is_waiting : ℤ → Bool
is_waiting (pos zero) = true
is_waiting (pos (suc n)) = false
is_waiting (negsuc n) = true

-- The result of a body that returns, one way or the other.
unfoldable pub outcome_of : Flow ReconcileResult ReconcileResult → ReconcileResult
outcome_of (stop outcome) = outcome
outcome_of (next outcome) = outcome

module _ (q : Quantities) (apis : Apis q) where
  -- if err := act(); err != nil { return reconcile.Result{}, err }
  unfoldable pub or_fail :
      {A : Type 0} → Action apis.host.State Error A → Action apis.host.State ReconcileResult A
  or_fail act = do result ← attempt act; elim result [ ok a ↦ pure a | err e ↦ return (err e) ]

  -- r.Status().Update(ctx, tc), and the requeue where it succeeds.
  unfoldable pub write_status :
      TenantCluster → ℕ → Action apis.host.State ReconcileResult ReconcileResult
  unfolding or_fail
  write_status tc interval = do or_fail (perform λ s. apis.update_status s tc); pure (ok interval)

  unfoldable pub degrade :
      {A : Type 0} → TenantCluster → Text → Text → Action apis.host.State ReconcileResult A
  unfolding write_status
  degrade tc reason message = do
    outcome ← write_status (degraded tc reason message) requeue_waiting
    return outcome

  -- if err := act(); err != nil { return r.degrade(ctx, tc, reason, err.Error()) }
  unfoldable pub or_degrade :
      {A : Type 0}
      → TenantCluster
      → Text
      → Action apis.host.State Error A
      → Action apis.host.State ReconcileResult A
  unfolding degrade
  or_degrade tc reason act = do
    result ← attempt act
    elim result [ ok a ↦ pure a | err e ↦ degrade tc reason (error_text e) ]

  -- A read of a profile or a policy; the message has the format only.
  unfoldable pub fetch_or_degrade :
      {A : Type 0}
      → TenantCluster
      → Text
      → Text
      → Result A
      → Action apis.host.State ReconcileResult A
  unfolding degrade
  fetch_or_degrade tc reason message (ok a) = pure a
  fetch_or_degrade tc reason message (err e) = degrade tc reason message
