-- ===== src/Controller/Reconcile/Honest.antt =====
-- What the reconciler writes into a TenantCluster's status: phase, endpoint and the Ready condition
-- agree.
use Prim.Derive.{subst}
use tenantplane.Base.{
  ne_of_beq, if◌then◌else◌, ◌≡◌, refl, sym, ap, ◌∙◌, ◌↔◌, Option, none, some, ◌++◌, ◌∷◌, [], false,
  bytes_eq, ◌==◌,
}
use tenantplane.Base.Text.{Text, text}
use tenantplane.Base.Go.{Unicode}
use tenantplane.Api.{TenantCluster, Condition}
use tenantplane.Controller.Status.{condition_true, condition_false, set_condition}
use tenantplane.Controller.Status.Laws.{condition_of, set_condition_lem}
use tenantplane.Controller.Namespace.{control_plane_namespace}
use tenantplane.Controller.ControlPlane.{api_port_text, control_plane_service_fqdn}
use tenantplane.Controller.Reconcile.Returns.{degraded, provisioning, ready, with_phase, published}

abbrev status_text : Option Condition → Text
status_text none = []
status_text (some c) = c.status

-- The status of the Ready condition, empty where there is none.
abbrev pub ready_status : TenantCluster → Text
ready_status tc = status_text (condition_of (text "Ready") tc.status.conditions)

-- The condition is True in the phase Ready and in no other, and then the endpoint is the address of
-- the control plane's Service.
pub IsHonest : ⦃u : Unicode⦄ → TenantCluster → Type 0
IsHonest tc =
    ((tc.status.phase ≡ text "Ready") ↔ (ready_status tc ≡ condition_true))
    × ((tc.status.phase ≡ text "Ready")
        → tc.status.endpoint
          ≡ text "https://" ++ control_plane_service_fqdn tc ++ b':' ∷ api_port_text)

ready_status-set_condition :
    (tc : TenantCluster) (status reason message : Text)
    → ready_status (set_condition tc (text "Ready") status reason message) ≡ status
ready_status-set_condition tc status reason message =
    ap status_text (set_condition_lem tc (text "Ready") status reason message (text "Ready"))

ready_status-other :
    (tc : TenantCluster) (kind status reason message : Text)
    → (kind == text "Ready") ≡ false
    → ready_status (set_condition tc kind status reason message) ≡ ready_status tc
ready_status-other tc kind status reason message differ = ap status_text (
    set_condition_lem tc kind status reason message (text "Ready")
    ∙ ap
        (λ b.
          if b
          then some (record { kind = kind; status = status; reason = reason; message = message })
          else condition_of (text "Ready") tc.status.conditions)
        differ)

module _ ⦃u : Unicode⦄ where
  unready :
      (tc : TenantCluster)
      → ¬ (tc.status.phase ≡ text "Ready")
      → ready_status tc ≡ condition_false
      → IsHonest tc
  unfolding IsHonest
  unready tc phase status =
      let untrue : ¬ (ready_status tc ≡ condition_true) =
        λ h. ne_of_beq condition_false condition_true refl (sym status ∙ h) in
      ((λ h. absurd (phase h), λ h. absurd (untrue h)), λ h. absurd (phase h))

  pub degraded-IsHonest :
      (tc : TenantCluster) (reason message : Text) → IsHonest (degraded tc reason message)
  unfolding degraded IsHonest set_condition
  degraded-IsHonest tc reason message =
      unready (degraded tc reason message) (ne_of_beq (text "Degraded") (text "Ready") refl) (
        ready_status-set_condition (with_phase tc (text "Degraded")) condition_false reason message)

  pub provisioning-IsHonest : (tc : TenantCluster) → IsHonest (provisioning tc)
  unfolding provisioning IsHonest set_condition
  provisioning-IsHonest tc =
      unready (provisioning tc) (ne_of_beq (text "Provisioning") (text "Ready") refl) (
        ready_status-set_condition (with_phase tc (text "Provisioning")) condition_false
          (text "WaitingForControlPlane") (text "control-plane pod is not ready yet"))

  pub ready-IsHonest : (tc : TenantCluster) (address : Text) → IsHonest (ready tc address)
  unfolding ready IsHonest set_condition control_plane_service_fqdn control_plane_namespace
  ready-IsHonest tc address =
      let status_set : ready_status (ready tc address) ≡ condition_true =
        ready_status-set_condition (published tc address) condition_true
          (text "ControlPlaneRunning") [] in
      ((λ h. status_set, λ h. refl), λ h. refl)

  pub set_condition-IsHonest :
      (tc : TenantCluster) (kind status reason message : Text)
      → (kind == text "Ready") ≡ false
      → IsHonest tc
      → IsHonest (set_condition tc kind status reason message)
  unfolding IsHonest set_condition control_plane_service_fqdn control_plane_namespace
  set_condition-IsHonest tc kind status reason message differ honest =
      subst
        (λ status.
          ((tc.status.phase ≡ text "Ready") ↔ (status ≡ condition_true))
          × ((tc.status.phase ≡ text "Ready")
              → tc.status.endpoint
                ≡ text "https://" ++ control_plane_service_fqdn tc ++ b':' ∷ api_port_text))
        (sym (ready_status-other tc kind status reason message differ)) honest
