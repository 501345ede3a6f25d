-- ===== src/Controller/ControlPlane/Exempt.antt =====
-- The control plane's objects and the default-deny policy of internal/isolation: the policy's selector
-- leaves the control plane's pods alone.
use Prim.Derive.{subst}
use tenantplane.Base.{
  sym, ap, ◌≡◌, refl, Bool, true, false, ◌&&◌, String, List, [], ◌∷◌, some, Dict, lookup, string_eq,
  arith,
}
use tenantplane.Base.Text.{Text, text}
use tenantplane.Api.{TenantCluster}
use tenantplane.Isolation.{Profile, Requirement, NetworkPolicy, build_network_policy}
use tenantplane.Controller.ControlPlane.{control_plane_object_labels}

-- Kubernetes' match of labels against one requirement of a selector. A requirement NotIn a value
-- does not match labels that have this value at the key.
pub record Selectors : Type 0 where
  pub matches : Requirement → Dict String Text → Bool
  pub not_in :
      (key : String) (value : Text) (labels : Dict String Text)
      → lookup key labels ≡ some value
      → matches (record { key = text key; operator = text "NotIn"; values = value ∷ [] }) labels
        ≡ false

abbrev exempt_requirement : Requirement
exempt_requirement = record {
  key = text "tenantplane.io/isolation-exempt";
  operator = text "NotIn";
  values = text "true" ∷ [];
}

module _ (selectors : Selectors) where
  -- All the requirements of a selector have to match.
  unfoldable pub selects : List Requirement → Dict String Text → Bool
  selects [] labels = true
  selects (r ∷ requirements) labels = selectors.matches r labels && selects requirements labels

  -- The default-deny policy of a profile does not select what carries the labels of a control plane,
  -- whichever tenant's it is.
  pub selects-control_plane :
      (profile : Profile) (namespace : Text) (np : NetworkPolicy) (tc : TenantCluster)
      → build_network_policy profile namespace ≡ some np
      → selects np.match_expressions (control_plane_object_labels tc) ≡ false
  unfolding build_network_policy control_plane_object_labels selects
  selects-control_plane profile namespace np tc built =
      let exempt =
        selectors.not_in "tenantplane.io/isolation-exempt" (text "true")
          (control_plane_object_labels tc) refl in
      let same : np.match_expressions ≡ exempt_requirement ∷ [] = ground arith in
      subst (λ rs. selects rs (control_plane_object_labels tc) ≡ false) (sym same)
        (ap (λ b. b && true) exempt)
