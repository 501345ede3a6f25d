-- ===== src/Syncplan/Plan/Laws.antt =====
-- When `explain` succeeds, and where its plan puts the object.
use tenantplane.Base.{◌≡◌, refl, ◌≤◌, Bool, true, not, ◌&&◌, length, arith}
use tenantplane.Base.Text.{is_empty}
use tenantplane.Base.Go.{Unicode}
use tenantplane.Base.Result.{ok}
use tenantplane.Syncplan.Sanitize.{sanitize_name}
use tenantplane.Syncplan.Sanitize.Shape.{IsTidy}
use tenantplane.Syncplan.HostName.{host_name}
use tenantplane.Syncplan.HostName.Bounds.{host_name-IsTidy}
use tenantplane.Syncplan.Plan.{ResourceRef, Plan, explain, plan_reason}

-- All five coordinates are given.
abbrev pub is_complete : ResourceRef → Bool
is_complete ref =
    not (is_empty ref.tenant_cluster)
    && not (is_empty ref.tenant_namespace)
    && not (is_empty ref.virtual_namespace)
    && not (is_empty ref.kind)
    && not (is_empty ref.name)

module _ ⦃u : Unicode⦄ where
  abbrev pub plan_for : ResourceRef → Plan
  plan_for ref = record {
    input = ref;
    host = record {
      namespace = sanitize_name ref.tenant_namespace;
      name = host_name ref.name ref.virtual_namespace ref.tenant_cluster;
    };
    reason = plan_reason;
  }

  pub explain_complete :
      (ref : ResourceRef) → is_complete ref ≡ true → explain ref ≡ ok (plan_for ref)
  unfolding explain
  explain_complete ref h = ground arith

  -- A reference whose five coordinates are all given has a plan. It repeats the reference, puts the
  -- object into the sanitized namespace of the tenant, and gives it a name of at most 63 bytes that
  -- is not empty, has no dash at its ends and no two dashes in a row.
  pub explain_lem :
      (ref : ResourceRef)
      → is_complete ref ≡ true
      → (p : Plan) × (explain ref ≡ ok p)
        × (p.input ≡ ref)
        × (p.host.namespace ≡ sanitize_name ref.tenant_namespace)
        × (length p.host.name ≤ 63)
        × IsTidy p.host.name
  explain_lem ref h =
      let (short, tidy) = host_name-IsTidy ref.name ref.virtual_namespace ref.tenant_cluster in
      (plan_for ref, explain_complete ref h, refl, refl, short, tidy)
