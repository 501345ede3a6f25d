-- ===== src/Controller/Namespace/Laws.antt =====
-- Which namespaces the controller takes for a tenant's own, and what it does to the others.
use tenantplane.Base.{
  ◌≡◌, ◌≢◌, refl, true, false, [], ◌∷◌, none, bytes_eq, string_eq, text_at, arith, beq_refl,
}
use tenantplane.Base.Text.{is_empty}
use tenantplane.Base.Go.{Unicode}
use tenantplane.Base.Result.{ok}
use tenantplane.Syncplan.Transform.Build.{entries}
use tenantplane.Api.{TenantCluster}
use tenantplane.Controller.Namespace.{
  Namespace, Host, label_tenant, label_tenant_namespace, owned_by_tenant, map_control_plane_object,
  build_control_plane_namespace, control_plane_namespace, ensure_control_plane_namespace,
  delete_runtime_class_binding, teardown,
}

-- A namespace of a tenant whose name and namespace are not empty is mapped back to that tenant, and
-- to nothing else.
pub map-owned :
    (ns : Namespace) (tc : TenantCluster)
    → is_empty tc.name ≡ false
    → is_empty tc.namespace ≡ false
    → owned_by_tenant ns tc ≡ true
    → map_control_plane_object ns.labels ≡ (tc.namespace, tc.name) ∷ []
unfolding owned_by_tenant map_control_plane_object
map-owned ns tc named placed owned =
    let tenant = text_at label_tenant (entries ns.labels) in
    let tenant_namespace = text_at label_tenant_namespace (entries ns.labels) in
    ground (arith, bytes_eq.beq_iff tenant tc.name, bytes_eq.beq_iff tenant_namespace tc.namespace)

module _ ⦃u : Unicode⦄ where
  pub build-owned :
      (tc : TenantCluster) → owned_by_tenant (build_control_plane_namespace tc) tc ≡ true
  unfolding owned_by_tenant build_control_plane_namespace
  build-owned tc = rw (beq_refl tc.name, beq_refl tc.namespace) refl

module _ (host : Host) ⦃u : Unicode⦄ (tc : TenantCluster) (s : host.State) where
  -- A namespace at the control plane's name that is not the tenant's is not adopted: the host stays
  -- as it is, and there is an error.
  pub ensure-foreign :
      (existing : Namespace)
      → host.get_namespace s (control_plane_namespace tc) ≡ ok existing
      → owned_by_tenant existing tc ≡ false
      → ((ensure_control_plane_namespace host tc s).1 ≡ s)
        × ((ensure_control_plane_namespace host tc s).0 ≢ none)
  unfolding ensure_control_plane_namespace build_control_plane_namespace
  ensure-foreign existing there foreign = ground arith

  -- When the binding is gone and the namespace at the control plane's name is not the tenant's, the
  -- teardown deletes no namespace: the finalizer is released, and the host is as the deletion of
  -- the binding left it.
  pub teardown-foreign :
      (ns : Namespace)
      → (delete_runtime_class_binding host tc s).0 ≡ none
      → host.get_namespace (delete_runtime_class_binding host tc s).1 (control_plane_namespace tc)
        ≡ ok ns
      → owned_by_tenant ns tc ≡ false
      → teardown host tc s ≡ (ok true, (delete_runtime_class_binding host tc s).1)
  unfolding teardown
  teardown-foreign ns unbound there foreign = ground arith

  -- When the finalizer is released, a namespace that is still there at the control plane's name is
  -- not the tenant's.
  pub teardown-released :
      (ns : Namespace)
      → (teardown host tc s).0 ≡ ok true
      → host.get_namespace (teardown host tc s).1 (control_plane_namespace tc) ≡ ok ns
      → owned_by_tenant ns tc ≡ false
  unfolding teardown
  teardown-released ns released there = ground arith
