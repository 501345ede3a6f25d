-- ===== src/Cli/Tenants.antt =====
-- The tenants that cmd/tenantplane/main.go renders, in the sync engine of internal/syncer/engine.go.
use tenantplane.Base.{◌≡◌, sym, true, List, [], ◌∷◌, Dict, String, string_eq}
use Prim.Derive.{subst}
use tenantplane.Base.Text.{Text}
use tenantplane.Base.Go.{Unicode}
use tenantplane.Base.Result.{ok}
use tenantplane.Object.{Object, Gvk, Unstructured}
use tenantplane.Object.Laws.{IsUnstructured, is_formed}
use tenantplane.Object.Frame.{IsFramed}
use tenantplane.Syncplan.Sanitize.{sanitize_name}
use tenantplane.Syncer.{Clients, Engine}
use tenantplane.Syncer.Pair.Safety.{is_ours}
use tenantplane.Syncer.Pass.{ref_for, desired_host}
use tenantplane.Syncer.Pass.Owned.{desired_host-is_ours}
use tenantplane.Cli.Checks.{Flags}
use tenantplane.Cli.Render.{tenant_cluster_flags, render_tenant_cluster}
use tenantplane.Cli.Laws.{render_tenant_cluster-ok}

module _ ⦃u : Unicode⦄ ⦃k : Unstructured⦄ ⦃flags : Flags⦄ (laws : IsUnstructured k)
    (framed : IsFramed k) where
  -- When the command line renders a tenant, every pass of an engine for a tenant of this name
  -- recognises the host objects that it wants for virtual objects with proper metadata: none is taken
  -- for another tenant's.
  pub rendered-is_ours :
      (args : List Text) (values : Dict String Text) (name manifest : Text) (env : Clients)
      (e : Engine) (gvk : Gvk) (obj o : Object)
      → flags.parse tenant_cluster_flags args ≡ ok (values, name ∷ [])
      → render_tenant_cluster args ≡ ok manifest
      → e.tenant ≡ name
      → is_formed obj ≡ true
      → desired_host env e gvk obj ≡ ok o
      → is_ours o (ref_for e gvk.kind obj) ≡ true
  rendered-is_ours args values name manifest env e gvk obj o parsed rendered same formed wanted =
      let checked = (render_tenant_cluster-ok args values name manifest parsed).0 rendered in
      desired_host-is_ours env laws framed e gvk obj o
        (subst (λ tenant. sanitize_name tenant ≡ tenant) (sym same) checked.1) formed wanted
