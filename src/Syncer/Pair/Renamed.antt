-- ===== src/Syncer/Pair/Renamed.antt =====
-- A tenant whose name `SanitizeName` changes, in `sameSource` of internal/syncer/engine.go.
use tenantplane.Base.{◌≡◌, ◌≢◌, ◌∙◌, true, false, some, bytes_eq, arith, beq_of_ne, beq_refl, refl}
use tenantplane.Base.Text.{Text}
use tenantplane.Base.Go.{Unicode}
use tenantplane.Base.Result.{ok}
use tenantplane.Object.{Object, Unstructured}
use tenantplane.Object.Laws.{IsUnstructured, is_formed}
use tenantplane.Syncplan.Sanitize.{sanitize_name}
use tenantplane.Syncplan.Plan.{ResourceRef}
use tenantplane.Syncplan.Transform.Build.{build_host_object, reverse_lookup}
use tenantplane.Syncplan.Transform.Build.Laws.{reverse-build}
use tenantplane.Syncer.{Direction, Decision, skip, Clients, Engine, World}
use tenantplane.Syncer.Pair.{same_source, reconcile_pair}
use tenantplane.Syncer.Pair.Safety.{is_ours, found, reconcile_pair-foreign}

module _ ⦃u : Unicode⦄ ⦃k : Unstructured⦄ (laws : IsUnstructured k) (ref : ResourceRef)
    (virtual_obj built existing : Object) where
  same_source-renamed :
      (a b : ResourceRef) → a.tenant_cluster ≢ b.tenant_cluster → same_source a b ≡ false
  unfolding same_source
  same_source-renamed a b differ =
      ground (arith, beq_of_ne a.tenant_cluster b.tenant_cluster differ)

  not_ours :
      is_formed virtual_obj ≡ true
      → build_host_object ref (some virtual_obj) ≡ ok built
      → reverse_lookup (some existing) ≡ reverse_lookup (some built)
      → sanitize_name ref.tenant_cluster ≢ ref.tenant_cluster
      → is_ours existing ref ≡ false
  not_ours f h same renamed =
      rw (same ∙ reverse-build laws ref virtual_obj built f h) (same_source-renamed _ ref renamed)

  -- When sanitizing changes the tenant's name, an object on the host that reads back as the host
  -- object built for a virtual object with proper metadata is taken for another tenant's: the pair
  -- is skipped, in every direction, and nothing changes.
  pub reconcile_pair-renamed :
      (env : Clients) (e : Engine) (direction : Direction) (policy : Text) (host : Object)
      (w : World env)
      → is_formed virtual_obj ≡ true
      → build_host_object ref (some virtual_obj) ≡ ok built
      → reverse_lookup (some existing) ≡ reverse_lookup (some built)
      → sanitize_name ref.tenant_cluster ≢ ref.tenant_cluster
      → found env e policy ref virtual_obj host w ≡ ok existing
      → (d : Decision) × (reconcile_pair env e direction policy ref virtual_obj host w ≡ (ok d, w))
        × (d.action ≡ skip)
  reconcile_pair-renamed env e direction policy host w f h same renamed there =
      reconcile_pair-foreign env e policy ref virtual_obj host w direction existing there
        (not_ours f h same renamed)

  -- When sanitizing keeps the tenant's name, an object that reads back as the host object built for
  -- a virtual object with proper metadata is recognised as its own.
  pub built-is_ours :
      is_formed virtual_obj ≡ true
      → build_host_object ref (some virtual_obj) ≡ ok built
      → reverse_lookup (some existing) ≡ reverse_lookup (some built)
      → sanitize_name ref.tenant_cluster ≡ ref.tenant_cluster
      → is_ours existing ref ≡ true
  unfolding same_source
  built-is_ours f h same kept = rw (same ∙ reverse-build laws ref virtual_obj built f h) (
      rw (kept, beq_refl ref.tenant_cluster, beq_refl ref.virtual_namespace, beq_refl ref.name)
        refl)
