-- ===== src/Syncer/Pass/Owned.antt =====
-- The host object that a pass of internal/syncer/engine.go wants for a virtual object is one that the
-- pass recognises.
use tenantplane.Base.{
  ◌≡◌, refl, sym, ap, ◌∙◌, Bool, true, not, ◌&&◌, Option, none, some, [], ◌∷◌, ◌==◌, bytes_eq,
  string_eq, text_at, Bool-cases, inl, inr, arith, Dict, String, lookup,
}
use Prim.Derive.{subst}
use tenantplane.Base.Cases.{if-holds, result-holds}
use tenantplane.Base.Text.{Text, text, is_empty}
use tenantplane.Base.Go.{Unicode}
use tenantplane.Base.Result.{Result, ok, err, Error, message}
use tenantplane.Object.{Object, Gvk, string, Unstructured}
use tenantplane.Object.Laws.{IsUnstructured, is_formed}
use tenantplane.Object.Frame.{IsFramed}
use tenantplane.Syncplan.Sanitize.{sanitize_name}
use tenantplane.Syncplan.Plan.{ResourceRef}
use tenantplane.Syncplan.Transform.Build.{build_host_object, reverse_lookup, entries}
use tenantplane.Syncplan.Transform.Labels.{
  label_managed_by, label_tenant, managed_by_value, annotation_virtual_namespace,
  annotation_virtual_name,
}
use tenantplane.Syncer.{Engine}
use tenantplane.Syncer.Pair.{same_source}
use tenantplane.Syncer.Pair.Safety.{is_ours}
use tenantplane.Syncer.Pair.Renamed.{built-is_ours}
use tenantplane.Syncer.{Clients}
use tenantplane.Syncer.Pass.{ref_for, desired_host}

-- What `is_ours` reads of an object.
source_named : ResourceRef → Dict String Text → Dict String Text → Bool
source_named ref labels annotations =
    text_at label_managed_by labels == managed_by_value
    && (text_at label_tenant labels == ref.tenant_cluster
        && text_at annotation_virtual_namespace annotations == ref.virtual_namespace
        && text_at annotation_virtual_name annotations == ref.name)

module _ ⦃k : Unstructured⦄ where
  is_ours-source_named :
      (o : Object) (ref : ResourceRef)
      → is_ours o ref ≡ source_named ref (entries (k.get_labels o)) (entries (k.get_annotations o))
  unfolding reverse_lookup same_source source_named
  is_ours-source_named o ref =
      elim (Bool-cases (text_at label_managed_by (entries (k.get_labels o)) == managed_by_value)) [
        | inl managed ↦ rw managed refl
        | inr other ↦ rw other refl
      ]

  is_ours-frame :
      (framed : IsFramed k) (o o' : Object) (ref : ResourceRef)
      → lookup "metadata" o' ≡ lookup "metadata" o
      → is_ours o' ref ≡ is_ours o ref
  is_ours-frame framed o o' ref same =
      let (labels, annotations) = framed.metadata-frame o o' same in
      is_ours-source_named o' ref
      ∙ (λ i. source_named ref (entries (labels i)) (entries (annotations i)))
      ∙ sym (is_ours-source_named o ref)

ok-injective : (x y : Object) → ok x ≡ ok y → x ≡ y
ok-injective x y h = ground arith

module _ (env : Clients) ⦃u : Unicode⦄ ⦃k : Unstructured⦄ (laws : IsUnstructured k)
    (framed : IsFramed k) (e : Engine) (gvk : Gvk) (obj : Object) where
  abbrev ref : ResourceRef
  ref = ref_for e gvk.kind obj

  -- A result has the metadata of the object that BuildHostObject gives.
  abbrev KeepsMetadata : Result Object → Type 0
  KeepsMetadata r =
      (o : Object)
      → r ≡ ok o
      → (host : Object) × (build_host_object ref (some obj) ≡ ok host)
        × (lookup "metadata" o ≡ lookup "metadata" host)

  failed-KeepsMetadata : (failure : Error) → KeepsMetadata (err failure)
  failed-KeepsMetadata failure o h = cc

  module _ (host : Object) (built : build_host_object ref (some obj) ≡ ok host) where
    ok-KeepsMetadata :
        (x : Object) → lookup "metadata" x ≡ lookup "metadata" host → KeepsMetadata (ok x)
    ok-KeepsMetadata x same o h =
        (host, built, ap (lookup "metadata") (sym (ok-injective x o h)) ∙ same)

    abbrev kinded : Object
    kinded = k.set_group_version_kind host gvk

    -- The runtime class is put in, or that fails.
    classed-KeepsMetadata :
        (written : Option Object)
        → k.set_nested_field kinded
            (string e.required_runtime_class_name)
            ("spec" ∷ "runtimeClassName" ∷ [])
          ≡ written
        → KeepsMetadata (elim written [
          | none ↦ err (message (text "%s/%s: set runtimeClassName"))
          | some x ↦ ok x
        ])
    classed-KeepsMetadata none w = failed-KeepsMetadata _
    classed-KeepsMetadata (some x) w = ok-KeepsMetadata x (
        framed.lookup-set_field "metadata" "spec" ("runtimeClassName" ∷ []) kinded x
          (string e.required_runtime_class_name) refl w
        ∙ framed.lookup-set_gvk host gvk)

  desired_host-KeepsMetadata : KeepsMetadata (desired_host env e gvk obj)
  unfolding desired_host
  desired_host-KeepsMetadata =
      result-holds KeepsMetadata (build_host_object ref (some obj))
        (λ failure. failed-KeepsMetadata _)
        (λ host built.
          if-holds KeepsMetadata
            (gvk.kind == text "Pod" && not (is_empty e.required_runtime_class_name))
            (classed-KeepsMetadata host built _ refl)
            (ok-KeepsMetadata host built _ (framed.lookup-set_gvk host gvk)))

  ref-tenant : ref.tenant_cluster ≡ e.tenant
  unfolding ref_for
  ref-tenant = refl

  -- When sanitizing keeps the tenant's name, the host object that a pass wants for a virtual object
  -- with proper metadata is recognised as that object's own.
  pub desired_host-is_ours :
      (o : Object)
      → sanitize_name e.tenant ≡ e.tenant
      → is_formed obj ≡ true
      → desired_host env e gvk obj ≡ ok o
      → is_ours o ref ≡ true
  desired_host-is_ours o kept formed wanted =
      let (host, built, same) = desired_host-KeepsMetadata o wanted in
      is_ours-frame framed host o ref same
      ∙ built-is_ours laws ref obj host host formed built refl
          (subst (λ name. sanitize_name name ≡ name) (sym ref-tenant) kept)
