-- ===== src/Syncplan/Transform/Build.antt =====
-- `BuildHostObject` and `ReverseLookup` of internal/syncplan/transform.go. A nil object is `none`.
pub mod Stripped
pub mod Laws
use tenantplane.Base.{
  String, Option, none, some, List, [], ◌∷◌, ◌==◌, bytes_eq, string_eq, if◌then◌else◌, Dict,
  text_at,
}
use tenantplane.Base.Text.{Text, text}
use tenantplane.Base.Go.{Unicode}
use tenantplane.Base.Result.{Result, ok, err, message, ◌>>=◌}
use tenantplane.Object.{Object, Unstructured}
use tenantplane.Syncplan.Plan.{ResourceRef, explain}
use tenantplane.Syncplan.Transform.Labels.{
  host_labels, host_annotations, merge_map, label_managed_by, label_tenant, managed_by_value,
  annotation_virtual_namespace, annotation_virtual_name,
}
use tenantplane.Syncplan.Transform.Strip.{remove_all, strip_host_allocated_spec_fields}

abbrev pub host_managed_metadata_fields : List String
host_managed_metadata_fields =
    "resourceVersion" ∷ "uid" ∷ "generation" ∷ "creationTimestamp" ∷ "deletionTimestamp"
    ∷ "deletionGracePeriodSeconds" ∷ "managedFields" ∷ "ownerReferences" ∷ "selfLink" ∷ "finalizers"
    ∷ []

-- A nil map reads as an empty one.
abbrev pub entries : Option (Dict String Text) → Dict String Text
entries none = []
entries (some m) = m

module _ ⦃k : Unstructured⦄ where
  -- The tenant object without what its own cluster owns.
  unfoldable pub stripped : Text → Object → Object
  stripped kind tenant = strip_host_allocated_spec_fields kind (
      k.remove_nested_field (remove_all "metadata" host_managed_metadata_fields tenant)
        ("status" ∷ []))

module _ ⦃u : Unicode⦄ ⦃k : Unstructured⦄ where
  labelled : ResourceRef → Object → Object
  labelled ref host = k.set_labels host (merge_map (k.get_labels host) (host_labels ref))

  annotated : ResourceRef → Object → Object
  annotated ref host =
      k.set_annotations host (merge_map (k.get_annotations host) (host_annotations ref))

  unfoldable pub build_host_object : ResourceRef → Option Object → Result Object
  unfolding stripped labelled annotated
  build_host_object ref none = err (message (text "tenant object is required"))
  build_host_object ref (some tenant) = do
    plan ← explain ref
    let host = k.set_namespace (stripped ref.kind tenant) plan.host.namespace
    let host = k.set_name host plan.host.name
    ok (annotated ref (labelled ref host))

module _ ⦃k : Unstructured⦄ where
  -- `none` where the Go function returns false.
  unfoldable pub reverse_lookup : Option Object → Option ResourceRef
  reverse_lookup none = none
  reverse_lookup (some host) =
      let labels = entries (k.get_labels host) in
      let annotations = entries (k.get_annotations host) in
      if text_at label_managed_by labels == managed_by_value
      then some (record {
        tenant_cluster = text_at label_tenant labels;
        tenant_namespace = k.get_namespace host;
        virtual_namespace = text_at annotation_virtual_namespace annotations;
        kind = k.get_kind host;
        name = text_at annotation_virtual_name annotations;
      })
      else none
