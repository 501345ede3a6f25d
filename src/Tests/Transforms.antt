-- ===== src/Tests/Transforms.antt =====
-- The theorems on the translation of objects, at a ConfigMap and at the fields of a pod.
use tenantplane.Base.{
  ◌≡◌, ◌++◌, refl, false, true, [], ◌∷◌, List, none, some, ◌==◌, string_eq, lookup, All,
  if◌then◌else◌,
}
use tenantplane.Base.Text.{Text, text}
use tenantplane.Base.Result.{ok}
use tenantplane.Object.{Object, Value, string, object, field, end, ℤ, int, pos}
use tenantplane.Object.Values
use tenantplane.Object.Memory.{memory}
use tenantplane.Object.Memory.Lawful.{memory-IsUnstructured}
use tenantplane.Syncplan.Sanitize.{sanitize_name}
use tenantplane.Syncplan.HostName.{host_name}
use tenantplane.Syncplan.Transform.Build.{build_host_object, reverse_lookup, entries}
use tenantplane.Syncplan.Transform.Build.Laws.{
  build_host_object_lem, labels-build_host_object, reverse-build,
}
use tenantplane.Syncplan.Transform.Labels.{
  label_tenant, label_kind, label_virtual_namespace, label_managed_by, managed_by_value,
  annotation_virtual_name, annotation_virtual_namespace,
}
use tenantplane.Syncplan.Transform.Adopt.{is_present, merge_tolerations, overlay_container_images}
use tenantplane.Syncplan.Transform.Adopt.Laws.{merge_tolerations_lem}
use tenantplane.Syncplan.Transform.Content.{is_frame, merge_host_content_into_tenant}
use tenantplane.Syncplan.Transform.Content.Laws.{merge_host_content_lem}
use tenantplane.Syncplan.Transform.Strip.{strip_host_allocated_spec_fields}
use tenantplane.Tests.Setting.{ascii, in_memory, ref, config_map, stranger}

build_host_object_lem_example :
    (host : Object) × (build_host_object ref (some config_map) ≡ ok host)
    × (memory.get_name host ≡ host_name ref.name ref.virtual_namespace ref.tenant_cluster)
    × (memory.get_namespace host ≡ sanitize_name ref.tenant_namespace)
    × (memory.get_kind host ≡ memory.get_kind config_map)
    × (lookup "status" host ≡ none)
    × (lookup "data" host ≡ lookup "data" config_map)
build_host_object_lem_example =
    build_host_object_lem memory-IsUnstructured ref config_map refl refl "data" refl

abbrev built :
    (host : Object) × (build_host_object ref (some config_map) ≡ ok host)
    × (memory.get_name host ≡ host_name ref.name ref.virtual_namespace ref.tenant_cluster)
    × (memory.get_namespace host ≡ sanitize_name ref.tenant_namespace)
    × (memory.get_kind host ≡ memory.get_kind config_map)
    × (lookup "status" host ≡ none)
    × (lookup "data" host ≡ lookup "data" config_map)
built = build_host_object_lem memory-IsUnstructured ref config_map refl refl "data" refl

-- The host object of the ConfigMap.
abbrev pub host_config_map : Object
host_config_map = built.0

abbrev pub host_config_map-built : build_host_object ref (some config_map) ≡ ok host_config_map
host_config_map-built = built.1

reverse-build_example :
    reverse_lookup (some host_config_map)
    ≡ some (record {
      tenant_cluster = sanitize_name ref.tenant_cluster;
      tenant_namespace = sanitize_name ref.tenant_namespace;
      virtual_namespace = ref.virtual_namespace;
      kind = memory.get_kind config_map;
      name = ref.name;
    })
reverse-build_example =
    reverse-build memory-IsUnstructured ref config_map host_config_map refl host_config_map-built

labels-build_host_object_example :
    (lookup "app" (entries (memory.get_labels host_config_map)) ≡ (
      if label_kind == "app"
      then some (sanitize_name ref.kind)
      else if label_virtual_namespace == "app"
      then some (sanitize_name ref.virtual_namespace)
      else if label_tenant == "app"
      then some (sanitize_name ref.tenant_cluster)
      else if label_managed_by == "app"
      then some managed_by_value
      else lookup "app" (entries (memory.get_labels config_map))))
    × (lookup "app" (entries (memory.get_annotations host_config_map)) ≡ (
        if annotation_virtual_name == "app"
        then some ref.name
        else if annotation_virtual_namespace == "app"
        then some ref.virtual_namespace
        else lookup "app" (entries (memory.get_annotations config_map))))
labels-build_host_object_example =
    labels-build_host_object memory-IsUnstructured ref config_map host_config_map refl
      host_config_map-built "app"

merge_host_content_lem_example :
    lookup "data" (merge_host_content_into_tenant stranger config_map) ≡ (
      if is_frame "data"
      then lookup "data" config_map
      else lookup "data" (strip_host_allocated_spec_fields (memory.get_kind stranger) stranger))
unfolding strip_host_allocated_spec_fields
merge_host_content_lem_example = merge_host_content_lem stranger config_map refl "data"

abbrev toleration : Text → Value
toleration key = object (field "key" (string key) (field "operator" (string (text "Exists")) end))

abbrev existing_tolerations : List Value
existing_tolerations = toleration (text "node.kubernetes.io/not-ready") ∷ []

abbrev desired_tolerations : List Value
desired_tolerations = toleration (text "gpu") ∷ []

merge_tolerations_lem_example :
    (added : List Value) × (merge_tolerations existing_tolerations desired_tolerations
      ≡ existing_tolerations ++ added)
    × All (λ d. is_present d existing_tolerations ≡ false) added
    × All
        (λ d. is_present d (merge_tolerations existing_tolerations desired_tolerations) ≡ true)
        desired_tolerations
unfolding tenantplane.Object.Values.deep_equal
merge_tolerations_lem_example =
    merge_tolerations_lem existing_tolerations desired_tolerations (refl, tt)

abbrev container : Text → Value
container image = object (field "name" (string (text "main")) (field "image" (string image) end))

overlay_runs :
    overlay_container_images (container (text "a:1") ∷ []) (container (text "a:2") ∷ [])
    ≡ container (text "a:2") ∷ []
unfolding overlay_container_images
overlay_runs = refl
