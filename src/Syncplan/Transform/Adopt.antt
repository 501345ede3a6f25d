-- ===== src/Syncplan/Transform/Adopt.antt =====
-- `AdoptHostAllocatedFields` of internal/syncplan/transform.go and what it calls. The engine never
-- passes a nil object, for which the function does nothing.
pub mod Laws
pub mod Frame
use tenantplane.Base.{
  String, Bool, true, false, ◌||◌, Option, none, some, List, [], ◌∷◌, ◌++◌, ◌==◌, bytes_eq,
  string_eq, if◌then◌else◌, Dict, lookup, insert, map,
}
use tenantplane.Base.Text.{Text, text, is_empty}
use tenantplane.Object.{
  Object, Value, int, object, as_map, as_text, of_object, deep_equal, Unstructured,
}
use tenantplane.Syncplan.Transform.Strip.{service_allocated_spec_fields}

-- _ = SetNestedX(o, …): where the write fails the object stays.
abbrev or_unchanged : Object → Option Object → Object
or_unchanged o none = o
or_unchanged o (some o') = o'

-- The images of the desired containers, by name.
abbrev desired_image : Dict Text Value → Object → Dict Text Value
desired_image images m =
    let name = as_text (lookup "name" m) in
    if is_empty name
    then images
    else elim (lookup "image" m) [ none ↦ images | some image ↦ insert name image images ]

unfoldable pub desired_images : Dict Text Value → List Value → Dict Text Value
desired_images images [] = images
desired_images images (c ∷ desired) =
    desired_images (elim (as_map c) [ none ↦ images | some m ↦ desired_image images m ]) desired

unfoldable pub overlay_image : Dict Text Value → Value → Value
overlay_image images c = elim (as_map c) [
  | none ↦ c
  | some m ↦ elim (lookup (as_text (lookup "name" m)) images) [
    | none ↦ object (of_object m)
    | some image ↦ object (of_object (insert "image" image m))
  ]
]

unfoldable pub overlay_container_images : List Value → List Value → List Value
unfolding desired_images overlay_image
overlay_container_images existing desired = map (overlay_image (desired_images [] desired)) existing

-- for _, e := range existing { if reflect.DeepEqual(d, e) … }
unfoldable pub is_present : Value → List Value → Bool
is_present d [] = false
is_present d (e ∷ existing) = deep_equal d e || is_present d existing

-- The desired tolerations that the existing ones lack.
unfoldable pub added_tolerations : List Value → List Value → List Value
unfolding is_present
added_tolerations existing [] = []
added_tolerations existing (d ∷ desired) =
    let rest = added_tolerations existing desired in
    if is_present d existing then rest else d ∷ rest

unfoldable pub merge_tolerations : List Value → List Value → List Value
unfolding added_tolerations
merge_tolerations existing desired = existing ++ added_tolerations existing desired

module _ ⦃k : Unstructured⦄ where
  -- The lines for "containers" and for "initContainers".
  overlay_section : String → Object → Object → Object
  overlay_section section desired_spec existing_spec =
      elim (k.nested_slice desired_spec (section ∷ [])) [
        | none ↦ existing_spec
        | some containers ↦ elim (k.nested_slice existing_spec (section ∷ [])) [
          | none ↦ existing_spec
          | some ec ↦ or_unchanged existing_spec (
              k.set_nested_slice existing_spec (overlay_container_images ec containers)
                (section ∷ []))
        ]
      ]

  overlay_deadline : Object → Object → Object
  overlay_deadline desired_spec existing_spec =
      elim (k.nested_int64 desired_spec ("activeDeadlineSeconds" ∷ [])) [
        | none ↦ existing_spec
        | some v ↦
            or_unchanged existing_spec
              (k.set_nested_field existing_spec (int v) ("activeDeadlineSeconds" ∷ []))
      ]

  overlay_tolerations : Object → Object → Object
  overlay_tolerations desired_spec existing_spec =
      elim (k.nested_slice desired_spec ("tolerations" ∷ [])) [
        | none ↦ existing_spec
        | some tolerations ↦
            let existing : List Value = elim (k.nested_slice existing_spec ("tolerations" ∷ [])) [
              | none ↦ []
              | some ts ↦ ts
            ] in
            or_unchanged existing_spec (
              k.set_nested_slice existing_spec (merge_tolerations existing tolerations)
                ("tolerations" ∷ []))
      ]

  -- What the update of a pod keeps of the live spec, and what it takes from the desired one.
  unfoldable pub overlay_spec : Object → Object → Object
  unfolding overlay_section overlay_deadline overlay_tolerations
  overlay_spec desired_spec existing_spec = overlay_tolerations desired_spec (
      overlay_deadline desired_spec (
        overlay_section "initContainers" desired_spec
          (overlay_section "containers" desired_spec existing_spec)))

  unfoldable pub adopt_pod_immutable_fields : Object → Object → Object
  unfolding overlay_spec
  adopt_pod_immutable_fields existing desired = elim (k.nested_map existing ("spec" ∷ [])) [
    | none ↦ desired
    | some existing_spec ↦
        let desired_spec : Object = elim (k.nested_map desired ("spec" ∷ [])) [
          | none ↦ []
          | some spec ↦ spec
        ] in
        or_unchanged desired
          (k.set_nested_map desired (overlay_spec desired_spec existing_spec) ("spec" ∷ []))
  ]

  adopt_fields : List String → Object → Object → Object
  adopt_fields [] existing desired = desired
  adopt_fields (f ∷ fields) existing desired =
      adopt_fields fields existing (elim (k.nested_field_copy existing ("spec" ∷ f ∷ [])) [
        | none ↦ desired
        | some value ↦ or_unchanged desired (k.set_nested_field desired value ("spec" ∷ f ∷ []))
      ])

  unfoldable pub adopt_service_allocated_fields : Object → Object → Object
  unfolding adopt_fields
  adopt_service_allocated_fields = adopt_fields service_allocated_spec_fields

  unfoldable pub adopt_host_allocated_fields : Object → Object → Object
  unfolding adopt_service_allocated_fields adopt_pod_immutable_fields
  adopt_host_allocated_fields existing desired =
      if k.get_kind existing == text "Service"
      then adopt_service_allocated_fields existing desired
      else if k.get_kind existing == text "Pod"
      then adopt_pod_immutable_fields existing desired
      else desired
