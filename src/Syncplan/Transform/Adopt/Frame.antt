-- ===== src/Syncplan/Transform/Adopt/Frame.antt =====
-- The adoption of host-allocated fields in internal/syncplan/transform.go writes below `spec` alone.
use tenantplane.Base.{
  String, ◌≡◌, refl, ◌∙◌, Option, none, some, List, [], ◌∷◌, bytes_eq, ◌==◌, Option-cases,
  Bool-cases, inl, inr,
}
use tenantplane.Base.Text.{text}
use tenantplane.Object.{Object, Value, Unstructured}
use tenantplane.Object.Frame.{IsFramed, standing}
use tenantplane.Syncplan.Transform.Adopt.{
  adopt_fields, adopt_service_allocated_fields, adopt_pod_immutable_fields, overlay_spec,
  adopt_host_allocated_fields, or_unchanged,
}
use tenantplane.Syncplan.Transform.Strip.{service_allocated_spec_fields}

module _ ⦃k : Unstructured⦄ (laws : IsFramed k) where
  or_unchanged-standing :
      (o : Object) (written : Option Object)
      → ((o' : Object) → written ≡ some o' → standing k o' ≡ standing k o)
      → standing k (or_unchanged o written) ≡ standing k o
  or_unchanged-standing o none h = refl
  or_unchanged-standing o (some o') h = h o' refl

  field-standing :
      (o o' : Object) (v : Value) (path : List String)
      → k.set_nested_field o v ("spec" ∷ path) ≡ some o'
      → standing k o' ≡ standing k o
  field-standing o o' v path w =
      laws.standing-frame o o' (laws.lookup-set_field "apiVersion" "spec" path o o' v refl w)
        (laws.lookup-set_field "kind" "spec" path o o' v refl w)
        (laws.lookup-set_field "metadata" "spec" path o o' v refl w)

  map-standing :
      (o o' m : Object) (path : List String)
      → k.set_nested_map o m ("spec" ∷ path) ≡ some o'
      → standing k o' ≡ standing k o
  map-standing o o' m path w =
      laws.standing-frame o o' (laws.lookup-set_map "apiVersion" "spec" path o o' m refl w)
        (laws.lookup-set_map "kind" "spec" path o o' m refl w)
        (laws.lookup-set_map "metadata" "spec" path o o' m refl w)

  copied-standing :
      (f : String) (desired : Object) (found : Option Value)
      → standing k (elim found [
        | none ↦ desired
        | some value ↦ or_unchanged desired (k.set_nested_field desired value ("spec" ∷ f ∷ []))
      ])
        ≡ standing k desired
  copied-standing f desired none = refl
  copied-standing f desired (some value) =
      or_unchanged-standing desired _ (λ o' w. field-standing desired o' value (f ∷ []) w)

  adopt_fields-standing :
      (fields : List String) (existing desired : Object)
      → standing k (adopt_fields fields existing desired) ≡ standing k desired
  unfolding adopt_fields
  adopt_fields-standing [] existing desired = refl
  adopt_fields-standing (f ∷ fields) existing desired =
      adopt_fields-standing fields existing _
      ∙ copied-standing f desired (k.nested_field_copy existing ("spec" ∷ f ∷ []))

  spec-standing :
      (o m : Object)
      → standing k (or_unchanged o (k.set_nested_map o m ("spec" ∷ []))) ≡ standing k o
  spec-standing o m =
      or_unchanged-standing o (k.set_nested_map o m ("spec" ∷ []))
        (λ o' w. map-standing o o' m [] w)

  pod-standing :
      (existing desired : Object)
      → standing k (adopt_pod_immutable_fields existing desired) ≡ standing k desired
  unfolding adopt_pod_immutable_fields
  pod-standing existing desired = elim (Option-cases (k.nested_map existing ("spec" ∷ []))) [
    | inl missing ↦ rw (missing, adopt_pod_immutable_fields) refl
    | inr (spec, found) ↦
        let desired_spec : Object = elim (k.nested_map desired ("spec" ∷ [])) [
          | none ↦ []
          | some spec ↦ spec
        ] in
        rw (found, adopt_pod_immutable_fields)
          (spec-standing desired (overlay_spec desired_spec spec))
  ]

  -- The pushed object keeps its place and identity.
  pub adopt-standing :
      (existing desired : Object)
      → standing k (adopt_host_allocated_fields existing desired) ≡ standing k desired
  unfolding adopt_host_allocated_fields adopt_service_allocated_fields
  adopt-standing existing desired = elim (Bool-cases (k.get_kind existing == text "Service")) [
    | inl service ↦
        rw service (adopt_fields-standing service_allocated_spec_fields existing desired)
    | inr other ↦ elim (Bool-cases (k.get_kind existing == text "Pod")) [
      | inl pod ↦ rw (other, pod) (pod-standing existing desired)
      | inr neither ↦ rw (other, neither) refl
    ]
  ]
