-- ===== src/Syncplan/Transform/Content/Laws.antt =====
-- What `MergeHostContentIntoTenant` leaves in the tenant object.
use tenantplane.Base.{
  String, ◌≡◌, refl, Bool, true, false, Option, none, some, [], ◌∷◌, ◌==◌, ◌||◌, string_eq,
  if◌then◌else◌, lookup, lookup-insert, lookup-erase, insert, erase, insert_all, arith,
}
use tenantplane.Object.{Object, Value, Unstructured}
use tenantplane.Syncplan.Transform.Strip.{strip_host_allocated_spec_fields}
use tenantplane.Syncplan.Transform.Content.{
  is_frame, content_from, erase_all, merge_host_content_into_tenant,
}

abbrev is_key : String → Object → Bool
is_key j [] = false
is_key j ((i, v) ∷ o) = i == j || is_key j o

-- No key is there twice, as in every map of Go.
abbrev pub is_map : Object → Bool
is_map [] = true
is_map ((i, v) ∷ o) = if is_key i o then false else is_map o

lookup-missing : (j : String) (o : Object) → is_key j o ≡ false → lookup j o ≡ none
lookup-missing j [] h = refl
lookup-missing j ((i, v) ∷ o) h = ground (arith, lookup-missing j o)

lookup-content_from :
    (j : String) (o : Object)
    → lookup j (content_from o) ≡ (if is_frame j then none else lookup j o)
unfolding content_from
lookup-content_from j [] = ground arith
lookup-content_from j ((i, v) ∷ o) = ground (arith, string_eq.beq_iff i j, lookup-content_from j o)

lookup-erase_all :
    (j : String) (keys o : Object)
    → lookup j (erase_all keys o)
      ≡ elim (lookup j keys) as (λ _. Option Value) [ none ↦ lookup j o | some v ↦ none ]
unfolding erase_all
lookup-erase_all j [] o = refl
lookup-erase_all j ((i, v) ∷ keys) o =
    ground (arith, lookup-erase_all j keys (erase i o), lookup-erase i j o)

is_key-content_from :
    (j : String) (o : Object) → is_key j o ≡ false → is_key j (content_from o) ≡ false
unfolding content_from
is_key-content_from j [] h = refl
is_key-content_from j ((i, v) ∷ o) h = ground (arith, is_key-content_from j o)

is_map-content_from : (o : Object) → is_map o ≡ true → is_map (content_from o) ≡ true
unfolding content_from
is_map-content_from [] h = refl
is_map-content_from ((i, v) ∷ o) h = ground (arith, is_map-content_from o, is_key-content_from i o)

lookup-insert_all :
    (j : String) (over base : Object)
    → is_map over ≡ true
    → lookup j (insert_all base over)
      ≡ elim (lookup j over) as (λ _. Option Value) [ none ↦ lookup j base | some v ↦ some v ]
lookup-insert_all j [] base h = refl
lookup-insert_all j ((i, v) ∷ over) base h = ground (
  arith,
  string_eq.beq_iff i j,
  lookup-insert_all j over (insert i v base),
  lookup-insert i j v base,
  lookup-missing i over,
)

module _ ⦃k : Unstructured⦄ where
  -- The merged object has the frame of the tenant object (apiVersion, kind, metadata and status),
  -- and its content is that of the host object without what the host allocates, where that has no
  -- key twice: a field that the host object lacks is gone.
  pub merge_host_content_lem :
      (host_obj tenant_obj : Object)
      → is_map (strip_host_allocated_spec_fields (k.get_kind host_obj) host_obj) ≡ true
      → (j : String)
      → lookup j (merge_host_content_into_tenant host_obj tenant_obj) ≡ (
          if is_frame j
          then lookup j tenant_obj
          else lookup j (strip_host_allocated_spec_fields (k.get_kind host_obj) host_obj))
  unfolding merge_host_content_into_tenant
  merge_host_content_lem host_obj tenant_obj h j =
      let host_copy = strip_host_allocated_spec_fields (k.get_kind host_obj) host_obj in
      ground (
        arith,
        lookup-insert_all j (content_from host_copy)
            (erase_all (content_from tenant_obj) tenant_obj) (is_map-content_from host_copy h),
        lookup-erase_all j (content_from tenant_obj) tenant_obj,
        lookup-content_from j host_copy,
        lookup-content_from j tenant_obj,
      )
