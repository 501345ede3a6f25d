-- ===== src/Syncplan/Transform/Build/Laws.antt =====
-- What `build_host_object` puts into the host object, and that `reverse_lookup` gets it back.
use tenantplane.Syncplan.Transform.Build.Stripped.{
  is_touched, metadata_untouched, identity-stripped, lookup-stripped, lookup-stripped_status, named,
  placed, with_labels, with_annotations,
}
use tenantplane.Base.{
  String, ◌≡◌, refl, ◌∙◌, ap, true, false, Option, none, some, ◌==◌, bytes_eq, string_eq,
  if◌then◌else◌, Dict, lookup, arith, lookup-insert, insert_all,
}
use tenantplane.Base.Text.{Text}
use tenantplane.Base.Go.{Unicode}
use tenantplane.Base.Result.{ok}
use tenantplane.Object.{Object, Unstructured}
use tenantplane.Object.Laws.{IsUnstructured, Identity, identity, is_formed}
use tenantplane.Syncplan.Sanitize.{sanitize_name}
use tenantplane.Syncplan.HostName.{host_name}
use tenantplane.Syncplan.Plan.{ResourceRef, explain}
use tenantplane.Syncplan.Plan.Laws.{is_complete, explain_complete}
use tenantplane.Syncplan.Transform.Labels.{
  host_labels, host_annotations, merge_map, label_managed_by, label_tenant, managed_by_value,
  annotation_virtual_namespace, annotation_virtual_name, label_virtual_namespace, label_kind,
}
use tenantplane.Syncplan.Transform.Build.{
  stripped, labelled, annotated, build_host_object, reverse_lookup, entries,
}

lookup-merge_map :
    (j : String) (base : Option (Dict String Text)) (over : Dict String Text)
    → lookup j (merge_map base over) ≡ lookup j (insert_all (entries base) over)
unfolding merge_map
lookup-merge_map j none over = refl
lookup-merge_map j (some base) over = refl

module _ ⦃u : Unicode⦄ ⦃k : Unstructured⦄ (laws : IsUnstructured k) (ref : ResourceRef)
    (tenant : Object) where
  -- The identity that a host object gets.
  abbrev host_identity : Identity
  host_identity = record {
    formed = true;
    kind = k.get_kind tenant;
    name = host_name ref.name ref.virtual_namespace ref.tenant_cluster;
    namespace = sanitize_name ref.tenant_namespace;
    labels = some (merge_map (k.get_labels tenant) (host_labels ref));
    annotations = some (merge_map (k.get_annotations tenant) (host_annotations ref));
  }

  abbrev target_object : Object
  target_object =
      k.set_name (k.set_namespace (stripped ref.kind tenant) (sanitize_name ref.tenant_namespace))
        (host_name ref.name ref.virtual_namespace ref.tenant_cluster)

  abbrev built : Object
  built = annotated ref (labelled ref target_object)

  build_complete : is_complete ref ≡ true → build_host_object ref (some tenant) ≡ ok built
  unfolding build_host_object
  build_complete h = rw (explain_complete ref h)

  identity-target :
      is_formed tenant ≡ true
      → identity k target_object ≡ record (identity k tenant) {
        name = host_name ref.name ref.virtual_namespace ref.tenant_cluster;
        namespace = sanitize_name ref.tenant_namespace;
      }
  identity-target f =
      named laws _ _ _ (placed laws _ _ _ (identity-stripped laws ref.kind tenant) f) f

  identity-built : is_formed tenant ≡ true → identity k built ≡ host_identity
  unfolding annotated labelled
  identity-built f =
      let e = identity-target f in
      let labels = merge_map (k.get_labels target_object) (host_labels ref) in
      let e1 = with_labels laws target_object _ labels e f in
      let annotations =
        merge_map (k.get_annotations (k.set_labels target_object labels)) (host_annotations ref) in
      with_annotations laws (k.set_labels target_object labels) _ annotations e1 f ∙ (λ i. record {
        formed = f i;
        kind = k.get_kind tenant;
        name = host_name ref.name ref.virtual_namespace ref.tenant_cluster;
        namespace = sanitize_name ref.tenant_namespace;
        labels = some (merge_map ((e i).labels) (host_labels ref));
        annotations = some (merge_map ((e1 i).annotations) (host_annotations ref));
      })

  lookup-built :
      (j : String)
      → (j == "metadata") ≡ false
      → lookup j built ≡ lookup j (stripped ref.kind tenant)
  unfolding annotated labelled
  lookup-built j h =
      laws.lookup-set_annotations j _ _ h
      ∙ laws.lookup-set_labels j _ _ h
      ∙ laws.lookup-set_name j _ _ h
      ∙ laws.lookup-set_namespace j _ _ h

  -- For a complete reference and a tenant object with proper metadata there is a host object. It has
  -- the planned name and namespace, and the kind of the tenant object; it has no status; and every
  -- other field at the top is the tenant's, but for metadata and for the spec of a Service.
  pub build_host_object_lem :
      is_complete ref ≡ true
      → is_formed tenant ≡ true
      → (j : String) → is_touched ref.kind j ≡ false
      → (host : Object) × (build_host_object ref (some tenant) ≡ ok host)
        × (k.get_name host ≡ host_name ref.name ref.virtual_namespace ref.tenant_cluster)
        × (k.get_namespace host ≡ sanitize_name ref.tenant_namespace)
        × (k.get_kind host ≡ k.get_kind tenant)
        × (lookup "status" host ≡ none)
        × (lookup j host ≡ lookup j tenant)
  build_host_object_lem h f j untouched =
      let e = identity-built f in
      (
        built,
        build_complete h,
        ap (λ (i : Identity). i.name) e,
        ap (λ (i : Identity). i.namespace) e,
        ap (λ (i : Identity). i.kind) e,
        lookup-built "status" refl ∙ lookup-stripped_status laws ref.kind tenant,
        lookup-built j (metadata_untouched j ref.kind untouched)
            ∙ lookup-stripped laws j ref.kind tenant untouched,
      )

  build-eq-ok : (host : Object) → build_host_object ref (some tenant) ≡ ok host → host ≡ built
  unfolding build_host_object explain
  build-eq-ok host h = ground arith

  identity-host :
      (host : Object)
      → is_formed tenant ≡ true
      → build_host_object ref (some tenant) ≡ ok host
      → identity k host ≡ host_identity
  identity-host host f h = ap (identity k) (build-eq-ok host h) ∙ identity-built f

  lookup-host_labels :
      (j : String) (base : Dict String Text)
      → lookup j (insert_all base (host_labels ref)) ≡ (
          if label_kind == j
          then some (sanitize_name ref.kind)
          else if label_virtual_namespace == j
          then some (sanitize_name ref.virtual_namespace)
          else if label_tenant == j
          then some (sanitize_name ref.tenant_cluster)
          else if label_managed_by == j
          then some managed_by_value
          else lookup j base)
  unfolding host_labels
  lookup-host_labels j base = simp lookup-insert

  lookup-host_annotations :
      (j : String) (base : Dict String Text)
      → lookup j (insert_all base (host_annotations ref)) ≡ (
          if annotation_virtual_name == j
          then some ref.name
          else if annotation_virtual_namespace == j
          then some ref.virtual_namespace
          else lookup j base)
  unfolding host_annotations
  lookup-host_annotations j base = simp lookup-insert

  -- The host object that was built for a tenant object with proper metadata has the four labels of
  -- the reverse mapping and the two annotations, and keeps every other label and annotation of the
  -- tenant object.
  pub labels-build_host_object :
      (host : Object)
      → is_formed tenant ≡ true
      → build_host_object ref (some tenant) ≡ ok host
      → (j : String)
      → (lookup j (entries (k.get_labels host)) ≡ (
          if label_kind == j
          then some (sanitize_name ref.kind)
          else if label_virtual_namespace == j
          then some (sanitize_name ref.virtual_namespace)
          else if label_tenant == j
          then some (sanitize_name ref.tenant_cluster)
          else if label_managed_by == j
          then some managed_by_value
          else lookup j (entries (k.get_labels tenant))))
        × (lookup j (entries (k.get_annotations host)) ≡ (
            if annotation_virtual_name == j
            then some ref.name
            else if annotation_virtual_namespace == j
            then some ref.virtual_namespace
            else lookup j (entries (k.get_annotations tenant))))
  labels-build_host_object host f h j =
      let e = identity-host host f h in
      (
        ap (λ (i : Identity). lookup j (entries i.labels)) e
            ∙ lookup-merge_map j (k.get_labels tenant) (host_labels ref)
            ∙ lookup-host_labels j (entries (k.get_labels tenant)),
        ap (λ (i : Identity). lookup j (entries i.annotations)) e
            ∙ lookup-merge_map j (k.get_annotations tenant) (host_annotations ref)
            ∙ lookup-host_annotations j (entries (k.get_annotations tenant)),
      )

  -- What is read back from the host object that was built for a tenant object with proper metadata:
  -- the tenant and its namespace as they were sanitized, and the virtual namespace and the name as
  -- they were.
  pub reverse-build :
      (host : Object)
      → is_formed tenant ≡ true
      → build_host_object ref (some tenant) ≡ ok host
      → reverse_lookup (some host)
        ≡ some (record {
          tenant_cluster = sanitize_name ref.tenant_cluster;
          tenant_namespace = sanitize_name ref.tenant_namespace;
          virtual_namespace = ref.virtual_namespace;
          kind = k.get_kind tenant;
          name = ref.name;
        })
  unfolding reverse_lookup
  reverse-build host f h =
      let e = identity-host host f h in
      let managed : lookup label_managed_by (entries (k.get_labels host)) ≡ some managed_by_value =
        (labels-build_host_object host f h label_managed_by).0 in
      let tenant_label : lookup label_tenant (entries (k.get_labels host))
          ≡ some (sanitize_name ref.tenant_cluster) =
        (labels-build_host_object host f h label_tenant).0 in
      let namespace_mark : lookup annotation_virtual_namespace (entries (k.get_annotations host))
          ≡ some ref.virtual_namespace =
        (labels-build_host_object host f h annotation_virtual_namespace).1 in
      let name_mark : lookup annotation_virtual_name (entries (k.get_annotations host))
          ≡ some ref.name =
        (labels-build_host_object host f h annotation_virtual_name).1 in
      rw (
        managed,
        tenant_label,
        namespace_mark,
        name_mark,
        ap (λ (i : Identity). i.namespace) e,
        ap (λ (i : Identity). i.kind) e,
      )
