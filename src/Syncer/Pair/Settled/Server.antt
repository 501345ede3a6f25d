-- ===== src/Syncer/Pair/Settled/Server.antt =====
-- What the pairs of internal/syncer/engine.go rely on of the host's API server, and what a pushed or
-- compared object has in common with the one it is made from.
use tenantplane.Base.{
  ◌≡◌, refl, ap, ◌∙◌, not, ◌&&◌, Option, none, some, [], ◌∷◌, ◌==◌, text_at, bytes_eq, string_eq,
  if◌then◌else◌,
}
use tenantplane.Base.Cases.{if-holds}
use tenantplane.Base.Text.{text, is_empty}
use tenantplane.Base.Result.{ok}
use tenantplane.Object.{Object, Unstructured}
use tenantplane.Object.Laws.{IsUnstructured, Identity}
use tenantplane.Syncplan.Transform.Labels.{
  label_managed_by, label_tenant, managed_by_value, annotation_virtual_namespace,
  annotation_virtual_name,
}
use tenantplane.Object.Frame.{IsFramed, standing}
use tenantplane.Syncplan.Plan.{ResourceRef}
use tenantplane.Syncplan.Transform.Build.{reverse_lookup, entries}
use tenantplane.Syncplan.Transform.Adopt.Frame.{adopt-standing}
use tenantplane.Syncer.{Cluster, Clients, Engine}
use tenantplane.Syncer.Pair.{comparable, pushed}

-- An API server without concurrent writers: it reads back what it answered to a write, and it keeps
-- the labels and annotations that it is given.
pub record ReadsBack (c : Cluster) (k : Unstructured) : Type 0 where
  pub create_reads :
      (s : c.State) (o written : Object)
      → (c.create_object s o).0 ≡ ok written
      → c.get (c.create_object s o).1 (k.group_version_kind o) (k.get_namespace o) (k.get_name o)
        ≡ ok written
  pub create_keeps :
      (s : c.State) (o written : Object)
      → (c.create_object s o).0 ≡ ok written
      → reverse_lookup ⦃k = k⦄ (some written) ≡ reverse_lookup ⦃k = k⦄ (some o)
  pub update_reads :
      (s : c.State) (o written : Object)
      → (c.update_object s o).0 ≡ ok written
      → c.get (c.update_object s o).1 (k.group_version_kind o) (k.get_namespace o) (k.get_name o)
        ≡ ok written
  pub update_keeps :
      (s : c.State) (o written : Object)
      → (c.update_object s o).0 ≡ ok written
      → reverse_lookup ⦃k = k⦄ (some written) ≡ reverse_lookup ⦃k = k⦄ (some o)

-- ReverseLookup, of what it reads.
source_of : Identity → Option ResourceRef
source_of d =
    let labels = entries d.labels in
    let annotations = entries d.annotations in
    if text_at label_managed_by labels == managed_by_value
    then some (record {
      tenant_cluster = text_at label_tenant labels;
      tenant_namespace = d.namespace;
      virtual_namespace = text_at annotation_virtual_namespace annotations;
      kind = d.kind;
      name = text_at annotation_virtual_name annotations;
    })
    else none

module _ (env : Clients) ⦃k : Unstructured⦄ where
  pub reverse_lookup-standing :
      (a b : Object)
      → standing k a ≡ standing k b
      → reverse_lookup (some a) ≡ reverse_lookup (some b)
  unfolding reverse_lookup source_of
  reverse_lookup-standing a b same = ap (λ st. source_of st.identity) same

  pub pushed-standing :
      (laws : IsFramed k) (existing host : Object)
      → standing k (pushed env existing host) ≡ standing k host
  unfolding pushed
  pushed-standing laws existing host =
      adopt-standing laws existing _ ∙ laws.standing-set_resource_version host _

  -- The runtime class is no part of the version.
  pub comparable-version :
      (laws : IsUnstructured k) (framed : IsFramed k) (e : Engine) (ref : ResourceRef)
      (existing : Object)
      → k.get_resource_version (comparable env e ref existing) ≡ k.get_resource_version existing
  unfolding comparable
  comparable-version laws framed e ref existing =
      if-holds (λ o. k.get_resource_version o ≡ k.get_resource_version existing)
        (ref.kind == text "Pod" && not (is_empty e.required_runtime_class_name))
        (framed.resource_version-frame existing _
          (laws.lookup-remove "metadata" "spec" ("runtimeClassName" ∷ []) existing refl))
        refl
