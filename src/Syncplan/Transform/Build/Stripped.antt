-- ===== src/Syncplan/Transform/Build/Stripped.antt =====
-- What stripping leaves of an object's identity and fields, and what one write makes of an identity.
use tenantplane.Base.{
  String, ◌≡◌, refl, ◌⊎◌, ◌∙◌, ap, Bool, true, false, ◌||◌, ◌&&◌, none, some, List, [], ◌∷◌, ◌==◌,
  bytes_eq, string_eq, Dict, lookup, arith, Bool-cases, Option-cases, inl, inr, All, map,
}
use tenantplane.Base.Text.{Text, text}
use tenantplane.Object.{Object, Value, Unstructured}
use tenantplane.Object.Laws.{IsUnstructured, Identity, identity, is_identifying, is_head}
use tenantplane.Syncplan.Transform.Strip.{
  remove_all, strip_host_allocated_spec_fields, service_allocated_spec_fields, strip_node_ports,
  without_node_port,
}
use tenantplane.Syncplan.Transform.Build.{stripped, host_managed_metadata_fields}

host_managed_not_identifying : All (λ f. is_identifying f ≡ false) host_managed_metadata_fields
host_managed_not_identifying =
    (refl, (refl, (refl, (refl, (refl, (refl, (refl, (refl, (refl, (refl, tt))))))))))

-- The fields of an object of this kind that a host object does not take over as they are.
abbrev pub is_touched : Text → String → Bool
is_touched kind j = j == "metadata" || j == "status" || kind == text "Service" && j == "spec"

status_untouched : (j : String) (kind : Text) → is_touched kind j ≡ false → (j == "status") ≡ false
status_untouched j kind h = ground arith

pub metadata_untouched :
    (j : String) (kind : Text) → is_touched kind j ≡ false → (j == "metadata") ≡ false
metadata_untouched j kind h = ground arith

spec_untouched :
    (j : String) (kind : Text)
    → is_touched kind j ≡ false
    → (kind == text "Service") ≡ true
    → (j == "spec") ≡ false
spec_untouched j kind h s = ground arith

module _ ⦃k : Unstructured⦄ (laws : IsUnstructured k) where
  identity-remove_all_metadata :
      (fields : List String) (o : Object)
      → All (λ f. is_identifying f ≡ false) fields
      → identity k (remove_all "metadata" fields o) ≡ identity k o
  identity-remove_all_metadata [] o h = refl
  identity-remove_all_metadata (f ∷ fields) o h =
      identity-remove_all_metadata fields (k.remove_nested_field o ("metadata" ∷ f ∷ [])) h.1
      ∙ laws.identity-remove_metadata o f h.0

  identity-remove_all :
      (s : String) (fields : List String) (o : Object)
      → is_head s ≡ false
      → identity k (remove_all s fields o) ≡ identity k o
  identity-remove_all s [] o h = refl
  identity-remove_all s (f ∷ fields) o h =
      identity-remove_all s fields (k.remove_nested_field o (s ∷ f ∷ [])) h
      ∙ laws.identity-remove o s (f ∷ []) h

  lookup-remove_all :
      (j s : String) (fields : List String) (o : Object)
      → j == s ≡ false
      → lookup j (remove_all s fields o) ≡ lookup j o
  lookup-remove_all j s [] o h = refl
  lookup-remove_all j s (f ∷ fields) o h =
      lookup-remove_all j s fields (k.remove_nested_field o (s ∷ f ∷ [])) h
      ∙ laws.lookup-remove j s (f ∷ []) o h

  -- The ports are rewritten, or the object stays.
  strip_node_ports-cases :
      (o : Object)
      → (strip_node_ports o ≡ o)
        ⊎ ((vs : List Value) × (k.set_nested_slice o vs ("spec" ∷ "ports" ∷ [])
              ≡ some (strip_node_ports o)))
  unfolding strip_node_ports
  strip_node_ports-cases o = elim (Option-cases (k.nested_slice o ("spec" ∷ "ports" ∷ []))) [
    | inl missing ↦ inl (ground arith)
    | inr (ports, found) ↦
        elim (Option-cases
          (k.set_nested_slice o (map without_node_port ports) ("spec" ∷ "ports" ∷ []))) [
            | inl refused ↦ inl (ground arith)
            | inr (o', written) ↦ inr (map without_node_port ports, ground arith)
          ]
  ]

  identity-strip_node_ports : (o : Object) → identity k (strip_node_ports o) ≡ identity k o
  identity-strip_node_ports o = elim (strip_node_ports-cases o) [
    | inl same ↦ ap (identity k) same
    | inr (vs, written) ↦ laws.identity-set_slice o _ vs "spec" ("ports" ∷ []) refl written
  ]

  lookup-strip_node_ports :
      (j : String) (o : Object) → j == "spec" ≡ false → lookup j (strip_node_ports o) ≡ lookup j o
  lookup-strip_node_ports j o h = elim (strip_node_ports-cases o) [
    | inl same ↦ ap (lookup j) same
    | inr (vs, written) ↦ laws.lookup-set_slice j "spec" ("ports" ∷ []) o _ vs h written
  ]

  pub identity-strip :
      (kind : Text) (o : Object)
      → identity k (strip_host_allocated_spec_fields kind o) ≡ identity k o
  unfolding strip_host_allocated_spec_fields
  identity-strip kind o = elim (Bool-cases (kind == text "Service")) [
    | inl service ↦ rw service (
        identity-strip_node_ports (remove_all "spec" service_allocated_spec_fields o)
        ∙ identity-remove_all "spec" service_allocated_spec_fields o refl)
    | inr plain ↦ rw plain
  ]

  pub lookup-strip :
      (j : String) (kind : Text) (o : Object)
      → j == "spec" ≡ false
      → lookup j (strip_host_allocated_spec_fields kind o) ≡ lookup j o
  unfolding strip_host_allocated_spec_fields
  lookup-strip j kind o h = elim (Bool-cases (kind == text "Service")) [
    | inl service ↦ rw service (
        lookup-strip_node_ports j (remove_all "spec" service_allocated_spec_fields o) h
        ∙ lookup-remove_all j "spec" service_allocated_spec_fields o h)
    | inr plain ↦ rw plain
  ]

  lookup-strip_untouched :
      (j : String) (kind : Text) (o : Object)
      → is_touched kind j ≡ false
      → lookup j (strip_host_allocated_spec_fields kind o) ≡ lookup j o
  lookup-strip_untouched j kind o h = elim (Bool-cases (kind == text "Service")) [
    | inl service ↦ lookup-strip j kind o (spec_untouched j kind h service)
    | inr plain ↦ unfold strip_host_allocated_spec_fields in rw plain
  ]

  pub identity-stripped : (kind : Text) (o : Object) → identity k (stripped kind o) ≡ identity k o
  unfolding stripped
  identity-stripped kind o =
      identity-strip kind (
        k.remove_nested_field (remove_all "metadata" host_managed_metadata_fields o)
          ("status" ∷ []))
      ∙ laws.identity-remove (remove_all "metadata" host_managed_metadata_fields o) "status" [] refl
      ∙ identity-remove_all_metadata host_managed_metadata_fields o host_managed_not_identifying

  pub lookup-stripped :
      (j : String) (kind : Text) (o : Object)
      → is_touched kind j ≡ false
      → lookup j (stripped kind o) ≡ lookup j o
  unfolding stripped
  lookup-stripped j kind o h =
      lookup-strip_untouched j kind _ h
      ∙ laws.lookup-remove j "status" [] _ (status_untouched j kind h)
      ∙ lookup-remove_all j "metadata" host_managed_metadata_fields o (metadata_untouched j kind h)

  pub lookup-stripped_status : (kind : Text) (o : Object) → lookup "status" (stripped kind o) ≡ none
  unfolding stripped
  lookup-stripped_status kind o =
      lookup-strip "status" kind _ refl ∙ laws.lookup-remove_self "status" _

  -- One write to an object whose identity is known.
  pub named :
      (o : Object) (i : Identity) (n : Text)
      → identity k o ≡ i
      → i.formed ≡ true
      → identity k (k.set_name o n) ≡ record i { name = n }
  named o i n e f =
      laws.identity-set_name o n (ap (λ (j : Identity). j.formed) e ∙ f)
      ∙ ap (λ (j : Identity). record j { name = n }) e

  pub placed :
      (o : Object) (i : Identity) (n : Text)
      → identity k o ≡ i
      → i.formed ≡ true
      → identity k (k.set_namespace o n) ≡ record i { namespace = n }
  placed o i n e f =
      laws.identity-set_namespace o n (ap (λ (j : Identity). j.formed) e ∙ f)
      ∙ ap (λ (j : Identity). record j { namespace = n }) e

  pub with_labels :
      (o : Object) (i : Identity) (m : Dict String Text)
      → identity k o ≡ i
      → i.formed ≡ true
      → identity k (k.set_labels o m) ≡ record i { labels = some m }
  with_labels o i m e f =
      laws.identity-set_labels o m (ap (λ (j : Identity). j.formed) e ∙ f)
      ∙ ap (λ (j : Identity). record j { labels = some m }) e

  pub with_annotations :
      (o : Object) (i : Identity) (m : Dict String Text)
      → identity k o ≡ i
      → i.formed ≡ true
      → identity k (k.set_annotations o m) ≡ record i { annotations = some m }
  with_annotations o i m e f =
      laws.identity-set_annotations o m (ap (λ (j : Identity). j.formed) e ∙ f)
      ∙ ap (λ (j : Identity). record j { annotations = some m }) e
