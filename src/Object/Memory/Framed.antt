-- ===== src/Object/Memory/Framed.antt =====
-- The laws of Object/Frame for the implementation on plain maps.
use tenantplane.Base.{
  String, ap, false, ◌≡◌, refl, [], ◌∙◌, lookup, insert, lookup-insert, Bool-cases, inl, inr, sym,
  string_eq,
}
use tenantplane.Base.Text.{Text}
use tenantplane.Object.{Object, Value, string, object, of_object, as_text}
use tenantplane.Object.Laws.{identity, is_formed}
use tenantplane.Object.Frame.{IsFramed, standing}
use tenantplane.Object.Memory.{memory, metadata, map_of, set_metadata, texts_of}
use tenantplane.Object.Memory.Writes.{
  same_identity, identity-set, lookup-set_metadata, lookup-set_path,
}

standing_lem :
    (o o' : Object)
    → lookup "apiVersion" o' ≡ lookup "apiVersion" o
    → lookup "kind" o' ≡ lookup "kind" o
    → identity memory o' ≡ identity memory o
    → standing memory o' ≡ standing memory o
standing_lem o o' p q same = λ i. record {
  gvk = record { group = []; version = as_text (p i); kind = as_text (q i) };
  identity = same i;
}

unwritten : (f : String) (o : Object) (v : Value) → is_formed o ≡ false → set_metadata o f v ≡ o
unwritten f o v odd = rw odd refl

standing-set_version :
    (o : Object) (version : Text)
    → standing memory (memory.set_resource_version o version) ≡ standing memory o
standing-set_version o version = elim (Bool-cases (is_formed o)) [
  | inl h ↦
      let v : Value = string version in
      standing_lem o (set_metadata o "resourceVersion" v)
        (lookup-set_metadata "apiVersion" "resourceVersion" o v refl)
        (lookup-set_metadata "kind" "resourceVersion" o v refl)
        (identity-set "resourceVersion" o v h ∙ (λ i. record {
          formed = sym h i;
          kind = as_text (lookup "kind" o);
          name = as_text (lookup-insert "resourceVersion" "name" v (metadata o) i);
          namespace = as_text (lookup-insert "resourceVersion" "namespace" v (metadata o) i);
          labels = texts_of (lookup-insert "resourceVersion" "labels" v (metadata o) i);
          annotations = texts_of (lookup-insert "resourceVersion" "annotations" v (metadata o) i);
        }))
  | inr odd ↦ ap (standing memory) (unwritten "resourceVersion" o (string version) odd)
]

pub memory-IsFramed : IsFramed memory
memory-IsFramed = record {
  standing-frame = λ o o' p q r. standing_lem o o' p q (same_identity o o' r q);
  gvk-frame = λ o o' p q i. record { group = []; version = as_text (p i); kind = as_text (q i) };
  resource_version-frame = λ o o' r i. as_text (lookup "resourceVersion" (map_of (r i)));
  metadata-frame = λ o o' r. (
    λ i. texts_of (lookup "labels" (map_of (r i))),
    λ i. texts_of (lookup "annotations" (map_of (r i))),
  );
  lookup-set_gvk = λ o gvk.
      lookup-insert "apiVersion" "metadata" (string gvk.version) (insert "kind" (string gvk.kind) o)
      ∙ lookup-insert "kind" "metadata" (string gvk.kind) o;
  standing-set_resource_version = standing-set_version;
  lookup-set_field = λ s f path o o' v h w. lookup-set_path s f path o o' v h w;
  lookup-set_map = λ s f path o o' m h w. lookup-set_path s f path o o' (object (of_object m)) h w;
}
