-- ===== src/Object/Frame.antt =====
-- What else the program relies on of package unstructured: the accessors read an object's apiVersion,
-- kind and metadata alone, and a write below another field leaves those alone.
use tenantplane.Base.{String, ◌≡◌, false, some, List, ◌∷◌, lookup, ◌==◌, string_eq}
use tenantplane.Base.Text.{Text}
use tenantplane.Object.{Object, Value, Gvk, Unstructured}
use tenantplane.Object.Laws.{Identity, identity}

-- What is the same of two objects that are kept at one place for one source.
pub record Standing : Type 0 where
  pub gvk : Gvk
  pub identity : Identity

abbrev pub standing : Unstructured → Object → Standing
standing k o = record { gvk = k.group_version_kind o; identity = identity k o }

pub record IsFramed (k : Unstructured) : Type 0 where
  pub standing-frame :
      (o o' : Object)
      → lookup "apiVersion" o' ≡ lookup "apiVersion" o
      → lookup "kind" o' ≡ lookup "kind" o
      → lookup "metadata" o' ≡ lookup "metadata" o
      → standing k o' ≡ standing k o
  pub gvk-frame :
      (o o' : Object)
      → lookup "apiVersion" o' ≡ lookup "apiVersion" o
      → lookup "kind" o' ≡ lookup "kind" o
      → k.group_version_kind o' ≡ k.group_version_kind o
  pub resource_version-frame :
      (o o' : Object)
      → lookup "metadata" o' ≡ lookup "metadata" o
      → k.get_resource_version o' ≡ k.get_resource_version o
  pub metadata-frame :
      (o o' : Object)
      → lookup "metadata" o' ≡ lookup "metadata" o
      → (k.get_labels o' ≡ k.get_labels o) × (k.get_annotations o' ≡ k.get_annotations o)
  pub lookup-set_gvk :
      (o : Object) (gvk : Gvk)
      → lookup "metadata" (k.set_group_version_kind o gvk) ≡ lookup "metadata" o
  pub standing-set_resource_version :
      (o : Object) (version : Text) → standing k (k.set_resource_version o version) ≡ standing k o
  pub lookup-set_field :
      (s f : String) (path : List String) (o o' : Object) (v : Value)
      → s == f ≡ false
      → k.set_nested_field o v (f ∷ path) ≡ some o'
      → lookup s o' ≡ lookup s o
  pub lookup-set_map :
      (s f : String) (path : List String) (o o' m : Object)
      → s == f ≡ false
      → k.set_nested_map o m (f ∷ path) ≡ some o'
      → lookup s o' ≡ lookup s o
