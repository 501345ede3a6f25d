-- ===== src/Object/Laws.antt =====
-- What the program relies on of package unstructured: how the accessors of the metadata answer each
-- other, and which fields a write leaves alone. The writes of metadata are for objects whose
-- metadata is a map, as the API server serves them.
use tenantplane.Base.{
  String, ◌≡◌, Bool, true, false, ◌||◌, Option, none, some, Dict, List, [], ◌∷◌, lookup, ◌==◌,
  string_eq,
}
use tenantplane.Base.Text.{Text}
use tenantplane.Object.{Object, Value, as_map, Unstructured}

-- The metadata is a map, or missing.
abbrev pub is_formed : Object → Bool
is_formed o = elim (lookup "metadata" o) [
  | none ↦ true
  | some v ↦ elim (as_map v) [ none ↦ false | some m ↦ true ]
]

-- The identity of an object, as the accessors read it.
pub record Identity : Type 0 where
  pub formed : Bool
  pub kind : Text
  pub name : Text
  pub namespace : Text
  pub labels : Option (Dict String Text)
  pub annotations : Option (Dict String Text)

abbrev pub identity : Unstructured → Object → Identity
identity k o = record {
  formed = is_formed o;
  kind = k.get_kind o;
  name = k.get_name o;
  namespace = k.get_namespace o;
  labels = k.get_labels o;
  annotations = k.get_annotations o;
}

-- The fields that the identity is read from.
abbrev pub is_identifying : String → Bool
is_identifying f = f == "name" || f == "namespace" || f == "labels" || f == "annotations"

abbrev pub is_head : String → Bool
is_head f = f == "metadata" || f == "kind"

pub record IsUnstructured (k : Unstructured) : Type 0 where
  pub identity-set_name :
      (o : Object) (n : Text)
      → is_formed o ≡ true
      → identity k (k.set_name o n) ≡ record (identity k o) { name = n }
  pub identity-set_namespace :
      (o : Object) (n : Text)
      → is_formed o ≡ true
      → identity k (k.set_namespace o n) ≡ record (identity k o) { namespace = n }
  pub identity-set_labels :
      (o : Object) (m : Dict String Text)
      → is_formed o ≡ true
      → identity k (k.set_labels o m) ≡ record (identity k o) { labels = some m }
  pub identity-set_annotations :
      (o : Object) (m : Dict String Text)
      → is_formed o ≡ true
      → identity k (k.set_annotations o m) ≡ record (identity k o) { annotations = some m }
  pub identity-remove_metadata :
      (o : Object) (f : String)
      → is_identifying f ≡ false
      → identity k (k.remove_nested_field o ("metadata" ∷ f ∷ [])) ≡ identity k o
  pub identity-remove :
      (o : Object) (f : String) (path : List String)
      → is_head f ≡ false
      → identity k (k.remove_nested_field o (f ∷ path)) ≡ identity k o
  pub identity-set_slice :
      (o o' : Object) (vs : List Value) (f : String) (path : List String)
      → is_head f ≡ false
      → k.set_nested_slice o vs (f ∷ path) ≡ some o'
      → identity k o' ≡ identity k o
  pub lookup-set_name :
      (s : String) (o : Object) (n : Text)
      → s == "metadata" ≡ false
      → lookup s (k.set_name o n) ≡ lookup s o
  pub lookup-set_namespace :
      (s : String) (o : Object) (n : Text)
      → s == "metadata" ≡ false
      → lookup s (k.set_namespace o n) ≡ lookup s o
  pub lookup-set_labels :
      (s : String) (o : Object) (m : Dict String Text)
      → s == "metadata" ≡ false
      → lookup s (k.set_labels o m) ≡ lookup s o
  pub lookup-set_annotations :
      (s : String) (o : Object) (m : Dict String Text)
      → s == "metadata" ≡ false
      → lookup s (k.set_annotations o m) ≡ lookup s o
  pub lookup-remove :
      (s f : String) (path : List String) (o : Object)
      → s == f ≡ false
      → lookup s (k.remove_nested_field o (f ∷ path)) ≡ lookup s o
  pub lookup-remove_self :
      (f : String) (o : Object) → lookup f (k.remove_nested_field o (f ∷ [])) ≡ none
  pub lookup-set_slice :
      (s f : String) (path : List String) (o o' : Object) (vs : List Value)
      → s == f ≡ false
      → k.set_nested_slice o vs (f ∷ path) ≡ some o'
      → lookup s o' ≡ lookup s o
