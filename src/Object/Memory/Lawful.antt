-- ===== src/Object/Memory/Lawful.antt =====
-- The laws of the interface for the implementation on plain maps.
use tenantplane.Base.{
  String, ◌≡◌, refl, sym, ◌∙◌, ap, true, false, Option, none, some, [], ◌∷◌, lookup, insert, erase,
  string_eq, ◌==◌, lookup-insert, lookup-erase, arith, Option-cases, inl, inr, beq_refl,
}
use mathlib.Core.Option.{none-ne-some, some-injective}
use tenantplane.Object.{
  Object, Value, string, object, as_map, as_text, of_object, to_object, to_object-of_object,
}
use tenantplane.Object.Laws.{IsUnstructured, identity, is_identifying, is_head}
use tenantplane.Object.Memory.{memory, metadata, of_texts, texts_of, remove_path}
use tenantplane.Object.Memory.Writes.{
  texts_of-object, lookup-set_metadata, identity-set, beq_sym, identity_of, same_identity,
  lookup-remove_path, lookup-set_path,
}

module _ (o : Object) (f : String) where
  remove_none : lookup "metadata" o ≡ none → remove_path o ("metadata" ∷ f ∷ []) ≡ o
  remove_none p = ground arith

  remove_odd :
      (v : Value)
      → lookup "metadata" o ≡ some v
      → as_map v ≡ none
      → remove_path o ("metadata" ∷ f ∷ []) ≡ o
  remove_odd v p q = ground arith

  remove_some :
      (v : Value) (m : Object)
      → lookup "metadata" o ≡ some v
      → as_map v ≡ some m
      → remove_path o ("metadata" ∷ f ∷ []) ≡ insert "metadata" (object (of_object (erase f m))) o
  remove_some v m p q = ground arith

lookup-erase_ne : (f g : String) (m : Object) → (f == g) ≡ false → lookup g (erase f m) ≡ lookup g m
lookup-erase_ne f g m h = rw (lookup-erase, h)

not_name : (f : String) → is_identifying f ≡ false → (f == "name") ≡ false
not_name f h = ground arith

not_namespace : (f : String) → is_identifying f ≡ false → (f == "namespace") ≡ false
not_namespace f h = ground arith

not_labels : (f : String) → is_identifying f ≡ false → (f == "labels") ≡ false
not_labels f h = ground arith

not_annotations : (f : String) → is_identifying f ≡ false → (f == "annotations") ≡ false
not_annotations f h = ground arith

-- Erasing a field that does not identify the object.
erased_identity :
    (m : Object) (kind : Option Value) (f : String)
    → is_identifying f ≡ false
    → identity_of (some (object (of_object (erase f m)))) kind
      ≡ identity_of (some (object (of_object m))) kind
unfolding identity_of
erased_identity m kind f h =
    rw (to_object-of_object, to_object-of_object)
      λ i. record {
        formed = true;
        kind = as_text kind;
        name = as_text (lookup-erase_ne f "name" m (not_name f h) i);
        namespace = as_text (lookup-erase_ne f "namespace" m (not_namespace f h) i);
        labels = texts_of (lookup-erase_ne f "labels" m (not_labels f h) i);
        annotations = texts_of (lookup-erase_ne f "annotations" m (not_annotations f h) i);
      }

map_identity :
    (x : Option Value) (v : Value) (m : Object) (kind : Option Value)
    → x ≡ some v
    → as_map v ≡ some m
    → identity_of (some (object (of_object m))) kind ≡ identity_of x kind
unfolding identity_of
map_identity x (object fs) m kind found map =
    rw (to_object-of_object, found, some-injective (to_object fs) m map)
map_identity x v m kind found map = absurd (none-ne-some m map)

identity-remove_path :
    (o : Object) (f : String)
    → is_identifying f ≡ false
    → identity memory (remove_path o ("metadata" ∷ f ∷ [])) ≡ identity memory o
unfolding identity_of
identity-remove_path o f h = elim (Option-cases (lookup "metadata" o)) [
  | inl missing ↦ ap (identity memory) (remove_none o f missing)
  | inr (v, found) ↦ elim (Option-cases (as_map v)) [
    | inl odd ↦ ap (identity memory) (remove_odd o f v found odd)
    | inr (m, map) ↦
        let after = remove_some o f v m found map in
        let kept = lookup-remove_path "kind" "metadata" (f ∷ []) o refl in
        (λ i.
          identity_of ((ap (lookup "metadata") after ∙ lookup-insert "metadata" "metadata" _ o) i)
            (kept i))
        ∙ erased_identity m (lookup "kind" o) f h
        ∙ map_identity (lookup "metadata" o) v m (lookup "kind" o) found map
  ]
]

head_metadata : (f : String) → is_head f ≡ false → (f == "metadata") ≡ false
head_metadata f h = ground arith

head_kind : (f : String) → is_head f ≡ false → (f == "kind") ≡ false
head_kind f h = ground arith

pub memory-IsUnstructured : IsUnstructured memory
memory-IsUnstructured = record {
  identity-set_name = λ o n h. identity-set "name" o (string n) h ∙ (λ i. record {
    formed = sym h i;
    kind = as_text (lookup "kind" o);
    name = as_text (lookup-insert "name" "name" (string n) (metadata o) i);
    namespace = as_text (lookup-insert "name" "namespace" (string n) (metadata o) i);
    labels = texts_of (lookup-insert "name" "labels" (string n) (metadata o) i);
    annotations = texts_of (lookup-insert "name" "annotations" (string n) (metadata o) i);
  });
  identity-set_namespace = λ o n h. identity-set "namespace" o (string n) h ∙ (λ i. record {
    formed = sym h i;
    kind = as_text (lookup "kind" o);
    name = as_text (lookup-insert "namespace" "name" (string n) (metadata o) i);
    namespace = as_text (lookup-insert "namespace" "namespace" (string n) (metadata o) i);
    labels = texts_of (lookup-insert "namespace" "labels" (string n) (metadata o) i);
    annotations = texts_of (lookup-insert "namespace" "annotations" (string n) (metadata o) i);
  });
  identity-set_labels = λ o m h.
      let v : Value = object (of_object (of_texts m)) in
      identity-set "labels" o v h ∙ (λ i. record {
        formed = sym h i;
        kind = as_text (lookup "kind" o);
        name = as_text (lookup-insert "labels" "name" v (metadata o) i);
        namespace = as_text (lookup-insert "labels" "namespace" v (metadata o) i);
        labels =
            (ap texts_of (lookup-insert "labels" "labels" v (metadata o)) ∙ texts_of-object m) i;
        annotations = texts_of (lookup-insert "labels" "annotations" v (metadata o) i);
      });
  identity-set_annotations = λ o m h.
      let v : Value = object (of_object (of_texts m)) in
      identity-set "annotations" o v h ∙ (λ i. record {
        formed = sym h i;
        kind = as_text (lookup "kind" o);
        name = as_text (lookup-insert "annotations" "name" v (metadata o) i);
        namespace = as_text (lookup-insert "annotations" "namespace" v (metadata o) i);
        labels = texts_of (lookup-insert "annotations" "labels" v (metadata o) i);
        annotations =
            (ap texts_of (lookup-insert "annotations" "annotations" v (metadata o))
                ∙ texts_of-object m)
              i;
      });
  identity-remove_metadata = identity-remove_path;
  identity-remove = λ o f path h.
      same_identity o (remove_path o (f ∷ path))
        (lookup-remove_path "metadata" f path o (beq_sym f "metadata" (head_metadata f h)))
        (lookup-remove_path "kind" f path o (beq_sym f "kind" (head_kind f h)));
  identity-set_slice = λ o o' vs f path h w.
      same_identity o o'
        (lookup-set_path "metadata" f path o o' _ (beq_sym f "metadata" (head_metadata f h)) w)
        (lookup-set_path "kind" f path o o' _ (beq_sym f "kind" (head_kind f h)) w);
  lookup-set_name = λ s o n h. lookup-set_metadata s "name" o (string n) (beq_sym s "metadata" h);
  lookup-set_namespace =
      λ s o n h. lookup-set_metadata s "namespace" o (string n) (beq_sym s "metadata" h);
  lookup-set_labels = λ s o m h. lookup-set_metadata s "labels" o _ (beq_sym s "metadata" h);
  lookup-set_annotations =
      λ s o m h. lookup-set_metadata s "annotations" o _ (beq_sym s "metadata" h);
  lookup-remove = lookup-remove_path;
  lookup-remove_self = λ f o. rw (lookup-erase, beq_refl f);
  lookup-set_slice = λ s f path o o' vs h w. lookup-set_path s f path o o' _ h w;
}
