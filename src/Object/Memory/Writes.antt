-- ===== src/Object/Memory/Writes.antt =====
-- What a write to an object on plain maps changes of what is read, at the top and in the metadata.
use tenantplane.Base.{
  String, ◌≡◌, refl, sym, ◌∙◌, ap, true, false, Option, none, some, List, [], ◌∷◌, Dict, lookup,
  insert, string_eq, ◌==◌, lookup-insert, lookup-erase, arith, Bool-cases, inl, inr, ne_of_beq,
  beq_of_ne,
}
use mathlib.Core.Option.{none-ne-some}
use tenantplane.Base.Text.{Text}
use tenantplane.Object.{Object, Value, object, as_text, of_object, to_object-of_object}
use tenantplane.Object.Laws.{Identity, identity, is_formed}
use tenantplane.Object.Memory.{
  memory, metadata, set_metadata, map_of, texts, of_texts, texts_of, set_path, remove_path, is_map,
  nest,
}

pub texts-of_texts : (m : Dict String Text) → texts (of_texts m) ≡ m
texts-of_texts [] = refl
texts-of_texts ((j, t) ∷ m) = ap (λ r. (j, t) ∷ r) (texts-of_texts m)

pub texts_of-object :
    (m : Dict String Text) → texts_of (some (object (of_object (of_texts m)))) ≡ some m
texts_of-object m =
    ap (λ o. some (texts o)) (to_object-of_object (of_texts m))
    ∙ ap (λ r. some r) (texts-of_texts m)

-- What is read at the top after a write to the metadata.
pub lookup-set_metadata :
    (s f : String) (o : Object) (v : Value)
    → ("metadata" == s) ≡ false
    → lookup s (set_metadata o f v) ≡ lookup s o
lookup-set_metadata s f o v h = elim (Bool-cases (is_formed o)) [
  | inl formed ↦ rw formed (rw (lookup-insert, h))
  | inr odd ↦ rw odd
]

pub metadata-set_metadata :
    (f : String) (o : Object) (v : Value)
    → is_formed o ≡ true
    → lookup "metadata" (set_metadata o f v) ≡ some (object (of_object (insert f v (metadata o))))
metadata-set_metadata f o v h = rw h (lookup-insert "metadata" "metadata" _ o)

-- What a write to the metadata makes of it.
pub inside :
    (f : String) (o : Object) (v : Value)
    → is_formed o ≡ true
    → metadata (set_metadata o f v) ≡ insert f v (metadata o)
inside f o v h =
    ap map_of (metadata-set_metadata f o v h) ∙ to_object-of_object (insert f v (metadata o))

pub formed :
    (f : String) (o : Object) (v : Value)
    → is_formed o ≡ true
    → is_formed (set_metadata o f v) ≡ true
formed f o v h = ap is_map (metadata-set_metadata f o v h)

pub identity-set :
    (f : String) (o : Object) (v : Value)
    → is_formed o ≡ true
    → identity memory (set_metadata o f v) ≡ record {
      formed = true;
      kind = as_text (lookup "kind" o);
      name = as_text (lookup "name" (insert f v (metadata o)));
      namespace = as_text (lookup "namespace" (insert f v (metadata o)));
      labels = texts_of (lookup "labels" (insert f v (metadata o)));
      annotations = texts_of (lookup "annotations" (insert f v (metadata o)));
    }
identity-set f o v h = λ i. record {
  formed = formed f o v h i;
  kind = as_text (lookup-set_metadata "kind" f o v refl i);
  name = as_text (lookup "name" (inside f o v h i));
  namespace = as_text (lookup "namespace" (inside f o v h i));
  labels = texts_of (lookup "labels" (inside f o v h i));
  annotations = texts_of (lookup "annotations" (inside f o v h i));
}

pub beq_sym : (s f : String) → (s == f) ≡ false → (f == s) ≡ false
beq_sym s f h = beq_of_ne f s (λ p. ne_of_beq s f h (sym p))

-- The identity is read from two fields.
unfoldable pub identity_of : Option Value → Option Value → Identity
identity_of meta kind = record {
  formed = is_map meta;
  kind = as_text kind;
  name = as_text (lookup "name" (map_of meta));
  namespace = as_text (lookup "namespace" (map_of meta));
  labels = texts_of (lookup "labels" (map_of meta));
  annotations = texts_of (lookup "annotations" (map_of meta));
}

pub same_identity :
    (o o' : Object)
    → lookup "metadata" o' ≡ lookup "metadata" o
    → lookup "kind" o' ≡ lookup "kind" o
    → identity memory o' ≡ identity memory o
unfolding identity_of
same_identity o o' p q = λ i. identity_of (p i) (q i)

pub lookup-remove_path :
    (s f : String) (path : List String) (o : Object)
    → (s == f) ≡ false
    → lookup s (remove_path o (f ∷ path)) ≡ lookup s o
lookup-remove_path s f [] o h = rw (lookup-erase, beq_sym s f h)
lookup-remove_path s f (g ∷ path) o h = ground (
  arith,
  beq_sym s f h,
  lookup-insert f s (object (of_object (remove_path (map_of (lookup f o)) (g ∷ path)))) o,
)

pub lookup-nest :
    (s f : String) (o o' : Object) (rest : Option Object)
    → (s == f) ≡ false
    → nest f o rest ≡ some o'
    → lookup s o' ≡ lookup s o
lookup-nest s f o o' none h w = cc
lookup-nest s f o o' (some m) h w =
    ground (arith, beq_sym s f h, lookup-insert f s (object (of_object m)) o)

pub lookup-set_path :
    (s f : String) (path : List String) (o o' : Object) (v : Value)
    → (s == f) ≡ false
    → set_path o v (f ∷ path) ≡ some o'
    → lookup s o' ≡ lookup s o
lookup-set_path s f [] o o' v h w = ground (arith, beq_sym s f h, lookup-insert f s v o)
lookup-set_path s f (g ∷ path) o o' v h w = elim (Bool-cases (is_map (lookup f o))) [
  | inl map ↦
      lookup-nest s f o o' (set_path (map_of (lookup f o)) v (g ∷ path)) h (sym (rw map) ∙ w)
  | inr odd ↦ absurd (none-ne-some o' (sym (rw odd) ∙ w))
]
