-- ===== src/Tests/Defaults.antt =====
-- The default that an API server gives to the policies: matchPolicy, of matchConstraints and of
-- matchResources.
use tenantplane.Base.{
  ◌⊎◌, String, ◌≡◌, refl, ◌∙◌, sym, false, none, some, Option, List, [], ◌∷◌, insert, lookup, ◌==◌,
  lookup-insert, string_eq, arith, inl, inr, Bool-cases, eq_of_beq,
}
use Prim.Derive.{subst}
use tenantplane.Base.Text.{text}
use tenantplane.Object.{
  Object, Value, string, object, slice, to_object, of_object, as_text, null, bool, int, float,
}
use tenantplane.Object.Values.{to_object-of_object}
use tenantplane.Object.Memory.{memory, map_of, texts_of}
use tenantplane.Object.Laws.{is_formed}
use tenantplane.Controller.Admission.Enforced.{Step, key, at, Head, seen, Covers, spec_of, or_null}

-- o["f"] = default, where o has no entry for it.
abbrev default_over : Option Value → String → Value → Object → Object
default_over none f default o = insert f default o
default_over (some v) f default o = o

abbrev with_default : String → Value → Object → Object
with_default f default o = default_over (lookup f o) f default o

-- An entry changed, where it is there.
abbrev changed_over : Option Value → String → (Value → Value) → Object → Object
changed_over none f g o = o
changed_over (some v) f g o = insert f (g v) o

abbrev inside : String → (Value → Value) → Object → Object
inside f g o = changed_over (lookup f o) f g o

abbrev within_map : (Object → Object) → Value → Value
within_map g (object fs) = object (of_object (g (to_object fs)))
within_map g v = v

-- Every entry is there, and covered.
abbrev Extends : Object → Object → Type 0
Extends o' o =
    (j : String) (v : Value)
    → lookup j o ≡ some v
    → (x : Value) × (lookup j o' ≡ some x) × Covers x v

Extends-trans : (o o' o'' : Object) → Extends o'' o' → Extends o' o → Extends o'' o
Extends-trans o o' o'' after before j v there =
    let (x, there', covers) = before j v there in
    let (y, there'', covers') = after j x there' in
    (y, there'', λ path head h. covers' path head (covers path head h))

inserted-Extends :
    (f : String) (w : Value) (o : Object)
    → ((v : Value) → lookup f o ≡ some v → Covers w v)
    → Extends (insert f w o) o
inserted-Extends f w o covers j v there = elim (Bool-cases (f == j)) [
  | inl same ↦
      let here : lookup f o ≡ some v =
        subst (λ n. lookup n o ≡ some v) (sym (eq_of_beq f j same)) there in
      rw (lookup-insert, same) (w, refl, covers v here)
  | inr other ↦ rw (lookup-insert, other) (v, there, λ path head h. h)
]

some-ne-none : (v : Value) → ◌≡◌ {A = Option Value} none (some v) → ⊥
some-ne-none v h = cc

some-eq : (v w : Value) → ◌≡◌ {A = Option Value} (some v) (some w) → v ≡ w
some-eq v w h = ground arith

found_or_not :
    (f : String) (o : Object) → (lookup f o ≡ none) ⊎ ((v : Value) × (lookup f o ≡ some v))
found_or_not f o = go (lookup f o) refl
  where
    go :
        (r : Option Value)
        → lookup f o ≡ r
        → (lookup f o ≡ none) ⊎ ((v : Value) × (lookup f o ≡ some v))
    go none h = inl h
    go (some v) h = inr (v, h)

default_over-Extends :
    (r : Option Value) (f : String) (default : Value) (o : Object)
    → lookup f o ≡ r
    → Extends (default_over r f default o) o
default_over-Extends none f default o missing =
    inserted-Extends f default o (λ v there. absurd (some-ne-none v (sym missing ∙ there)))
default_over-Extends (some u) f default o here = λ j v there. (v, there, λ path head h. h)

changed_over-Extends :
    (r : Option Value) (f : String) (g : Value → Value) (o : Object)
    → ((v : Value) → Covers (g v) v)
    → lookup f o ≡ r
    → Extends (changed_over r f g o) o
changed_over-Extends none f g o covers missing = λ j v there. (v, there, λ path head h. h)
changed_over-Extends (some u) f g o covers here =
    inserted-Extends f (g u) o
      (λ v there. subst (Covers (g u)) (some-eq u v (sym here ∙ there)) (covers u))

inside-Extends :
    (f : String) (g : Value → Value) (o : Object)
    → ((v : Value) → Covers (g v) v)
    → Extends (inside f g o) o
inside-Extends f g o covers = changed_over-Extends (lookup f o) f g o covers refl

map-Covers :
    (o' : Object) (o : Object)
    → Extends o' o
    → (path : List Step) (head : Head) (f : String)
    → elim (lookup f o) [ none ↦ none | some w ↦ seen path w ] ≡ some head
    → elim (lookup f o') [ none ↦ none | some w ↦ seen path w ] ≡ some head
map-Covers o' o extends path head f h = elim (found_or_not f o) [
  | inl missing ↦ absurd (no_head head (sym (rw missing refl) ∙ h))
  | inr (v, there) ↦
      let (x, there', covers) = extends f v there in
      rw there' (covers path head (sym (rw there refl) ∙ h))
]
  where
    no_head : (head : Head) → ◌≡◌ {A = Option Head} none (some head) → ⊥
    no_head head h = cc

within_map-Covers :
    (g : Object → Object)
    → ((o : Object) → Extends (g o) o)
    → (v : Value) → Covers (within_map g v) v
within_map-Covers g extends (object fs) [] head h = h
within_map-Covers g extends (object fs) (key f ∷ path) head h =
    subst
      (λ (m : Object).
        elim (lookup f m) as (λ r. Option Head) [ none ↦ none | some w ↦ seen path w ] ≡ some head)
      (sym (to_object-of_object (g (to_object fs))))
      (map-Covers (g (to_object fs)) (to_object fs) (extends (to_object fs)) path head f h)
within_map-Covers g extends (object fs) (at i ∷ path) head h = h
within_map-Covers g extends null path head h = h
within_map-Covers g extends (bool b) path head h = h
within_map-Covers g extends (int n) path head h = h
within_map-Covers g extends (float n) path head h = h
within_map-Covers g extends (string t) path head h = h
within_map-Covers g extends (slice vs) path head h = h

abbrev match_policy : Value → Value
match_policy = within_map (with_default "matchPolicy" (string (text "Equivalent")))

match_policy-Covers : (v : Value) → Covers (match_policy v) v
match_policy-Covers =
    within_map-Covers (with_default "matchPolicy" (string (text "Equivalent"))) (λ o.
      default_over-Extends (lookup "matchPolicy" o) "matchPolicy" (string (text "Equivalent")) o
        refl)

abbrev matched : Object → Object
matched spec = inside "matchResources" match_policy (inside "matchConstraints" match_policy spec)

matched-Extends : (spec : Object) → Extends (matched spec) spec
matched-Extends spec =
    Extends-trans spec (inside "matchConstraints" match_policy spec) (matched spec)
      (inside-Extends "matchResources" match_policy _ match_policy-Covers)
      (inside-Extends "matchConstraints" match_policy spec match_policy-Covers)

-- The object as the server stores it.
abbrev pub defaulted : Object → Object
defaulted = inside "spec" (within_map matched)

changed-Covers :
    (r : Option Value) (o : Object)
    → lookup "spec" o ≡ r
    → Covers (spec_of (changed_over r "spec" (within_map matched) o)) (spec_of o)
changed-Covers none o missing = λ path head h. h
changed-Covers (some v) o here =
    subst (λ q. Covers (or_null q) (spec_of o))
      (sym (lookup-insert "spec" "spec" (within_map matched v) o))
      (subst (λ q. Covers (within_map matched v) (or_null q)) (sym here)
        (within_map-Covers matched matched-Extends v))

pub defaulted-Covers : (o : Object) → Covers (spec_of (defaulted o)) (spec_of o)
defaulted-Covers o = changed-Covers (lookup "spec" o) o refl

lookup-changed :
    (r : Option Value) (f : String) (o : Object)
    → "spec" == f ≡ false
    → lookup f (changed_over r "spec" (within_map matched) o) ≡ lookup f o
lookup-changed none f o other = refl
lookup-changed (some v) f o other = rw (lookup-insert, other) refl

pub lookup-defaulted :
    (f : String) (o : Object) → "spec" == f ≡ false → lookup f (defaulted o) ≡ lookup f o
lookup-defaulted f o other = lookup-changed (lookup "spec" o) f o other

module _ (o : Object) where
  pub defaulted-gvk : memory.group_version_kind (defaulted o) ≡ memory.group_version_kind o
  defaulted-gvk i = record {
    group = [];
    version = as_text (lookup-defaulted "apiVersion" o refl i);
    kind = as_text (lookup-defaulted "kind" o refl i);
  }

  pub defaulted-name : memory.get_name (defaulted o) ≡ memory.get_name o
  defaulted-name i = as_text (lookup "name" (map_of (lookup-defaulted "metadata" o refl i)))

  pub defaulted-labels : memory.get_labels (defaulted o) ≡ memory.get_labels o
  defaulted-labels i = texts_of (lookup "labels" (map_of (lookup-defaulted "metadata" o refl i)))

  pub defaulted-formed : is_formed (defaulted o) ≡ is_formed o
  defaulted-formed = rw (lookup-defaulted "metadata" o refl, is_formed) refl
