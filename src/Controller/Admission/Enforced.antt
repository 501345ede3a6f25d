-- ===== src/Controller/Admission/Enforced.antt =====
-- What the converged object of internal/controller/admission.go and rbac_scope.go demands, and the
-- client that stores it.
pub mod Loop
use tenantplane.Base.{
  ℕ, zero, suc, length, String, ◌≡◌, ◌≢◌, refl, sym, ap, ◌∙◌, Bool, true, false, Option, none, some,
  List, [], ◌∷◌, All, ◌==◌, string_eq, Dict, lookup, insert, lookup-insert, inl, inr, arith,
  Bool-cases, if◌then◌else◌,
}
use Prim.Derive.{subst}
use tenantplane.Base.Text.{Text}
use tenantplane.Base.Result.{Result, ok, err, Error, is_not_found, Result-cases}
use tenantplane.Base.Action.{Flow, continue, next, stop, ◌>>=◌, pure, read, call, attempt, return}
use tenantplane.Object.{Object, Value, null, object, slice, to_object, to_list, Gvk, Unstructured}
use tenantplane.Object.Laws.{IsUnstructured, Identity, identity, is_formed}
use tenantplane.Object.Frame.{IsFramed}
use tenantplane.Syncplan.Transform.Build.{entries}
use tenantplane.Isolation.{Quantities}
use tenantplane.Controller.Namespace.{admission_hardening_unsupported}
use tenantplane.Controller.Apis.{Apis, Objects}
use tenantplane.Controller.Admission.{ensure_policy, create_supported, converged_policy, with_spec}
use tenantplane.Controller.Admission.Scope.{ensure_policies}

-- A missing entry reads as nil.
abbrev pub or_null : Option Value → Value
or_null none = null
or_null (some v) = v

abbrev pub spec_of : Object → Value
spec_of o = or_null (lookup "spec" o)

-- A step into a value: to the entry of a map, or to an item of a slice.
pub data Step : Type 0 where
  key : String → Step
  at : ℕ → Step

abbrev pub item_at : ℕ → List Value → Option Value
item_at i [] = none
item_at zero (v ∷ vs) = some v
item_at (suc i) (v ∷ vs) = item_at i vs

abbrev pub child : Step → Value → Option Value
child (key f) (object fs) = lookup f (to_object fs)
child (at i) (slice vs) = item_at i (to_list vs)
child _ _ = none

-- What is seen of a value without a step: that it is a map, a slice of so many items, or a scalar.
pub data Head : Type 0 where
  fields : Head
  items : ℕ → Head
  scalar : Value → Head

abbrev pub head_of : Value → Head
head_of (object fs) = fields
head_of (slice vs) = items (length (to_list vs))
head_of v = scalar v

abbrev pub seen : List Step → Value → Option Head
seen [] v = some (head_of v)
seen (s ∷ path) v = elim (child s v) [ none ↦ none | some w ↦ seen path w ]

-- What is there at a path of the given value is there in the stored one. A map may have got further
-- entries, as the defaults of an API server are; a slice has as many items, and a scalar is the same.
abbrev pub Covers : Value → Value → Type 0
Covers stored given =
    (path : List Step) (head : Head) → seen path given ≡ some head → seen path stored ≡ some head

-- The object demands all that the desired one does, with its labels.
abbrev pub MeetsPolicy : ⦃k : Unstructured⦄ → Object → Object → Type 0
MeetsPolicy ⦃k⦄ o desired =
    Covers (spec_of o) (spec_of desired)
    × (entries (k.get_labels o) ≡ entries (k.get_labels desired))

-- The objects demand the same.
abbrev pub SamePolicy : ⦃k : Unstructured⦄ → Object → Object → Type 0
SamePolicy ⦃k⦄ o desired =
    (spec_of o ≡ spec_of desired) × (entries (k.get_labels o) ≡ entries (k.get_labels desired))

-- The object is not the one of this kind and name.
abbrev pub Apart : ⦃k : Unstructured⦄ → Object → Gvk → Text → Type 0
Apart ⦃k⦄ o gvk name = ¬ ((k.group_version_kind o ≡ gvk) × (k.get_name o ≡ name))

-- The objects that follow are others than this one, and so on.
abbrev pub Distinct : ⦃k : Unstructured⦄ → List Object → Type 0
Distinct ⦃k⦄ [] = Unit
Distinct ⦃k⦄ (o ∷ objs) =
    All (λ p. Apart ⦃k = k⦄ p (k.group_version_kind o) (k.get_name o)) objs × Distinct ⦃k = k⦄ objs

-- A client that finds an object by its kind and name, stores what it accepts with its defaults, and
-- leaves all else.
pub record StoresPolicies {S : Type 0} (objects : Objects S) (k : Unstructured) : Type 0 where
  pub get_finds :
      (s : S) (gvk : Gvk) (name : Text) (o : Object)
      → objects.get s gvk [] name ≡ ok o
      → (k.group_version_kind o ≡ gvk) × (k.get_name o ≡ name) × (is_formed o ≡ true)
  pub create_stores :
      (s : S) (o written : Object)
      → (objects.create s o).0 ≡ ok written
      → (objects.get (objects.create s o).1 (k.group_version_kind o) [] (k.get_name o) ≡ ok written)
        × MeetsPolicy ⦃k = k⦄ written o
  pub update_stores :
      (s : S) (o written : Object)
      → (objects.update s o).0 ≡ ok written
      → (objects.get (objects.update s o).1 (k.group_version_kind o) [] (k.get_name o) ≡ ok written)
        × MeetsPolicy ⦃k = k⦄ written o
  pub create_apart :
      (s : S) (o : Object) (gvk : Gvk) (name : Text)
      → Apart ⦃k = k⦄ o gvk name
      → objects.get (objects.create s o).1 gvk [] name ≡ objects.get s gvk [] name
  pub update_apart :
      (s : S) (o : Object) (gvk : Gvk) (name : Text)
      → Apart ⦃k = k⦄ o gvk name
      → objects.get (objects.update s o).1 gvk [] name ≡ objects.get s gvk [] name

module _ ⦃k : Unstructured⦄ (laws : IsUnstructured k) (framed : IsFramed k)
    (existing desired : Object) where
  with_spec-kept :
      (f : String)
      → ("spec" == f) ≡ false
      → lookup f (with_spec existing desired) ≡ lookup f existing
  unfolding with_spec
  with_spec-kept f differ = rw (lookup-insert, differ) refl

  with_spec-formed : is_formed existing ≡ true → is_formed (with_spec existing desired) ≡ true
  with_spec-formed formed = rw (with_spec-kept "metadata" refl, is_formed) formed

  pub converged-gvk :
      k.group_version_kind (converged_policy existing desired) ≡ k.group_version_kind existing
  unfolding converged_policy
  converged-gvk =
      framed.gvk-frame existing _
        (laws.lookup-set_labels "apiVersion" _ _ refl ∙ with_spec-kept "apiVersion" refl)
        (laws.lookup-set_labels "kind" _ _ refl ∙ with_spec-kept "kind" refl)

  converged-identity :
      is_formed existing ≡ true
      → identity k (converged_policy existing desired)
        ≡ record (identity k (with_spec existing desired)) {
          labels = some (entries (k.get_labels desired));
        }
  unfolding converged_policy
  converged-identity formed =
      laws.identity-set_labels (with_spec existing desired) (entries (k.get_labels desired))
        (with_spec-formed formed)

  pub converged-name :
      is_formed existing ≡ true
      → k.get_name (converged_policy existing desired) ≡ k.get_name existing
  converged-name formed =
      ap (λ d. d.name) (converged-identity formed)
      ∙ ap (λ st. st.identity.name)
          (framed.standing-frame existing (with_spec existing desired)
            (with_spec-kept "apiVersion" refl) (with_spec-kept "kind" refl)
            (with_spec-kept "metadata" refl))

  with_spec-spec : lookup "spec" (with_spec existing desired) ≡ some (spec_of desired)
  unfolding with_spec
  with_spec-spec = lookup-insert "spec" "spec" (spec_of desired) existing

  pub converged-SamePolicy :
      is_formed existing ≡ true → SamePolicy (converged_policy existing desired) desired
  unfolding converged_policy
  converged-SamePolicy formed = (
    ap or_null (laws.lookup-set_labels "spec" _ _ refl ∙ with_spec-spec),
    ap (λ d. entries d.labels) (converged-identity formed),
  )
