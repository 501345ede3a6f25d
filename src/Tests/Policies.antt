-- ===== src/Tests/Policies.antt =====
-- The theorem on enforced policies, at the controller's scope policies and a store in
-- memory that gives defaults.
use tenantplane.Base.{
  ◌≡◌, refl, sym, ap, Bool, true, false, ◌&&◌, List, [], ◌∷◌, All, ◌==◌, bytes_eq, if◌then◌else◌,
  arith, Bool-cases, inl, inr, beq_refl, eq_of_beq, ne_of_beq, ◌∙◌,
}
use tenantplane.Syncplan.Transform.Build.{entries}
use Prim.Derive.{subst}
use tenantplane.Base.Text.{Text, text}
use tenantplane.Base.Result.{Result, ok, err, Error, not_found, failed}
use tenantplane.Base.Action.{◌>>=◌, read, attempt, call, pure}
use tenantplane.Object.{Object, Gvk}
use tenantplane.Object.Laws.{is_formed}
use tenantplane.Object.Memory.{memory}
use tenantplane.Object.Memory.Lawful.{memory-IsUnstructured}
use tenantplane.Object.Memory.Framed.{memory-IsFramed}
use tenantplane.Controller.Apis.{Apis, Objects}
use tenantplane.Controller.Admission.{ensure_policy, create_supported, vap_gvk, vap_binding_gvk}
use tenantplane.Controller.Admission.Scope.{
  ensure_policies, scope_policies, build_controller_write_scope_policy,
  build_controller_write_scope_binding, build_namespace_delete_scope_policy,
  build_namespace_delete_scope_binding,
}
use tenantplane.Controller.Admission.Enforced.{StoresPolicies, MeetsPolicy, Apart, Distinct}
use tenantplane.Controller.Admission.Enforced.Loop.{Enforced, ensure_policies-Enforced}
use tenantplane.Tests.Setting.{in_memory}
use tenantplane.Tests.Defaults.{
  defaulted, defaulted-Covers, defaulted-gvk, defaulted-name, defaulted-labels, defaulted-formed,
}
use tenantplane.Tests.Cluster.{quantities, Room, room, apis}

abbrev is_gvk : Gvk → Gvk → Bool
is_gvk a b = a.group == b.group && (a.version == b.version && a.kind == b.kind)

fits : Object → Gvk → Text → Bool
fits o gvk name =
    is_gvk (memory.group_version_kind o) gvk && (memory.get_name o == name && is_formed o)

find : Gvk → Text → List Object → Result Object
find gvk name [] = err (not_found name)
find gvk name (o ∷ s) = let rest = find gvk name s in if fits o gvk name then ok o else rest

accept : Room → Object → Result Object × Room
accept s o =
    if is_formed o
    then (ok (defaulted o), record s { policies = defaulted o ∷ s.policies })
    else (err (failed (text "malformed")), s)

abbrev policy_store : Objects Room
policy_store = record {
  get = λ s gvk namespace name. find gvk name s.policies;
  list = λ s gvk namespace labels. ok [];
  create = accept;
  update = accept;
  delete = λ s o. (ok o, s);
}

abbrev guarded_apis : Apis quantities
guarded_apis = record apis { objects = policy_store }

is_gvk-eq : (a b : Gvk) → is_gvk a b ≡ true → a ≡ b
is_gvk-eq a b h = ground (
  arith,
  bytes_eq.beq_iff a.group b.group,
  bytes_eq.beq_iff a.version b.version,
  bytes_eq.beq_iff a.kind b.kind,
)

is_gvk_refl : (a : Gvk) → is_gvk a a ≡ true
is_gvk_refl a = rw (beq_refl a.group, beq_refl a.version, beq_refl a.kind) refl

both : (a b : Bool) → (a && b) ≡ true → (a ≡ true) × (b ≡ true)
both true b h = (refl, h)
both false b h = cc

fits_lem :
    (o : Object) (gvk : Gvk) (name : Text)
    → fits o gvk name ≡ true
    → (memory.group_version_kind o ≡ gvk) × (memory.get_name o ≡ name) × (is_formed o ≡ true)
unfolding fits
fits_lem o gvk name h =
    let (same, rest) =
      both (is_gvk (memory.group_version_kind o) gvk) (memory.get_name o == name && is_formed o)
        h in
    let (named, formed) = both (memory.get_name o == name) (is_formed o) rest in
    (
      is_gvk-eq (memory.group_version_kind o) gvk same,
      eq_of_beq (memory.get_name o) name named,
      formed,
    )

fits_self :
    (o : Object)
    → is_formed o ≡ true
    → fits o (memory.group_version_kind o) (memory.get_name o) ≡ true
unfolding fits
fits_self o formed =
    rw (is_gvk_refl (memory.group_version_kind o), beq_refl (memory.get_name o)) formed

found_object : (o o' : Object) → ok o ≡ ok o' → o ≡ o'
found_object o o' h = ground arith

find_lem :
    (gvk : Gvk) (name : Text) (s : List Object) (o : Object)
    → find gvk name s ≡ ok o
    → (memory.group_version_kind o ≡ gvk) × (memory.get_name o ≡ name) × (is_formed o ≡ true)
unfolding find
find_lem gvk name [] o h = cc
find_lem gvk name (x ∷ s) o h = elim (Bool-cases (fits x gvk name)) [
  | inr other ↦ find_lem gvk name s o (sym (rw (other, find) refl) ∙ h)
  | inl first ↦
      subst
        (λ y.
          (memory.group_version_kind y ≡ gvk) × (memory.get_name y ≡ name) × (is_formed y ≡ true))
        (found_object x o (sym (rw (first, find) refl) ∙ h)) (fits_lem x gvk name first)
]

accept-formed :
    (s : Room) (o : Object)
    → is_formed o ≡ true
    → accept s o ≡ (ok (defaulted o), record s { policies = defaulted o ∷ s.policies })
unfolding accept
accept-formed s o formed = rw (formed, accept) refl

accept-odd :
    (s : Room) (o : Object)
    → is_formed o ≡ false
    → accept s o ≡ (err (failed (text "malformed")), s)
unfolding accept
accept-odd s o odd = rw (odd, accept) refl

err-ne-ok : {e : Error} {o : Object} → ¬ (err e ≡ ok o)
err-ne-ok h = cc

find-first :
    (o : Object) (s : List Object)
    → is_formed o ≡ true
    → find (memory.group_version_kind o) (memory.get_name o) (defaulted o ∷ s) ≡ ok (defaulted o)
unfolding find
find-first o s formed =
    let stored : fits (defaulted o) (memory.group_version_kind o) (memory.get_name o) ≡ true =
      (λ i. fits (defaulted o) (sym (defaulted-gvk o) i) (sym (defaulted-name o) i))
      ∙ fits_self (defaulted o) (defaulted-formed o ∙ formed) in
    rw (stored, find) refl

accept-stores :
    (s : Room) (o written : Object)
    → (accept s o).0 ≡ ok written
    → (find (memory.group_version_kind o) (memory.get_name o) (accept s o).1.policies ≡ ok written)
      × MeetsPolicy written o
accept-stores s o written h = elim (Bool-cases (is_formed o)) [
  | inr odd ↦ absurd (err-ne-ok (sym (ap (λ r. r.0) (accept-odd s o odd)) ∙ h))
  | inl formed ↦
      let same =
        found_object (defaulted o) written (sym (ap (λ r. r.0) (accept-formed s o formed)) ∙ h) in
      (
        ap (λ r. find (memory.group_version_kind o) (memory.get_name o) r.1.policies)
              (accept-formed s o formed)
            ∙ find-first o s.policies formed
            ∙ ap ok same,
        subst (λ w. MeetsPolicy w o) same (defaulted-Covers o, ap entries (defaulted-labels o)),
      )
]

find-Apart :
    (o : Object) (s : List Object) (gvk : Gvk) (name : Text)
    → Apart o gvk name
    → find gvk name (o ∷ s) ≡ find gvk name s
unfolding find
find-Apart o s gvk name apart = elim (Bool-cases (fits o gvk name)) [
  | inl fit ↦ let (same, named, formed) = fits_lem o gvk name fit in absurd (apart (same, named))
  | inr other ↦ rw (other, find) refl
]

accept-Apart :
    (s : Room) (o : Object) (gvk : Gvk) (name : Text)
    → Apart o gvk name
    → find gvk name (accept s o).1.policies ≡ find gvk name s.policies
accept-Apart s o gvk name apart = elim (Bool-cases (is_formed o)) [
  | inr odd ↦ ap (λ r. find gvk name r.1.policies) (accept-odd s o odd)
  | inl formed ↦
      ap (λ r. find gvk name r.1.policies) (accept-formed s o formed)
      ∙ find-Apart (defaulted o) s.policies gvk name
          (λ at. apart (sym (defaulted-gvk o) ∙ at.0, sym (defaulted-name o) ∙ at.1))
]

policy_store-StoresPolicies : StoresPolicies policy_store memory
policy_store-StoresPolicies = record {
  get_finds = λ s gvk name o h. find_lem gvk name s.policies o h;
  create_stores = accept-stores;
  update_stores = accept-stores;
  create_apart = accept-Apart;
  update_apart = accept-Apart;
}

Apart-by_name :
    (p o : Object)
    → (memory.get_name p == memory.get_name o) ≡ false
    → Apart p (memory.group_version_kind o) (memory.get_name o)
Apart-by_name p o differ (same, named) =
    ne_of_beq (memory.get_name p) (memory.get_name o) differ named

Apart-by_kind :
    (p o : Object)
    → (memory.get_kind p == memory.get_kind o) ≡ false
    → Apart p (memory.group_version_kind o) (memory.get_name o)
Apart-by_kind p o differ (same, named) =
    ne_of_beq (memory.get_kind p) (memory.get_kind o) differ (ap (λ gvk. gvk.kind) same)

scope-Distinct : Distinct scope_policies
unfolding build_controller_write_scope_policy build_controller_write_scope_binding
    build_namespace_delete_scope_policy build_namespace_delete_scope_binding vap_gvk vap_binding_gvk
scope-Distinct =
    let writes = build_controller_write_scope_policy in
    let writes_bound = build_controller_write_scope_binding in
    let deletes = build_namespace_delete_scope_policy in
    let deletes_bound = build_namespace_delete_scope_binding in
    (
      (
        Apart-by_kind writes_bound writes refl,
        (Apart-by_name deletes writes refl, (Apart-by_name deletes_bound writes refl, tt)),
      ),
      (
        (
          Apart-by_name deletes writes_bound refl,
          (Apart-by_name deletes_bound writes_bound refl, tt),
        ),
        ((Apart-by_kind deletes_bound deletes refl, tt), (tt, tt)),
      ),
    )

abbrev after : Room
after = (ensure_policies quantities guarded_apis scope_policies room).1

ensure_policies-Enforced_example :
    All
      (Enforced quantities guarded_apis memory-IsUnstructured memory-IsFramed
        policy_store-StoresPolicies after)
      scope_policies
unfolding ensure_policies ensure_policy create_supported find fits accept ◌>>=◌ read attempt call
    pure build_controller_write_scope_policy build_controller_write_scope_binding
    build_namespace_delete_scope_policy build_namespace_delete_scope_binding vap_gvk vap_binding_gvk
ensure_policies-Enforced_example =
    ensure_policies-Enforced quantities guarded_apis memory-IsUnstructured memory-IsFramed
      policy_store-StoresPolicies scope_policies room scope-Distinct refl
