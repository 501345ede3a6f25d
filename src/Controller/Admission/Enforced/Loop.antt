-- ===== src/Controller/Admission/Enforced/Loop.antt =====
-- What the answer yes of ensureRuntimeClassPolicy and ensureControllerScopePolicies leaves in the
-- cluster, in internal/controller/admission.go and rbac_scope.go.
use tenantplane.Base.{
  ◌≡◌, refl, sym, ap, ◌∙◌, Bool, true, false, List, [], ◌∷◌, All, string_eq, inl, inr, arith,
  if◌then◌else◌,
}
use Prim.Derive.{subst}
use tenantplane.Base.Text.{Text}
use tenantplane.Base.Result.{Result, ok, err, Error, Result-cases}
use tenantplane.Base.Action.{Flow, continue, next, stop, ◌>>=◌, pure, read, call, attempt, return}
use tenantplane.Object.{Object, Gvk, Unstructured}
use tenantplane.Object.Laws.{IsUnstructured}
use tenantplane.Object.Frame.{IsFramed}
use tenantplane.Isolation.{Quantities}
use tenantplane.Controller.Apis.{Apis}
use tenantplane.Controller.Admission.{ensure_policy, create_supported, converged_policy}
use tenantplane.Controller.Admission.Scope.{ensure_policies}
use tenantplane.Controller.Admission.Enforced.{
  SamePolicy, MeetsPolicy, Covers, spec_of, Apart, Distinct, StoresPolicies, converged-gvk,
  converged-name, converged-SamePolicy,
}

module _ (q : Quantities) (apis : Apis q) ⦃k : Unstructured⦄ (laws : IsUnstructured k)
    (framed : IsFramed k) (stores : StoresPolicies apis.objects k) where
  -- The cluster has an object of this kind and name that demands all that this one does.
  abbrev pub Enforced : apis.host.State → Object → Type 0
  Enforced s desired =
      (o : Object) × (apis.objects.get s (k.group_version_kind desired) [] (k.get_name desired)
        ≡ ok o)
      × MeetsPolicy o desired

  -- What a call for `desired` leaves.
  abbrev Leaves : Object → apis.host.State → apis.host.State → Type 0
  Leaves desired s after =
      Enforced after desired
      × ((gvk : Gvk) (name : Text)
          → Apart desired gvk name
          → apis.objects.get after gvk [] name ≡ apis.objects.get s gvk [] name)

  abbrev ensured : Object → apis.host.State → Flow Error Bool × apis.host.State
  ensured desired = ensure_policy q apis (k.group_version_kind desired) desired

  module _ (desired : Object) (s : apis.host.State) where
    abbrev got : Result Object
    got = apis.objects.get s (k.group_version_kind desired) [] (k.get_name desired)

    ensured-missing :
        (e : Error)
        → got ≡ err e
        → (ensured desired s).0 ≡ next true
        → (written : Object) × ((apis.objects.create s desired).0 ≡ ok written)
          × ((ensured desired s).1 ≡ (apis.objects.create s desired).1)
    unfolding ensure_policy create_supported ◌>>=◌ read attempt call pure return
    ensured-missing e missing done = elim (Result-cases (apis.objects.create s desired).0) [
      | inl (written, created) ↦ (written, created, ground arith)
      | inr (failure, refused) ↦ absurd (ground arith)
    ]

    ensured-found :
        (existing : Object)
        → got ≡ ok existing
        → (ensured desired s).0 ≡ next true
        → (written : Object) × ((apis.objects.update s (converged_policy existing desired)).0
            ≡ ok written)
          × ((ensured desired s).1 ≡ (apis.objects.update s (converged_policy existing desired)).1)
    unfolding ensure_policy ◌>>=◌ read call pure
    ensured-found existing there done =
        elim (Result-cases (apis.objects.update s (converged_policy existing desired)).0) [
          | inl (written, updated) ↦ (written, updated, ground arith)
          | inr (failure, refused) ↦ absurd (ground arith)
        ]

    MeetsPolicy-same : (a b c : Object) → MeetsPolicy a b → SamePolicy b c → MeetsPolicy a c
    MeetsPolicy-same a b c (covers, labels) (spec, labels') =
        (subst (Covers (spec_of a)) spec covers, labels ∙ labels')

    ensured-Leaves : (ensured desired s).0 ≡ next true → Leaves desired s (ensured desired s).1
    ensured-Leaves done = elim (Result-cases got) [
      | inr (e, missing) ↦
          let (written, created, after) = ensured-missing e missing done in
          let (there, same) = stores.create_stores s desired written created in
          subst (Leaves desired s) (sym after)
            ((written, there, same), λ gvk name apart. stores.create_apart s desired gvk name apart)
      | inl (existing, there) ↦
          let (written, updated, after) = ensured-found existing there done in
          let (same_gvk, same_name, formed) =
            stores.get_finds s (k.group_version_kind desired) (k.get_name desired) existing there in
          let o = converged_policy existing desired in
          let gvk_kept = converged-gvk laws framed existing desired ∙ same_gvk in
          let name_kept = converged-name laws framed existing desired formed ∙ same_name in
          let (stored, same) = stores.update_stores s o written updated in
          subst (Leaves desired s) (sym after) (
            (
              written,
              subst
                  (λ gvk.
                    apis.objects.get (apis.objects.update s o).1 gvk [] (k.get_name desired)
                    ≡ ok written)
                  gvk_kept
                  (subst
                    (λ name.
                      apis.objects.get (apis.objects.update s o).1 (k.group_version_kind o) [] name
                      ≡ ok written)
                    name_kept stored),
              MeetsPolicy-same written o desired same
                  (converged-SamePolicy laws framed existing desired formed),
            ),
            λ gvk name apart.
                stores.update_apart s o gvk name
                  (λ at. apart (sym gvk_kept ∙ at.0, sym name_kept ∙ at.1)),
          )
    ]

  -- The loop's body that went on.
  went_on :
      (objs : List Object) (r : Flow Error Bool × apis.host.State)
      → (continue r (λ b. if b then ensure_policies q apis objs else pure false)).0 ≡ next true
      → (r.0 ≡ next true)
        × (continue r (λ b. if b then ensure_policies q apis objs else pure false)
            ≡ ensure_policies q apis objs r.1)
  unfolding pure
  went_on objs (next true, s) h = (refl, refl)
  went_on objs (next false, s) h = ground arith
  went_on objs (stop e, s) h = ground arith

  step :
      (desired : Object) (objs : List Object) (s : apis.host.State)
      → (ensure_policies q apis (desired ∷ objs) s).0 ≡ next true
      → ((ensured desired s).0 ≡ next true)
        × (ensure_policies q apis (desired ∷ objs) s
            ≡ ensure_policies q apis objs (ensured desired s).1)
  unfolding ensure_policies ◌>>=◌
  step desired objs s h = went_on objs (ensured desired s) h

  policies-Apart :
      (objs : List Object) (s : apis.host.State) (gvk : Gvk) (name : Text)
      → All (λ p. Apart p gvk name) objs
      → (ensure_policies q apis objs s).0 ≡ next true
      → apis.objects.get (ensure_policies q apis objs s).1 gvk [] name
        ≡ apis.objects.get s gvk [] name
  unfolding ensure_policies pure
  policies-Apart [] s gvk name apart done = refl
  policies-Apart (desired ∷ objs) s gvk name (apart, rest) done =
      let (first, onward) = step desired objs s done in
      ap (λ r. apis.objects.get r.1 gvk [] name) onward
      ∙ policies-Apart objs (ensured desired s).1 gvk name rest (ap (λ r. r.0) (sym onward) ∙ done)
      ∙ (ensured-Leaves desired s first).1 gvk name apart

  -- Take a client that stores what it accepts, with defaults where a map has no entry, and leaves all
  -- else; and objects of distinct kinds or names. Where the loop over them answers yes, the cluster
  -- then has an object of each one's kind and name with its labels, in whose spec there is all that
  -- is in its spec: none was skipped, and none undone by a later one.
  pub ensure_policies-Enforced :
      (objs : List Object) (s : apis.host.State)
      → Distinct objs
      → (ensure_policies q apis objs s).0 ≡ next true
      → All (Enforced (ensure_policies q apis objs s).1) objs
  ensure_policies-Enforced [] s distinct done = tt
  ensure_policies-Enforced (desired ∷ objs) s (apart, distinct) done =
      let (first, onward) = step desired objs s done in
      let done' = ap (λ r. r.0) (sym onward) ∙ done in
      let s' = (ensured desired s).1 in
      let ((o, there, same), others) = ensured-Leaves desired s first in
      subst (λ r. All (Enforced r.1) (desired ∷ objs)) (sym onward)
        (
          (
            o,
            policies-Apart objs s' (k.group_version_kind desired) (k.get_name desired) apart done'
                ∙ there,
            same,
          ),
          ensure_policies-Enforced objs s' distinct done',
        )
