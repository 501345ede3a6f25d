-- ===== src/Controller/Admission/Scope/Laws.antt =====
-- The controller's scope policies on a cluster that does not know their kind.
use tenantplane.Base.{◌≡◌, true, false, List, [], ◌∷◌, arith}
use tenantplane.Base.Result.{err, Error}
use tenantplane.Base.Action.{next, ◌>>=◌, pure}
use tenantplane.Object.{Object, Unstructured}
use tenantplane.Isolation.{Quantities}
use tenantplane.Controller.Namespace.{admission_hardening_unsupported}
use tenantplane.Controller.Apis.{Apis}
use tenantplane.Controller.Admission.Laws.{ensure_policy-unsupported}
use tenantplane.Controller.Admission.Scope.{ensure_policies}

module _ (q : Quantities) (apis : Apis q) ⦃unstructured : Unstructured⦄ where
  -- Where the first kind is unknown, none of the objects is written, and the answer is no.
  pub ensure_policies-unsupported :
      (desired : Object) (objs : List Object) (s : apis.host.State) (failure : Error)
      → apis.objects.get s
          (unstructured.group_version_kind desired)
          []
          (unstructured.get_name desired)
        ≡ err failure
      → admission_hardening_unsupported failure ≡ true
      → ensure_policies q apis (desired ∷ objs) s ≡ (next false, s)
  unfolding ensure_policies ◌>>=◌ pure
  ensure_policies-unsupported desired objs s failure missing unsupported = ground (
    arith,
    ensure_policy-unsupported q apis (unstructured.group_version_kind desired) desired s failure
        missing unsupported,
  )
