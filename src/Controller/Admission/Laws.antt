-- ===== src/Controller/Admission/Laws.antt =====
-- The ensured admission objects of internal/controller/admission.go, branch by branch.
use tenantplane.Base.{◌≡◌, true, false, [], string_eq, arith}
use tenantplane.Base.Result.{ok, err, Error}
use tenantplane.Base.Action.{next, ◌>>=◌, pure, read, call}
use tenantplane.Object.{Object, Gvk, Unstructured}
use tenantplane.Isolation.{Quantities}
use tenantplane.Controller.Namespace.{admission_hardening_unsupported}
use tenantplane.Controller.Apis.{Apis}
use tenantplane.Controller.Admission.{ensure_policy, converged_policy}

module _ (q : Quantities) (apis : Apis q) ⦃unstructured : Unstructured⦄ where
  -- On a cluster that does not know the kind, the answer is no, without an error or a write.
  pub ensure_policy-unsupported :
      (gvk : Gvk) (desired : Object) (s : apis.host.State) (failure : Error)
      → apis.objects.get s gvk [] (unstructured.get_name desired) ≡ err failure
      → admission_hardening_unsupported failure ≡ true
      → ensure_policy q apis gvk desired s ≡ (next false, s)
  unfolding ensure_policy ◌>>=◌ read pure
  ensure_policy-unsupported gvk desired s failure missing unsupported = ground arith

  -- An object that is there is written over with the desired spec and labels, or there is an error.
  pub ensure_policy-converges :
      (gvk : Gvk) (desired existing : Object) (s : apis.host.State)
      → apis.objects.get s gvk [] (unstructured.get_name desired) ≡ ok existing
      → (ensure_policy q apis gvk desired s).1
        ≡ (apis.objects.update s (converged_policy existing desired)).1
  unfolding ensure_policy ◌>>=◌ read pure call
  ensure_policy-converges gvk desired existing s there = ground arith
