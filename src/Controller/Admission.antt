-- ===== src/Controller/Admission.antt =====
-- internal/controller/admission.go: the admission policy on runtime classes, and its binding for each
-- tenant.
pub mod Scope
pub mod Laws
pub mod Enforced
use tenantplane.Base.{
  String, Bool, true, false, List, [], ◌∷◌, ◌++◌, Option, none, some, if◌then◌else◌, Dict, lookup,
  insert, erase, string_eq,
}
use tenantplane.Base.Text.{Text, text}
use tenantplane.Base.Go.{Unicode}
use tenantplane.Base.Result.{Result, ok, err, Error, is_not_found}
use tenantplane.Base.Action.{Action, ◌>>=◌, pure, return, read, call, attempt}
use tenantplane.Object.{
  Value, Items, Fields, string, object, slice, end, field, nil, cons, Object, of_object, of_list,
  null, Gvk, Unstructured,
}
use tenantplane.Syncplan.Transform.Build.{entries}
use tenantplane.Api.{TenantCluster}
use tenantplane.Isolation.{Quantities}
use tenantplane.Controller.Namespace.{
  label_managed_by, label_tenant, label_tenant_namespace, admission_hardening_unsupported,
  runtime_class_binding_name,
}
use tenantplane.Controller.Apis.{Apis}

-- Literals: a string, a map and a slice.
abbrev pub str : String → Value
str s = string (text s)

abbrev pub obj : Object → Value
obj o = object (of_object o)

abbrev pub arr : List Value → Value
arr vs = slice (of_list vs)

unfoldable pub vap_gvk : Gvk
vap_gvk = record {
  group = text "admissionregistration.k8s.io";
  version = text "v1";
  kind = text "ValidatingAdmissionPolicy";
}

unfoldable pub vap_binding_gvk : Gvk
vap_binding_gvk = record {
  group = text "admissionregistration.k8s.io";
  version = text "v1";
  kind = text "ValidatingAdmissionPolicyBinding";
}

abbrev pub runtime_class_policy_name : Text
runtime_class_policy_name = text "tenantplane-runtimeclass"

abbrev isolation_profile_param_kind : Value
isolation_profile_param_kind =
    obj (("apiVersion", str "tenantplane.io/v1alpha1") ∷ ("kind", str "IsolationProfile") ∷ [])

-- A rule of spec.matchConstraints.resourceRules.
abbrev pub resource_rule : Value → List Value → List Value → Value
resource_rule group operations resources = obj (
    ("apiGroups", arr (group ∷ []))
    ∷ ("apiVersions", arr (str "v1" ∷ []))
    ∷ ("operations", arr operations)
    ∷ ("resources", arr resources)
    ∷ [])

abbrev pub validation : Value → Value → Value
validation expression message = obj (("expression", expression) ∷ ("message", message) ∷ [])

-- The metadata and the spec of an object before it has its kind.
abbrev pub admission_object : Text → Object → Object → Object
admission_object name labels spec =
    ("metadata", obj (("name", string name) ∷ ("labels", obj labels) ∷ []))
    ∷ ("spec", obj spec)
    ∷ []

abbrev pub managed : Object
managed = (label_managed_by, str "tenantplane") ∷ []

abbrev runtime_class_policy_spec : Object
runtime_class_policy_spec =
    ("failurePolicy", str "Fail")
    ∷ ("paramKind", isolation_profile_param_kind)
    ∷ (
      "matchConstraints",
      obj (
          ("resourceRules", arr (resource_rule (str "") (str "CREATE" ∷ []) (str "pods" ∷ []) ∷ []))
          ∷ []),
    )
    ∷ (
      "validations",
      arr (
          validation
            (str
              "params.spec.controls.runtimeClassName == \"\" || (has(object.spec.runtimeClassName) && object.spec.runtimeClassName == params.spec.controls.runtimeClassName)")
            (str
              "this namespace's IsolationProfile requires a specific runtimeClassName; the pod's spec.runtimeClassName is missing or does not match it")
          ∷ []),
    )
    ∷ []

-- existing.Object["spec"] = desired.Object["spec"]; a missing entry is nil.
unfoldable pub with_spec : Object → Object → Object
with_spec existing desired =
    insert "spec" (elim (lookup "spec" desired) [ none ↦ null | some v ↦ v ]) existing

module _ ⦃unstructured : Unstructured⦄ where
  unfoldable pub build_runtime_class_policy : Object
  build_runtime_class_policy =
      unstructured.set_group_version_kind
        (admission_object runtime_class_policy_name managed runtime_class_policy_spec) vap_gvk

  -- existing, with the spec and the labels of desired
  unfoldable pub converged_policy : Object → Object → Object
  unfolding with_spec
  converged_policy existing desired =
      unstructured.set_labels (with_spec existing desired)
        (entries (unstructured.get_labels desired))

  module _ ⦃u : Unicode⦄ where
    abbrev runtime_class_binding_spec : TenantCluster → Object
    runtime_class_binding_spec tc =
        ("policyName", string runtime_class_policy_name)
        ∷ (
          "paramRef",
          obj (
              ("name", string tc.spec.isolation_profile_ref)
              ∷ ("parameterNotFoundAction", str "Deny")
              ∷ []),
        )
        ∷ (
          "matchResources",
          obj (
              (
                "namespaceSelector",
                obj (
                    ("matchLabels", obj (("kubernetes.io/metadata.name", string tc.namespace) ∷ []))
                    ∷ []),
              )
              ∷ []),
        )
        ∷ ("validationActions", arr (str "Deny" ∷ []))
        ∷ []

    unfoldable pub build_runtime_class_binding : TenantCluster → Object
    unfolding runtime_class_binding_name
    build_runtime_class_binding tc =
        unstructured.set_group_version_kind
          (admission_object (runtime_class_binding_name tc)
            ((label_managed_by, str "tenantplane")
              ∷ (label_tenant, string tc.name)
              ∷ (label_tenant_namespace, string tc.namespace)
              ∷ [])
            (runtime_class_binding_spec tc))
          vap_binding_gvk

module _ (q : Quantities) (apis : Apis q) ⦃unstructured : Unstructured⦄ where
  -- The creation, after the object was not found; whether the cluster supports the kind.
  unfoldable pub create_supported : Object → Action apis.host.State Error Bool
  create_supported desired = do
    created ← attempt (call λ s. apis.objects.create s desired)
    elim created [
      | ok object_created ↦ pure true
      | err e ↦ if admission_hardening_unsupported e then pure false else return e
    ]

  -- Creates or converges a cluster-scoped object. The answer is whether the cluster supports the
  -- kind.
  unfoldable pub ensure_policy : Gvk → Object → Action apis.host.State Error Bool
  unfolding create_supported
  ensure_policy gvk desired = do
    found ← read λ s. apis.objects.get s gvk [] (unstructured.get_name desired)
    elim found [
      | err failure ↦
          if admission_hardening_unsupported failure
          then pure false
          else if is_not_found failure
          then create_supported desired
          else return failure
      | ok existing ↦ do
        updated ← call λ s. apis.objects.update s (converged_policy existing desired)
        pure true
    ]

  unfoldable pub ensure_runtime_class_policy : Action apis.host.State Error Bool
  unfolding ensure_policy
  ensure_runtime_class_policy = ensure_policy vap_gvk build_runtime_class_policy

  unfoldable pub reconcile_runtime_class_binding :
      ⦃u : Unicode⦄ → TenantCluster → Action apis.host.State Error Unit
  reconcile_runtime_class_binding tc = do
    let desired = build_runtime_class_binding tc
    found ← read λ s. apis.objects.get s vap_binding_gvk [] (unstructured.get_name desired)
    elim found [
      | err failure ↦
          if is_not_found failure
          then (do created ← call λ s. apis.objects.create s desired; pure tt)
          else return failure
      | ok existing ↦ do
        updated ← call λ s. apis.objects.update s (converged_policy existing desired)
        pure tt
    ]
