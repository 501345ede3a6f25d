-- ===== src/Controller/Admission/Scope.antt =====
-- internal/controller/rbac_scope.go: the policies that confine the controller's own writes and
-- deletions to the namespaces that it manages.
pub mod Laws
use tenantplane.Base.{String, Bool, true, false, List, [], ◌∷◌, ◌++◌, if◌then◌else◌}
use tenantplane.Base.Text.{Text, text}
use tenantplane.Base.Result.{Error}
use tenantplane.Base.Action.{Action, ◌>>=◌, pure}
use tenantplane.Object.{Value, string, Object, Gvk, Unstructured}
use tenantplane.Isolation.{Quantities}
use tenantplane.Controller.Namespace.{label_managed_by}
use tenantplane.Controller.Apis.{Apis}
use tenantplane.Controller.Admission.{
  str, obj, arr, vap_gvk, vap_binding_gvk, resource_rule, validation, admission_object, managed,
  ensure_policy,
}

abbrev controller_service_account_username : Text
controller_service_account_username =
    text "system:serviceaccount:tenantplane-system:tenantplane-controller"

abbrev pub write_scope_policy_name : Text
write_scope_policy_name = text "tenantplane-controller-write-scope"

abbrev pub namespace_scope_policy_name : Text
namespace_scope_policy_name = text "tenantplane-controller-namespace-scope"

abbrev pub write_scope_binding_name : Text
write_scope_binding_name = text "tenantplane-controller-write-scope"

abbrev pub namespace_scope_binding_name : Text
namespace_scope_binding_name = text "tenantplane-controller-namespace-scope"

abbrev writes : List Value
writes = str "CREATE" ∷ str "UPDATE" ∷ str "DELETE" ∷ []

-- request.userInfo.username != "<the controller>"
abbrev is_another_user : Text
is_another_user =
    text "request.userInfo.username != \"" ++ controller_service_account_username ++ text "\""

abbrev core_resources : List Value
core_resources =
    str "secrets"
    ∷ str "configmaps"
    ∷ str "services"
    ∷ str "resourcequotas"
    ∷ str "limitranges"
    ∷ str "persistentvolumeclaims"
    ∷ str "pods"
    ∷ []

-- The spec of a policy, of its rules and its validation.
abbrev policy_spec : List Value → Value → Object
policy_spec rules check =
    ("failurePolicy", str "Fail")
    ∷ ("matchConstraints", obj (("resourceRules", arr rules) ∷ []))
    ∷ ("validations", arr (check ∷ []))
    ∷ []

module _ ⦃unstructured : Unstructured⦄ where
  unfoldable pub build_controller_write_scope_policy : Object
  build_controller_write_scope_policy =
      unstructured.set_group_version_kind
        (admission_object write_scope_policy_name managed (
          policy_spec
            (resource_rule (str "") writes core_resources
              ∷ resource_rule (str "apps") writes (str "statefulsets" ∷ str "deployments" ∷ [])
              ∷ resource_rule (str "networking.k8s.io") writes (str "networkpolicies" ∷ [])
              ∷ [])
            (validation (string is_another_user) (
              str
                "the tenantplane controller may only write to namespaces it manages (labeled app.kubernetes.io/managed-by=tenantplane)"))))
        vap_gvk

  unfoldable pub build_controller_write_scope_binding : Object
  build_controller_write_scope_binding =
      unstructured.set_group_version_kind
        (admission_object write_scope_binding_name managed (
          ("policyName", string write_scope_policy_name)
          ∷ (
            "matchResources",
            obj (
                (
                  "namespaceSelector",
                  obj (
                      (
                        "matchExpressions",
                        arr (
                            obj (
                              ("key", str label_managed_by)
                              ∷ ("operator", str "NotIn")
                              ∷ ("values", arr (str "tenantplane" ∷ []))
                              ∷ [])
                            ∷ []),
                      )
                      ∷ []),
                )
                ∷ []),
          )
          ∷ ("validationActions", arr (str "Deny" ∷ []))
          ∷ []))
        vap_binding_gvk

  unfoldable pub build_namespace_delete_scope_policy : Object
  build_namespace_delete_scope_policy =
      unstructured.set_group_version_kind
        (admission_object namespace_scope_policy_name managed (
          policy_spec (resource_rule (str "") (str "DELETE" ∷ []) (str "namespaces" ∷ []) ∷ []) (
            validation
              (string (
                is_another_user
                ++ text " || (has(oldObject.metadata.labels) && \""
                ++ text label_managed_by
                ++ text "\" in oldObject.metadata.labels && oldObject.metadata.labels[\""
                ++ text label_managed_by
                ++ text "\"] == \"tenantplane\")"))
              (str
                "the tenantplane controller may only delete namespaces it manages (labeled app.kubernetes.io/managed-by=tenantplane)"))))
        vap_gvk

  unfoldable pub build_namespace_delete_scope_binding : Object
  build_namespace_delete_scope_binding =
      unstructured.set_group_version_kind
        (admission_object namespace_scope_binding_name managed (
          ("policyName", string namespace_scope_policy_name)
          ∷ ("validationActions", arr (str "Deny" ∷ []))
          ∷ []))
        vap_binding_gvk

  abbrev pub scope_policies : List Object
  scope_policies =
      build_controller_write_scope_policy ∷ build_controller_write_scope_binding
      ∷ build_namespace_delete_scope_policy ∷ build_namespace_delete_scope_binding ∷ []

module _ (q : Quantities) (apis : Apis q) ⦃unstructured : Unstructured⦄ where
  -- for _, desired := range objs
  unfoldable pub ensure_policies : List Object → Action apis.host.State Error Bool
  unfolding ensure_policy
  ensure_policies [] = pure true
  ensure_policies (desired ∷ objs) = do
    supported ← ensure_policy q apis (unstructured.group_version_kind desired) desired
    if supported then ensure_policies objs else pure false

  unfoldable pub ensure_controller_scope_policies : Action apis.host.State Error Bool
  unfolding ensure_policies
  ensure_controller_scope_policies = ensure_policies scope_policies
