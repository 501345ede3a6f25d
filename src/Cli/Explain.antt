-- ===== src/Cli/Explain.antt =====
-- `explainSync` of cmd/tenantplane/main.go: the projection of one resource, in print.
use tenantplane.Base.{String, ◌||◌, List, [], ◌∷◌, ◌++◌, string_eq, if◌then◌else◌, Dict, text_at}
use tenantplane.Base.Text.{Text, text, is_empty}
use tenantplane.Base.Go.{Unicode}
use tenantplane.Base.Result.{Result, ok, err, message, ◌>>=◌}
use tenantplane.Syncplan.Plan.{ResourceRef, Plan, explain}
use tenantplane.Syncplan.Transform.Labels.{
  label_managed_by, label_tenant, label_virtual_namespace, label_kind, annotation_virtual_namespace,
  annotation_virtual_name, host_labels, host_annotations,
}
use tenantplane.Cli.Checks.{Flags, print_lines, entry}

abbrev explain_flags : Dict String Text
explain_flags =
    ("tenant", [])
    ∷ ("tenant-namespace", [])
    ∷ ("virtual-namespace", text "default")
    ∷ ("kind", text "Pod")
    ∷ ("name", [])
    ∷ []

unfoldable pub ref_from : Dict String Text → ResourceRef
ref_from flags = record {
  tenant_cluster = text_at "tenant" flags;
  tenant_namespace = text_at "tenant-namespace" flags;
  virtual_namespace = text_at "virtual-namespace" flags;
  kind = text_at "kind" flags;
  name = text_at "name" flags;
}

-- An entry of a map under its heading.
abbrev indented : String → Dict String Text → Text
indented key m = text "  " ++ text key ++ text ": " ++ text_at key m

module _ ⦃u : Unicode⦄ where
  unfoldable pub explanation : Plan → Text
  explanation plan =
      let labels = host_labels plan.input in
      let annotations = host_annotations plan.input in
      print_lines (
        text "tenantResource:"
        ∷ entry "  tenantCluster" plan.input.tenant_cluster
        ∷ entry "  virtualNamespace" plan.input.virtual_namespace
        ∷ entry "  kind" plan.input.kind
        ∷ entry "  name" plan.input.name
        ∷ text "hostResource:"
        ∷ entry "  namespace" plan.host.namespace
        ∷ entry "  name" plan.host.name
        ∷ text "labels:"
        ∷ indented label_managed_by labels
        ∷ indented label_tenant labels
        ∷ indented label_virtual_namespace labels
        ∷ indented label_kind labels
        ∷ text "annotations:"
        ∷ indented annotation_virtual_namespace annotations
        ∷ indented annotation_virtual_name annotations
        ∷ text "reason:"
        ∷ (text "  " ++ plan.reason)
        ∷ [])

  unfoldable pub explain_sync : ⦃flags : Flags⦄ → List Text → Result Text
  unfolding ref_from explanation
  explain_sync ⦃flags⦄ args = do
    parsed ← flags.parse explain_flags args
    let ref = ref_from parsed.0
    if is_empty ref.tenant_cluster || is_empty ref.tenant_namespace || is_empty ref.name
        then err (message (text "explain-sync requires --tenant, --tenant-namespace, and --name"))
        else (do plan ← explain ref; ok (explanation plan))
