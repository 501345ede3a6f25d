-- ===== src/Syncplan/Transform/Labels.antt =====
-- `HostLabels`, `HostAnnotations` and `mergeMap` of internal/syncplan/transform.go.
use tenantplane.Base.{String, Option, none, some, [], ◌∷◌, Dict, insert_all, string_eq}
use tenantplane.Base.Text.{Text, text}
use tenantplane.Base.Go.{Unicode}
use tenantplane.Syncplan.Sanitize.{sanitize_name}
use tenantplane.Syncplan.Plan.{ResourceRef}

abbrev pub label_managed_by : String
label_managed_by = "app.kubernetes.io/managed-by"

abbrev pub label_tenant : String
label_tenant = "tenantplane.io/tenant"

abbrev pub label_virtual_namespace : String
label_virtual_namespace = "tenantplane.io/virtual-namespace"

abbrev pub label_kind : String
label_kind = "tenantplane.io/kind"

abbrev pub annotation_virtual_namespace : String
annotation_virtual_namespace = "tenantplane.io/virtual-namespace"

abbrev pub annotation_virtual_name : String
annotation_virtual_name = "tenantplane.io/virtual-name"

abbrev pub managed_by_value : Text
managed_by_value = text "tenantplane"

module _ ⦃u : Unicode⦄ where
  unfoldable pub host_labels : ResourceRef → Dict String Text
  host_labels ref =
      (label_managed_by, managed_by_value)
      ∷ (label_tenant, sanitize_name ref.tenant_cluster)
      ∷ (label_virtual_namespace, sanitize_name ref.virtual_namespace)
      ∷ (label_kind, sanitize_name ref.kind)
      ∷ []

unfoldable pub host_annotations : ResourceRef → Dict String Text
host_annotations ref =
    (annotation_virtual_namespace, ref.virtual_namespace) ∷ (annotation_virtual_name, ref.name) ∷ []

-- A nil map of labels is `none`.
unfoldable pub merge_map : Option (Dict String Text) → Dict String Text → Dict String Text
merge_map none overlay = insert_all [] overlay
merge_map (some base) overlay = insert_all base overlay
