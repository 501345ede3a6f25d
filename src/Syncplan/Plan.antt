-- ===== src/Syncplan/Plan.antt =====
-- `Explain` of internal/syncplan/plan.go and its records.
pub mod Laws
use tenantplane.Base.{if◌then◌else◌}
use tenantplane.Base.Text.{Text, text, is_empty}
use tenantplane.Base.Go.{Unicode}
use tenantplane.Base.Result.{Result, ok, err, message}
use tenantplane.Syncplan.Sanitize.{sanitize_name}
use tenantplane.Syncplan.HostName.{host_name}

pub record ResourceRef : Type 0 where
  pub tenant_cluster : Text
  pub tenant_namespace : Text
  pub virtual_namespace : Text
  pub kind : Text
  pub name : Text

pub record HostTarget : Type 0 where
  pub namespace : Text
  pub name : Text

pub record Plan : Type 0 where
  pub input : ResourceRef
  pub host : HostTarget
  pub reason : Text

abbrev pub plan_reason : Text
plan_reason =
    text
      "tenantplane uses a stable name made from resource, virtual namespace, and tenant cluster; labels preserve the reverse mapping."

abbrev required : Text → Result Plan
required what = err (message (what))

module _ ⦃u : Unicode⦄ where
  unfoldable pub explain : ResourceRef → Result Plan
  explain ref =
      if is_empty ref.tenant_cluster
      then required (text "tenant cluster is required")
      else if is_empty ref.tenant_namespace
      then required (text "tenant namespace is required")
      else if is_empty ref.virtual_namespace
      then required (text "virtual namespace is required")
      else if is_empty ref.kind
      then required (text "kind is required")
      else if is_empty ref.name
      then required (text "name is required")
      else ok (record {
        input = ref;
        host = record {
          namespace = sanitize_name ref.tenant_namespace;
          name = host_name ref.name ref.virtual_namespace ref.tenant_cluster;
        };
        reason = plan_reason;
      })
