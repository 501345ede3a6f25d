-- ===== src/Syncplan/Transform/Content.antt =====
-- `contentFrom`, `ContentEqual` and `MergeHostContentIntoTenant` of internal/syncplan/transform.go.
pub mod Laws
use tenantplane.Base.{
  String, Bool, true, false, ◌||◌, [], ◌∷◌, ◌==◌, string_eq, if◌then◌else◌, insert_all, erase,
}
use tenantplane.Base.Text.{Text}
use tenantplane.Object.{Object, Value, object, of_object, deep_equal, Unstructured}
use tenantplane.Syncplan.Transform.Strip.{strip_host_allocated_spec_fields}

-- The fields that are no content.
unfoldable pub is_frame : String → Bool
is_frame k = k == "apiVersion" || k == "kind" || k == "metadata" || k == "status"

unfoldable pub content_from : Object → Object
content_from [] = []
content_from ((k, v) ∷ o) = let rest = content_from o in if is_frame k then rest else (k, v) ∷ rest

-- for key := range keys { delete(o, key) }
unfoldable pub erase_all : Object → Object → Object
erase_all [] o = o
erase_all ((k, v) ∷ keys) o = erase_all keys (erase k o)

module _ ⦃k : Unstructured⦄ where
  -- The objects are compared without what their clusters allocate.
  unfoldable pub content_equal : Object → Object → Bool
  content_equal a b =
      let ac = strip_host_allocated_spec_fields (k.get_kind a) a in
      let bc = strip_host_allocated_spec_fields (k.get_kind b) b in
      deep_equal (object (of_object (content_from ac))) (object (of_object (content_from bc)))

  unfoldable pub merge_host_content_into_tenant : Object → Object → Object
  merge_host_content_into_tenant host_obj tenant_obj =
      let host_copy = strip_host_allocated_spec_fields (k.get_kind host_obj) host_obj in
      insert_all (erase_all (content_from tenant_obj) tenant_obj) (content_from host_copy)
