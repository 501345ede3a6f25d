-- ===== src/Object.antt =====
-- Kubernetes objects as the program handles them: the dynamic values behind `interface{}`, Go's
-- `reflect.DeepEqual` on them, and the package unstructured of apimachinery as an interface.
pub mod Laws
pub mod Frame
pub mod Memory
pub mod Values
pub use Values.*
use tenantplane.Base.{String, Option, Dict, List}
use tenantplane.Base.Text.{Text}

-- schema.GroupVersionKind
pub record Gvk : Type 0 where
  pub group : Text
  pub version : Text
  pub kind : Text

-- What the program calls of unstructured.Unstructured and its package: the accessors of the
-- metadata, and the helpers on nested fields. A field that is not found, or that has another type,
-- is `none`; a write that fails is `none`.
pub record Unstructured : Type 0 where
  pub get_kind : Object → Text
  pub get_name : Object → Text
  pub get_namespace : Object → Text
  pub get_resource_version : Object → Text
  pub get_labels : Object → Option (Dict String Text)
  pub get_annotations : Object → Option (Dict String Text)
  pub group_version_kind : Object → Gvk
  pub set_name : Object → Text → Object
  pub set_namespace : Object → Text → Object
  pub set_resource_version : Object → Text → Object
  pub set_labels : Object → Dict String Text → Object
  pub set_annotations : Object → Dict String Text → Object
  pub set_group_version_kind : Object → Gvk → Object
  pub nested_field_copy : Object → List String → Option Value
  pub nested_map : Object → List String → Option Object
  pub nested_slice : Object → List String → Option (List Value)
  pub nested_int64 : Object → List String → Option ℤ
  pub set_nested_field : Object → Value → List String → Option Object
  pub set_nested_map : Object → Object → List String → Option Object
  pub set_nested_slice : Object → List Value → List String → Option Object
  pub remove_nested_field : Object → List String → Object
