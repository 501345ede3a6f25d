-- ===== src/Syncplan/Transform/Strip.antt =====
-- `stripHostAllocatedSpecFields` of internal/syncplan/transform.go.
use tenantplane.Base.{
  String, none, some, List, [], ◌∷◌, ◌==◌, bytes_eq, string_eq, if◌then◌else◌, erase, map,
}
use tenantplane.Base.Text.{Text, text}
use tenantplane.Object.{Object, Value, object, as_map, of_object, Unstructured}

abbrev pub service_allocated_spec_fields : List String
service_allocated_spec_fields =
    "clusterIP" ∷ "clusterIPs" ∷ "healthCheckNodePort" ∷ "ipFamilies" ∷ "ipFamilyPolicy" ∷ []

-- delete(port, "nodePort"), if the port is a map
abbrev pub without_node_port : Value → Value
without_node_port port = elim (as_map port) [
  | none ↦ port
  | some m ↦ object (of_object (erase "nodePort" m))
]

module _ ⦃k : Unstructured⦄ where
  -- for _, field := range fields { RemoveNestedField(o, section, field) }
  abbrev pub remove_all : String → List String → Object → Object
  remove_all section [] o = o
  remove_all section (f ∷ fields) o =
      remove_all section fields (k.remove_nested_field o (section ∷ f ∷ []))

  -- The result of `SetNestedSlice` is ignored: where it fails the object stays.
  unfoldable pub strip_node_ports : Object → Object
  strip_node_ports host = elim (k.nested_slice host ("spec" ∷ "ports" ∷ [])) [
    | none ↦ host
    | some ports ↦
        elim (k.set_nested_slice host (map without_node_port ports) ("spec" ∷ "ports" ∷ [])) [
          | none ↦ host
          | some host' ↦ host'
        ]
  ]

  unfoldable pub strip_host_allocated_spec_fields : Text → Object → Object
  unfolding strip_node_ports
  strip_host_allocated_spec_fields kind host =
      if kind == text "Service"
      then strip_node_ports (remove_all "spec" service_allocated_spec_fields host)
      else host
