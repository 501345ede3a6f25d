-- ===== src/Tests/Adopting.antt =====
-- The theorem on the second call for a namespace, at a host that adds a label of its own.
use tenantplane.Base.{
  String, ◌≡◌, refl, false, List, [], ◌∷◌, none, some, ◌==◌, bytes_eq, string_eq, if◌then◌else◌,
  arith, Bool-cases, inl, inr, insert, lookup-insert, beq_refl, eq_of_beq,
}
use tenantplane.Base.Text.{Text, text, is_empty}
use tenantplane.Base.Result.{Result, ok, err, not_found}
use tenantplane.Syncplan.Transform.Build.{entries}
use tenantplane.Controller.Namespace.{
  Namespace, Host, ensure_control_plane_namespace, owned_by_tenant, control_plane_namespace,
  converge_labels,
}
use tenantplane.Syncplan.HostName.{host_name}
use tenantplane.Syncplan.Sanitize.{sanitize_name}
use tenantplane.Controller.Namespace.Labels.{label_of}
use tenantplane.Controller.Namespace.Settled.{
  IsStoredAs, StoresNamespaces, IsSettled, ensure-settles,
}
use tenantplane.Tests.Setting.{ascii, tenant}

abbrev find : Text → List Namespace → Result Namespace
find name [] = err (not_found name)
find name (ns ∷ s) = let rest = find name s in if ns.name == name then ok ns else rest

-- The label with its own name, which an API server gives to a namespace that has none.
abbrev labelled : Namespace → Namespace
labelled ns =
    if is_empty (label_of "kubernetes.io/metadata.name" ns)
    then record ns {
      labels = some (insert "kubernetes.io/metadata.name" ns.name (entries ns.labels));
    }
    else ns

abbrev labelling : Host
labelling = record {
  State = List Namespace;
  get_namespace = λ s name. find name s;
  create_namespace = λ s ns. (none, labelled ns ∷ s);
  update_namespace = λ s ns. (none, labelled ns ∷ s);
  delete_namespace = λ s ns. (none, []);
  delete_binding = λ s name. (none, s);
}

found_named :
    (s : List Namespace) (name : Text) (ns : Namespace) → find name s ≡ ok ns → ns.name ≡ name
found_named [] name ns h = cc
found_named (x ∷ s) name ns h = ground (arith, found_named s name ns, eq_of_beq x.name name)

labelled-name : (ns : Namespace) → (labelled ns).name ≡ ns.name
labelled-name ns = ground arith

labelled-IsStoredAs : (ns : Namespace) → IsStoredAs (labelled ns) ns
labelled-IsStoredAs ns k v full h =
    elim (Bool-cases (is_empty (label_of "kubernetes.io/metadata.name" ns))) [
      | inr there ↦ ground arith
      | inl missing ↦ ground (
        arith,
        lookup-insert "kubernetes.io/metadata.name" k ns.name (entries ns.labels),
        eq_of_beq {A = String} "kubernetes.io/metadata.name" k,
      )
    ]

find-labelled :
    (s : List Namespace) (ns : Namespace) → find ns.name (labelled ns ∷ s) ≡ ok (labelled ns)
find-labelled s ns = rw (labelled-name ns, beq_refl ns.name) refl

labelling-StoresNamespaces : StoresNamespaces labelling
labelling-StoresNamespaces = record {
  named = found_named;
  creates = λ s ns done. (labelled ns, find-labelled s ns, labelled-IsStoredAs ns);
  updates = λ s ns done. (labelled ns, find-labelled s ns, labelled-IsStoredAs ns);
}

-- A namespace of the tenant that has lost a label.
abbrev drifted : Namespace
drifted = record {
  name = text "cp-x-dev-x-teams";
  labels = some (
      ("app.kubernetes.io/managed-by", text "tenantplane")
      ∷ ("tenantplane.io/tenant", text "dev")
      ∷ ("tenantplane.io/tenant-namespace", text "teams")
      ∷ []);
  deleting = false;
}

abbrev after : List Namespace
after = (ensure_control_plane_namespace labelling tenant (drifted ∷ [])).1

ensure-settles_example : IsSettled labelling tenant after
unfolding ensure_control_plane_namespace owned_by_tenant control_plane_namespace host_name
    sanitize_name converge_labels
ensure-settles_example =
    ensure-settles labelling tenant labelling-StoresNamespaces (drifted ∷ []) refl refl refl
