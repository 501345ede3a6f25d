-- ===== src/Syncer/Pass.antt =====
-- `syncPass` of internal/syncer/engine.go, its three entry points, and its filters.
pub mod Laws
pub mod Frame
pub mod Spared
pub mod Owned
pub mod Loop
use tenantplane.Base.{
  String, Bool, true, false, not, ◌&&◌, ◌||◌, Option, none, some, List, [], ◌∷◌, ◌++◌, ◌==◌,
  bytes_eq, string_eq, if◌then◌else◌, Dict, lookup, insert,
}
use tenantplane.Base.Text.{Text, text, is_empty}
use tenantplane.Base.Go.{Unicode}
use tenantplane.Base.Result.{Result, ok, err, Error, message, wrap}
use tenantplane.Object.{Object, Value, string, Gvk, Unstructured}
use tenantplane.Syncplan.Plan.{ResourceRef}
use tenantplane.Syncplan.Transform.Build.{build_host_object}
use tenantplane.Syncer.{
  Direction, to_host, from_host, bidirectional, Resource, Decision, Clients, Engine, World,
}
use tenantplane.Syncer.Pair.{reconcile_pair, is_to_host, is_bidirectional}
use tenantplane.Syncer.Orphans.{Outcome, Names, Sweep, aggregate, list_gvk, collect_orphans}

abbrev pub default_skip_namespaces : Names
default_skip_namespaces =
    (text "kube-system", true) ∷ (text "kube-public", true) ∷ (text "kube-node-lease", true) ∷ []

abbrev flagged : Text → Names → Bool
flagged namespace names = elim (lookup namespace names) [ none ↦ false | some b ↦ b ]

unfoldable pub skips : Engine → Text → Bool
skips e namespace = elim e.skip_namespaces [
  | none ↦ flagged namespace default_skip_namespaces
  | some names ↦ flagged namespace names
]

module _ ⦃k : Unstructured⦄ where
  unfoldable pub is_virtual_infrastructure : Text → Object → Bool
  is_virtual_infrastructure kind obj =
      if kind == text "Service" || kind == text "Endpoints"
      then k.get_namespace obj == text "default" && k.get_name obj == text "kubernetes"
      else if kind == text "ConfigMap"
      then k.get_name obj == text "kube-root-ca.crt"
      else false

  unfoldable pub ref_for : Engine → Text → Object → ResourceRef
  ref_for e kind obj = record {
    tenant_cluster = e.tenant;
    tenant_namespace = e.host_namespace;
    virtual_namespace = k.get_namespace obj;
    kind = kind;
    name = k.get_name obj;
  }

module _ (env : Clients) where
  unfoldable pub record_decision : Engine → Decision → World env → World env
  record_decision e d w = if e.has_recorder then record w { recorded = w.recorded ++ d ∷ [] } else w

  unfoldable pub record_all : Engine → List Decision → World env → World env
  record_all e [] w = w
  record_all e (d ∷ ds) w = record_all e ds (record_decision e d w)

-- What the loop over the virtual objects has gathered.
pub record Progress (env : Clients) : Type 0 where
  pub decisions : List Decision
  pub errs : List Error
  pub desired : Names
  pub world : World env

abbrev pub with_error : List Error → Option Error → List Error
with_error errs none = errs
with_error errs (some e) = errs ++ e ∷ []

abbrev is_from_host : Direction → Bool
is_from_host from_host = true
is_from_host _ = false

module _ (env : Clients) where
  abbrev pub not_implemented : World env → Outcome × World env
  not_implemented w = (
    record {
      decisions = [];
      error = some (message (text "syncer: direction %q is not implemented (only %q)"));
    },
    w,
  )

module _ (env : Clients) ⦃u : Unicode⦄ ⦃k : Unstructured⦄ where
  -- The host object that the pass wants for a virtual object.
  unfoldable pub desired_host : Engine → Gvk → Object → Result Object
  desired_host e gvk obj = elim (build_host_object (ref_for e gvk.kind obj) (some obj)) [
    | err failure ↦ err (wrap (text "%s/%s: build host object") failure)
    | ok host ↦
        let host = k.set_group_version_kind host gvk in
        if gvk.kind == text "Pod" && not (is_empty e.required_runtime_class_name)
        then elim (k.set_nested_field host (string e.required_runtime_class_name)
            ("spec" ∷ "runtimeClassName" ∷ [])) [
              | none ↦ err (message (text "%s/%s: set runtimeClassName"))
              | some host ↦ ok host
            ]
        else ok host
  ]

  -- The loop's body once the host object is built: its name is desired, whatever comes of the pair.
  unfoldable pub project :
      Engine → Direction → Text → Gvk → Object → Object → Progress env → Progress env
  unfolding record_decision
  project e direction policy gvk obj host p =
      let desired = insert (k.get_name host) true p.desired in
      let (outcome, w) =
        reconcile_pair env e direction policy (ref_for e gvk.kind obj) obj host p.world in
      elim outcome [
        | err failure ↦ record {
          decisions = p.decisions;
          errs = p.errs ++ wrap (text "%s/%s: reconcile") failure ∷ [];
          desired = desired;
          world = w;
        }
        | ok d ↦ record {
          decisions = p.decisions ++ d ∷ [];
          errs = p.errs;
          desired = desired;
          world = record_decision env e d w;
        }
      ]

  unfoldable pub sync_object :
      Engine → Direction → Text → Gvk → Object → Progress env → Progress env
  sync_object e direction policy gvk obj p =
      if skips e (k.get_namespace obj) || is_virtual_infrastructure gvk.kind obj
      then p
      else elim (desired_host e gvk obj) [
        | err failure ↦ record p { errs = p.errs ++ failure ∷ [] }
        | ok host ↦ project e direction policy gvk obj host p
      ]

  unfoldable pub sync_all :
      Engine → Direction → Text → Gvk → List Object → Progress env → Progress env
  sync_all e direction policy gvk [] p = p
  sync_all e direction policy gvk (obj ∷ items) p =
      sync_all e direction policy gvk items (sync_object e direction policy gvk obj p)

  unfoldable pub sync_pass : Engine → Resource → Text → World env → Outcome × World env
  sync_pass e res policy w = elim (env.tenant.list w.tenant (list_gvk res.gvk) none []) [
    | err failure ↦
        (record { decisions = []; error = some (wrap (text "list virtual %s") failure) }, w)
    | ok items ↦
        let start : Progress env = record { decisions = []; errs = []; desired = []; world = w } in
        let p = sync_all e res.direction policy res.gvk items start in
        let (gc, w) = collect_orphans env e res.gvk p.desired p.world in
        (
          record {
            decisions = p.decisions ++ gc.decisions;
            error = aggregate (with_error p.errs gc.error);
          },
          record_all env e gc.decisions w,
        )
  ]

  unfoldable pub sync_to_host : Engine → Resource → World env → Outcome × World env
  sync_to_host e res w =
      if is_to_host res.direction then sync_pass e res [] w else not_implemented env w

  unfoldable pub sync_from_host : Engine → Resource → World env → Outcome × World env
  sync_from_host e res w =
      if is_from_host res.direction then sync_pass e res [] w else not_implemented env w

  unfoldable pub sync_bidirectional : Engine → Resource → Text → World env → Outcome × World env
  sync_bidirectional e res policy w =
      if is_bidirectional res.direction then sync_pass e res policy w else not_implemented env w
