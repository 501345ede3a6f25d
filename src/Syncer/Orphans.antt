-- ===== src/Syncer/Orphans.antt =====
-- `collectOrphans` and `aggregate` of internal/syncer/engine.go.
pub mod Safety
use tenantplane.Base.{
  String, Bool, true, false, not, ◌&&◌, Option, none, some, List, [], ◌∷◌, ◌++◌, ◌==◌, bytes_eq,
  string_eq, if◌then◌else◌, Dict, lookup,
}
use tenantplane.Base.Text.{Text, text}
use tenantplane.Base.Go.{Unicode}
use tenantplane.Base.Result.{Result, ok, err, Error, message, wrap, is_not_found, error_text}
use tenantplane.Object.{Object, Gvk, Unstructured}
use tenantplane.Syncplan.Sanitize.{sanitize_name}
use tenantplane.Syncplan.Plan.{ResourceRef, HostTarget}
use tenantplane.Syncplan.Transform.Build.{reverse_lookup}
use tenantplane.Syncplan.Transform.Labels.{
  label_managed_by, label_tenant, label_kind, managed_by_value,
}
use tenantplane.Syncer.{Action, delete, skip, Decision, Clients, Engine, World}
use tenantplane.Syncer.Pair.{rate_limited, reason_limited, target_of}

-- What a pass returns: its decisions and its error, if any. Go returns both.
pub record Outcome : Type 0 where
  pub decisions : List Decision
  pub error : Option Error

abbrev joined_texts : List Error → Text
joined_texts [] = []
joined_texts (e ∷ errs) = b'\n' ∷ text "  - " ++ error_text e ++ joined_texts errs

-- Several errors become one that names them all.
unfoldable pub aggregate : List Error → Option Error
aggregate [] = none
aggregate (e ∷ []) = some e
aggregate (e ∷ f ∷ errs) = some (message (text "%d sync errors" ++ joined_texts (e ∷ f ∷ errs)))

-- A set of names, as the Go map to true.
abbrev pub Names : Type 0
Names = Dict Text Bool

abbrev pub is_member : Text → Names → Bool
is_member name names = elim (lookup name names) [ none ↦ false | some b ↦ b ]

abbrev pub reason_orphan : Text
reason_orphan = text "virtual source no longer exists"

abbrev pub no_ref : ResourceRef
no_ref = record {
  tenant_cluster = [];
  tenant_namespace = [];
  virtual_namespace = [];
  kind = [];
  name = [];
}

abbrev pub list_gvk : Gvk → Gvk
list_gvk gvk = record gvk { kind = gvk.kind ++ text "List" }

-- What the loop has gathered.
pub record Sweep (env : Clients) : Type 0 where
  pub decisions : List Decision
  pub errs : List Error
  pub world : World env

module _ (env : Clients) ⦃k : Unstructured⦄ where
  -- ref, _ := ReverseLookup(obj)
  abbrev pub ref_of : Object → ResourceRef
  ref_of obj = elim (reverse_lookup (some obj)) [ none ↦ no_ref | some ref ↦ ref ]

  abbrev pub decision_on : Action → Text → Object → Text → Decision
  decision_on action kind obj reason = record {
    action = action;
    kind = kind;
    ref = ref_of obj;
    host = target_of env obj;
    reason = reason;
  }

  -- The loop's body for an object whose name is not desired.
  unfoldable pub collect : Gvk → Object → Sweep env → Sweep env
  unfolding rate_limited
  collect gvk obj s =
      let (limited, w) = rate_limited env s.world in
      if limited
      then record {
        decisions = s.decisions ++ decision_on skip (ref_of obj).kind obj reason_limited ∷ [];
        errs = s.errs;
        world = w;
      }
      else (let (deleted, h) = env.host.delete_object w.host obj in
          let w : World env = record w { host = h } in
          let gone : Sweep env = record {
            decisions = s.decisions ++ decision_on delete gvk.kind obj reason_orphan ∷ [];
            errs = s.errs;
            world = w;
          } in
          elim deleted [
            | ok _ ↦ gone
            | err e ↦ if is_not_found e then gone else record {
              decisions = s.decisions;
              errs = s.errs ++ wrap (text "delete orphan %s") e ∷ [];
              world = w;
            }
          ])

  unfoldable pub collect_all : Gvk → Names → List Object → Sweep env → Sweep env
  collect_all gvk desired [] s = s
  collect_all gvk desired (obj ∷ items) s =
      collect_all gvk desired items
        (if is_member (k.get_name obj) desired then s else collect gvk obj s)

module _ (env : Clients) ⦃u : Unicode⦄ ⦃k : Unstructured⦄ where
  -- The labels by which the engine finds its own objects.
  abbrev pub selector : Engine → Gvk → Dict String Text
  selector e gvk =
      (label_managed_by, managed_by_value)
      ∷ (label_tenant, sanitize_name e.tenant)
      ∷ (label_kind, sanitize_name gvk.kind)
      ∷ []

  unfoldable pub collect_orphans : Engine → Gvk → Names → World env → Outcome × World env
  unfolding collect_all collect
  collect_orphans e gvk desired w =
      elim (env.host.list w.host (list_gvk gvk) (some e.host_namespace) (selector e gvk)) [
        | err failure ↦
            (record { decisions = []; error = some (wrap (text "list host %s for GC") failure) }, w)
        | ok items ↦
            let s =
              collect_all env gvk desired items (record { decisions = []; errs = []; world = w }) in
            (record { decisions = s.decisions; error = aggregate s.errs }, s.world)
      ]
