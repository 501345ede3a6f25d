-- ===== src/Tests/Releasing.antt =====
-- The theorem on the end of a deletion, at a host where a namespace goes away in one turn and the
-- binding is found by the first call alone.
use tenantplane.Base.{
  ℕ, ◌<◌, ◌≡◌, refl, true, List, [], ◌∷◌, Option, none, some, if◌then◌else◌, arith,
}
use tenantplane.Base.Text.{Text}
use tenantplane.Base.Result.{ok, err, Error, not_found, is_not_found}
use tenantplane.Controller.Namespace.{
  Namespace, Host, build_control_plane_namespace, control_plane_namespace,
}
use tenantplane.Controller.Apis.{Apis}
use tenantplane.Controller.Reconcile.Deletion.Ends.{
  is_unbound, Obliges, later, Ends, reconcile_deleted-Ends,
}
use tenantplane.Tests.Setting.{ascii, tenant, config_map}
use tenantplane.Object.{Object}
use tenantplane.Tests.Cluster.{quantities, Room, room, apis, namespace_of}

abbrev occupied : List Namespace → ℕ
occupied [] = 0
occupied (ns ∷ namespaces) = 1

-- The binding is there once.
abbrev unbind : Text → Room → List Object → Option Error × Room
unbind name s [] = (some (not_found name), s)
unbind name s (o ∷ rest) = (none, record s { policies = rest })

unbind-is_unbound :
    (name : Text) (s : Room) (o : List Object) → is_unbound (unbind name s o).0 ≡ true
unbind-is_unbound name s [] = refl
unbind-is_unbound name s (o ∷ rest) = refl

unbind-occupied :
    (name : Text) (s : Room) (o : List Object)
    → occupied (unbind name s o).1.namespaces ≡ occupied s.namespaces
unbind-occupied name s [] = refl
unbind-occupied name s (o ∷ rest) = refl

abbrev obliging_host : Host
obliging_host = record {
  State = Room;
  get_namespace = λ s name. namespace_of name s.namespaces;
  create_namespace = λ s ns. (none, record s { namespaces = ns ∷ [] });
  update_namespace = λ s ns. (none, record s { namespaces = ns ∷ [] });
  delete_namespace = λ s ns. (none, record s { namespaces = record ns { deleting = true } ∷ [] });
  delete_binding = λ s name. unbind name s s.policies;
}

abbrev obliging : Apis quantities
obliging = record apis { host = obliging_host }

abbrev swept : List Namespace → List Namespace
swept [] = []
swept (ns ∷ namespaces) = if ns.deleting then [] else ns ∷ namespaces

abbrev sweep : Room → Room
sweep s = record s { namespaces = swept s.namespaces }

missing_lem :
    (name : Text) (namespaces : List Namespace) (e : Error)
    → namespace_of name namespaces ≡ err e
    → is_not_found e ≡ true
missing_lem name [] e h = ground arith
missing_lem name (ns ∷ namespaces) e h = cc

occupied_lem :
    (name : Text) (namespaces : List Namespace) (ns : Namespace)
    → namespace_of name namespaces ≡ ok ns
    → 0 < occupied namespaces
occupied_lem name [] ns h = cc
occupied_lem name (x ∷ namespaces) ns h = omega arith

swept_lem :
    (name : Text) (namespaces : List Namespace) (ns : Namespace)
    → namespace_of name namespaces ≡ ok ns
    → ns.deleting ≡ true
    → occupied (swept namespaces) < occupied namespaces
swept_lem name [] ns h deleting = cc
swept_lem name (x ∷ namespaces) ns h deleting = ground arith

obliging-Obliges : Obliges quantities obliging tenant sweep (λ s. occupied s.namespaces)
obliging-Obliges = record {
  unbinds = λ s name. unbind-is_unbound name s s.policies;
  unbinds_only = λ s name. unbind-occupied name s s.policies;
  missing = λ s e h. missing_lem (control_plane_namespace tenant) s.namespaces e h;
  deletes = λ s ns h live. (refl, occupied_lem (control_plane_namespace tenant) s.namespaces ns h);
  proceeds =
      λ s ns h deleting. swept_lem (control_plane_namespace tenant) s.namespaces ns h deleting;
  updates = λ s tc. (tc, refl);
}

abbrev owning : Room
owning = record room {
  namespaces = build_control_plane_namespace tenant ∷ [];
  policies = config_map ∷ [];
}

reconcile_deleted-Ends_example :
    (m : ℕ) × (m < 2)
    × Ends quantities obliging tenant sweep
        (λ s. occupied s.namespaces)
        (later quantities obliging tenant sweep (λ s. occupied s.namespaces) m owning)
reconcile_deleted-Ends_example =
    reconcile_deleted-Ends quantities obliging tenant sweep (λ s. occupied s.namespaces)
      obliging-Obliges 2 owning refl (omega arith)
