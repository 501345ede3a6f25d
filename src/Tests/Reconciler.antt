-- ===== src/Tests/Reconciler.antt =====
-- The theorems on the reconciler, on a host in memory.
use Prim.Derive.{subst}
use tenantplane.Base.{arith, ◌≡◌, refl, true, false, [], ◌∷◌, none, some, All}
use tenantplane.Base.Text.{Text, text, contains, split_lines, starts_with, trim, runes}
use tenantplane.Base.Go.{is_space}
use tenantplane.Base.Result.{ok}
use tenantplane.Base.Action.{pure, next, ◌>>=◌, read, call, wrapping, lift, attempt}
use tenantplane.Isolation.{NetworkPolicy, restricted, build_network_policy}
use tenantplane.Syncer.{Resource, to_host, World}
use tenantplane.Controller.Namespace.{
  Namespace, owned_by_tenant, map_control_plane_object, teardown,
}
use tenantplane.Controller.ControlPlane.{
  control_plane_object_labels, build_headless_service, control_plane_service_fqdn,
}
use tenantplane.Controller.ControlPlane.Kubeconfig.{is_server_line, rewrite_kubeconfig_server}
use tenantplane.Controller.ControlPlane.Kubeconfig.Laws.{has_server_line}
use tenantplane.Controller.ControlPlane.Workload.{StatefulSet, stateful_set_of, build_stateful_set}
use tenantplane.Controller.ControlPlane.Exempt.{selects, selects-control_plane}
use tenantplane.Controller.ControlPlane.Consistency.{Serves, build_stateful_set-Serves}
use tenantplane.Controller.Apis.{Secret, kubeconfig_of}
use tenantplane.Controller.Sync.{sync_clients, run_sync, run_passes}
use tenantplane.Controller.Sync.Laws.{run_passes-tenant}
use tenantplane.Controller.Sync.Frame.{SyncKeeps}
use tenantplane.Controller.Reconcile.{reconcile, reconcile_deleted}
use tenantplane.Controller.Reconcile.Frames.{KindKeeps, OwnedKeeps, WritesKeep}
use tenantplane.Controller.Reconcile.Honest.{IsHonest}
use tenantplane.Controller.Reconcile.Deletion.{reconcile_deleted-released}
use tenantplane.Controller.Reconcile.Soon.{IsSoon}
use tenantplane.Controller.Reconcile.Outcomes.{reconcile-IsSoon}
use tenantplane.Controller.Reconcile.Synced.{reconcile_synced-IsHonest}
use tenantplane.Controller.Reconcile.Credentials.{
  new_secret, extract_kubeconfig, create_secret, ensure_kubeconfig_secret,
}
use tenantplane.Controller.Reconcile.Credentials.Laws.{
  FaithfulSecrets, ensure_kubeconfig_secret-settles,
}
use tenantplane.Tests.Setting.{ascii, in_memory, tenant, engine, config_map_gvk}
use tenantplane.Tests.Cluster.{
  quantities, parsers, Room, room, forgetful, owned, apis, policy, sync, kubeconfig, selectors,
}

-- The statuses that have been written are honest.
abbrev HonestRoom : Room → Type 0
HonestRoom s = All IsHonest s.written

forgetful-Keeps : {A : Type 0} → KindKeeps HonestRoom (forgetful {A = A})
forgetful-Keeps = record { create = λ s a i. i; update = λ s a i. i; delete = λ s a i. i }

owned-Keeps : {A : Type 0} → OwnedKeeps HonestRoom (owned {A = A})
owned-Keeps = record { create_or_update = λ s key f i. i }

writes-keep : WritesKeep quantities apis HonestRoom
writes-keep = record {
  create_namespace = λ s ns i. i;
  update_namespace = λ s ns i. i;
  delete_namespace = λ s ns i. i;
  delete_binding = λ s name i. i;
  tenants = record { create = λ s a i. i; update = λ s a i. i; delete = λ s a i. i };
  services = forgetful-Keeps;
  stateful_sets = record { create = λ s a i. i; update = λ s a i. i; delete = λ s a i. i };
  secrets = record { create = λ s a i. i; update = λ s a i. i; delete = λ s a i. i };
  claims = forgetful-Keeps;
  network_policies = owned-Keeps;
  quotas = owned-Keeps;
  limit_ranges = owned-Keeps;
  create_object = λ s o i. i;
  update_object = λ s o i. i;
  exec_in_pod = λ s namespace pod container command i. i;
}

sync_keeps : SyncKeeps quantities apis sync HonestRoom
sync_keeps = record {
  objects = record {
    create_object = λ s o i. i;
    update_object = λ s o i. i;
    delete_object = λ s o i. i;
  };
  decisions = λ tc. record { create_empty = λ s i. i; update_status = λ s status i. i };
  put = λ s address t i. i;
  emit = λ s tc event i. i;
}

reconcile_synced-IsHonest_example :
    HonestRoom
      (reconcile quantities apis (run_sync quantities apis sync) (text "teams", text "dev") room).1
reconcile_synced-IsHonest_example =
    reconcile_synced-IsHonest quantities apis sync writes-keep sync_keeps (λ s tc h i. (h, i))
      (text "teams", text "dev") room tt

reconcile-IsSoon_example :
    IsSoon
      (reconcile quantities apis (run_sync quantities apis sync) (text "teams", text "dev") room).0
reconcile-IsSoon_example =
    reconcile-IsSoon quantities apis (run_sync quantities apis sync) (text "teams", text "dev") room
      tenant refl refl

abbrev foreign : Namespace
foreign = record { name = text "cp-x-dev-x-teams"; labels = none; deleting = false }

reconcile_deleted-released_example : owned_by_tenant foreign tenant ≡ false
unfolding reconcile_deleted teardown owned_by_tenant ◌>>=◌ attempt call pure
reconcile_deleted-released_example =
    reconcile_deleted-released quantities apis tenant (record room { namespaces = foreign ∷ [] })
      refl foreign refl refl

ok_raw : (a b : Text) → ok a ≡ ok b → a ≡ b
ok_raw a b same = ground arith

-- The clients give back what they are given.
faithful : FaithfulSecrets quantities apis
unfolding is_server_line split_lines starts_with trim runes is_space
faithful = record {
  create_gives = λ s secret written same. ground arith;
  update_gives = λ s secret written same. ground arith;
  owner_keeps = λ tc secret owned same. ground arith;
  exec_gives = λ s namespace pod container command raw same.
      subst (λ r. has_server_line (split_lines r) ≡ true) (ok_raw kubeconfig raw same) refl;
}

abbrev secret_name : Text
secret_name = text "dev-control-plane-kubeconfig"

abbrev fresh : Secret
fresh =
    new_secret quantities apis tenant secret_name
      (rewrite_kubeconfig_server kubeconfig (control_plane_service_fqdn tenant))

abbrev settled : Room
settled = record room { secret = some fresh }

ensure_kubeconfig_secret-settles_example :
    (contains (kubeconfig_of fresh) (control_plane_service_fqdn tenant) ≡ true)
    × (ensure_kubeconfig_secret quantities apis tenant secret_name settled ≡ (next fresh, settled))
unfolding ensure_kubeconfig_secret create_secret extract_kubeconfig ◌>>=◌ read call wrapping lift
    pure
ensure_kubeconfig_secret-settles_example =
    ensure_kubeconfig_secret-settles quantities apis faithful tenant secret_name room fresh refl
      refl

abbrev resource : Resource
resource = record { gvk = config_map_gvk; direction = to_host }

abbrev start : World (sync_clients quantities apis sync)
start = record { host = room; tenant = tt; limiter = none; history = none; recorded = [] }

run_passes-tenant_example :
    (run_passes quantities apis sync tenant policy engine (resource ∷ []) none start).1.tenant ≡ tt
run_passes-tenant_example =
    run_passes-tenant quantities apis sync tenant policy engine (resource ∷ []) none start
      (refl, tt)

abbrev built : StatefulSet quantities
built = stateful_set_of quantities tenant (text "1Gi") (text "1") (text "1Gi")

build_stateful_set-Serves_example :
    (built.selector ≡ built.template.labels)
    × (built.service_name ≡ (build_headless_service tenant).name)
    × Serves built (build_headless_service tenant)
    × (map_control_plane_object (some built.labels) ≡ (text "teams", text "dev") ∷ [])
unfolding build_stateful_set
build_stateful_set-Serves_example = build_stateful_set-Serves quantities tenant built refl refl refl

abbrev restricted_policy : NetworkPolicy
restricted_policy = record {
  name = text "tenantplane-default-deny";
  namespace = text "teams";
  match_expressions =
      record {
        key = text "tenantplane.io/isolation-exempt";
        operator = text "NotIn";
        values = text "true" ∷ [];
      }
      ∷ [];
  policy_types = text "Ingress" ∷ text "Egress" ∷ [];
}

selects-control_plane_example :
    selects selectors (restricted_policy.match_expressions) (control_plane_object_labels tenant)
    ≡ false
unfolding build_network_policy
selects-control_plane_example =
    selects-control_plane selectors restricted (text "teams") restricted_policy tenant refl
