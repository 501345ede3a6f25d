-- ===== src/Tests/Engines.antt =====
-- The theorems on the sync engine, at a ConfigMap and clusters in memory.
use tenantplane.Base.{
  ◌≡◌, ◌≢◌, ◌+◌, ◌++◌, refl, false, true, [], ◌∷◌, none, some, arith, lookup, string_eq,
}
use tenantplane.Base.Text.{Text, text}
use tenantplane.Base.Result.{ok}
use tenantplane.Object.{Object}
use tenantplane.Object.Memory.{memory}
use tenantplane.Object.Memory.Lawful.{memory-IsUnstructured}
use tenantplane.Syncplan.Sanitize.{sanitize_name}
use tenantplane.Syncplan.HostName.{host_name}
use tenantplane.Syncplan.Transform.Build.Laws.{build_host_object_lem}
use tenantplane.Syncplan.Plan.{ResourceRef}
use tenantplane.Syncplan.Transform.Build.{build_host_object, reverse_lookup}
use tenantplane.Syncer.{
  to_host, bidirectional, Resource, Decision, Cluster, Clients, World, skip, ConvergedVersions,
}
use tenantplane.Syncer.Pair.{
  reconcile_pair, reconcile_bidirectional_conflict, target_of, last_converged,
}
use tenantplane.Syncer.Pair.Safety.{reconcile_pair-foreign}
use tenantplane.Syncer.Pair.Limits.{IsUntouched, reconcile_pair-limited}
use tenantplane.Syncer.Pair.Conflict.{conflict-keeps-host, conflict-keeps-tenant}
use tenantplane.Syncer.Pair.Renamed.{reconcile_pair-renamed}
use tenantplane.Syncer.Orphans.{Sweep, collect_all, collect_orphans, is_member}
use tenantplane.Syncer.Orphans.Safety.{
  collect_orphans-survives, collect_all-outcomes, strays, outcomes,
}
use tenantplane.Syncer.Pass.{Progress, sync_all, sync_pass, sync_to_host, desired_host, ref_for}
use tenantplane.Syncer.Pass.Loop.{sync_all-answers, eligible, answers}
use tenantplane.Syncer.Pass.Laws.{sync_pass-recorded, sync_to_host-tenant}
use tenantplane.Tests.Setting.{
  ascii, in_memory, cluster, env, engine, ref, config_map, config_map_gvk, stranger, world, without,
}
use tenantplane.Tests.Transforms.{host_config_map, host_config_map-built}

reconcile_pair-foreign_example :
    (d : Decision) × (reconcile_pair env engine to_host [] ref config_map stranger
        (world (stranger ∷ []) none none)
      ≡ (ok d, world (stranger ∷ []) none none))
    × (d.action ≡ skip)
unfolding reverse_lookup
reconcile_pair-foreign_example =
    reconcile_pair-foreign env engine [] ref config_map stranger (world (stranger ∷ []) none none)
      to_host stranger refl refl

reconcile_pair-limited_example :
    IsUntouched env
      (world [] (some 0) none)
      (reconcile_pair env engine bidirectional [] ref config_map stranger
        (world [] (some 0) none)).1
reconcile_pair-limited_example =
    reconcile_pair-limited env engine bidirectional [] ref config_map stranger
      (world [] (some 0) none) (0, refl, refl)

abbrev agreed : ConvergedVersions
agreed = record { tenant_resource_version = text "6"; host_resource_version = text "1" }

abbrev agreed_world : World env
agreed_world = world (stranger ∷ []) none (some ((memory.get_name stranger, agreed) ∷ []))

conflict-keeps-host_example :
    (reconcile_bidirectional_conflict env
      (text "manual")
      ref
      (target_of env stranger)
      config_map
      stranger
      stranger
      stranger
      agreed_world).1.host
    ≡ stranger ∷ []
unfolding last_converged
conflict-keeps-host_example =
    conflict-keeps-host env (text "manual") ref (target_of env stranger) config_map stranger
      stranger stranger agreed_world agreed (refl, refl) refl refl

conflict-keeps-tenant_example :
    (reconcile_bidirectional_conflict env
      (text "manual")
      ref
      (target_of env stranger)
      config_map
      stranger
      stranger
      stranger
      agreed_world).1.tenant
    ≡ config_map ∷ []
unfolding last_converged
conflict-keeps-tenant_example =
    conflict-keeps-tenant env (text "manual") ref (target_of env stranger) config_map stranger
      stranger stranger agreed_world agreed (refl, refl) refl refl

undeleted :
    (n : Text)
    → is_member n ((memory.get_name stranger, true) ∷ []) ≡ false
    → without n (stranger ∷ []) ≡ stranger ∷ []
undeleted n stray = ground arith

collect_orphans-survives_example :
    (collect_orphans env engine config_map_gvk
      ((memory.get_name stranger, true) ∷ [])
      (world (stranger ∷ []) none none)).1.host
    ≡ stranger ∷ []
collect_orphans-survives_example =
    collect_orphans-survives env engine config_map_gvk ((memory.get_name stranger, true) ∷ [])
      (world (stranger ∷ []) none none) (λ h. h ≡ stranger ∷ [])
      (λ obj h stray same. rw same (undeleted (memory.get_name obj) stray)) refl

abbrev sweep : Sweep env
sweep = record { decisions = []; errs = []; world = world (stranger ∷ []) none none }

collect_all-outcomes_example :
    outcomes env config_map_gvk [] (collect_all env config_map_gvk [] (stranger ∷ []) sweep)
    ≡ outcomes env config_map_gvk [] sweep + strays env config_map_gvk [] (stranger ∷ [])
collect_all-outcomes_example = collect_all-outcomes env config_map_gvk [] (stranger ∷ []) sweep

abbrev pub config_maps : Resource
config_maps = record { gvk = config_map_gvk; direction = to_host }

sync_pass-recorded_example :
    (sync_pass env engine config_maps [] (world [] none none)).1.recorded
    ≡ [] ++ (sync_pass env engine config_maps [] (world [] none none)).0.decisions
sync_pass-recorded_example = sync_pass-recorded env engine [] config_maps (world [] none none) refl

sync_to_host-tenant_example :
    (sync_to_host env engine config_maps (world [] none none)).1.tenant ≡ config_map ∷ []
sync_to_host-tenant_example = sync_to_host-tenant env engine config_maps (world [] none none)

abbrev pub desired_config_map : Object
desired_config_map = memory.set_group_version_kind host_config_map config_map_gvk

pub desired_config_map-built :
    desired_host env engine config_map_gvk config_map ≡ ok desired_config_map
unfolding desired_host ref_for
desired_config_map-built = ground (arith, host_config_map-built)

abbrev start : Progress env
start = record { decisions = []; errs = []; desired = []; world = world [] none none }

sync_all-answers_example :
    answers env engine to_host [] config_map_gvk
      (sync_all env engine to_host [] config_map_gvk (config_map ∷ []) start)
    ≡ answers env engine to_host [] config_map_gvk start
      + eligible env engine to_host [] config_map_gvk (config_map ∷ [])
sync_all-answers_example =
    sync_all-answers env engine to_host [] config_map_gvk (config_map ∷ []) start

-- A tenant whose name has a dot.
abbrev dotted : ResourceRef
dotted = record ref { tenant_cluster = text "team.a" }

abbrev dotted_built :
    (host : Object) × (build_host_object dotted (some config_map) ≡ ok host)
    × (memory.get_name host ≡ host_name dotted.name dotted.virtual_namespace dotted.tenant_cluster)
    × (memory.get_namespace host ≡ sanitize_name dotted.tenant_namespace)
    × (memory.get_kind host ≡ memory.get_kind config_map)
    × (lookup "status" host ≡ none)
    × (lookup "data" host ≡ lookup "data" config_map)
dotted_built = build_host_object_lem memory-IsUnstructured dotted config_map refl refl "data" refl

abbrev dotted_host : Object
dotted_host = dotted_built.0

sanitize_dotted : sanitize_name (text "team.a") ≡ text "team-a"
unfolding sanitize_name
sanitize_dotted = refl

abbrev one_host : Cluster
one_host = record cluster { get = λ s gvk namespace name. ok dotted_host }

abbrev one_env : Clients
one_env = record env { host = one_host }

abbrev one_world : World one_env
one_world = record {
  host = dotted_host ∷ [];
  tenant = config_map ∷ [];
  limiter = none;
  history = none;
  recorded = [];
}

dotted_renamed : sanitize_name dotted.tenant_cluster ≢ dotted.tenant_cluster
dotted_renamed same = ground (arith, sanitize_dotted, same)

reconcile_pair-renamed_example :
    (d : Decision) × (reconcile_pair one_env engine to_host [] dotted config_map dotted_host
        one_world
      ≡ (ok d, one_world))
    × (d.action ≡ skip)
reconcile_pair-renamed_example =
    reconcile_pair-renamed memory-IsUnstructured dotted config_map dotted_host dotted_host one_env
      engine to_host [] dotted_host one_world refl dotted_built.1 refl dotted_renamed refl
