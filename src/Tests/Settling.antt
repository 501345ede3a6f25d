-- ===== src/Tests/Settling.antt =====
-- The theorem on settled pairs, at a ConfigMap that the host does not have yet.
use tenantplane.Base.{
  true, ◌≡◌, refl, sym, ap, List, [], ◌∷◌, none, some, ◌==◌, bytes_eq, if◌then◌else◌, beq_refl,
  arith,
}
use tenantplane.Base.Text.{Text}
use tenantplane.Base.Result.{Result, ok, err, not_found}
use tenantplane.Object.{Object}
use tenantplane.Object.Memory.{memory}
use tenantplane.Object.Memory.Lawful.{memory-IsUnstructured}
use tenantplane.Object.Memory.Framed.{memory-IsFramed}
use tenantplane.Syncplan.Sanitize.{sanitize_name}
use tenantplane.Syncplan.Transform.Build.{reverse_lookup}
use tenantplane.Syncer.Pair.Safety.{is_ours}
use tenantplane.Syncer.{bidirectional, Cluster, Clients, World}
use tenantplane.Syncer.Pair.{reconcile_pair, create_missing}
use tenantplane.Syncer.Pair.Renamed.{built-is_ours}
use tenantplane.Syncer.Pair.Settled.{later}
use tenantplane.Syncer.Pair.Settled.Server.{ReadsBack}
use tenantplane.Syncer.Pair.Settled.Steps.{Now}
use tenantplane.Syncer.Pair.Settled.Written.{reconcile_pair-settles}
use tenantplane.Tests.Setting.{ascii, in_memory, env, engine, ref, config_map}
use tenantplane.Tests.Transforms.{host_config_map, host_config_map-built}

abbrev newest : Text → List Object → Result Object
newest name [] = err (not_found name)
newest name (o ∷ s) = if memory.get_name o == name then ok o else newest name s

-- The last write of a name counts.
abbrev log : Cluster
log = record {
  State = List Object;
  get = λ s gvk namespace name. newest name s;
  list = λ s gvk namespace labels. ok s;
  create_object = λ s o. (ok o, o ∷ s);
  update_object = λ s o. (ok o, o ∷ s);
  delete_object = λ s o. (ok o, s);
}

same_object : (o written : Object) → ok o ≡ ok written → o ≡ written
same_object o written h = ground arith

reads_newest :
    (s : List Object) (o written : Object)
    → ok o ≡ ok written
    → newest (memory.get_name o) (o ∷ s) ≡ ok written
reads_newest s o written h = rw (beq_refl (memory.get_name o)) h

log-ReadsBack : ReadsBack log memory
log-ReadsBack = record {
  create_reads = reads_newest;
  create_keeps = λ s o written h. ap (λ x. reverse_lookup (some x)) (sym (same_object o written h));
  update_reads = reads_newest;
  update_keeps = λ s o written h. ap (λ x. reverse_lookup (some x)) (sym (same_object o written h));
}

abbrev log_env : Clients
log_env = record env { host = log }

abbrev start : World log_env
start = record {
  host = [];
  tenant = config_map ∷ [];
  limiter = none;
  history = none;
  recorded = [];
}

mine : is_ours host_config_map ref ≡ true
unfolding sanitize_name
mine =
    built-is_ours memory-IsUnstructured ref config_map host_config_map host_config_map refl
      host_config_map-built refl refl

abbrev created : World log_env
created = (reconcile_pair log_env engine bidirectional [] ref config_map host_config_map start).1

reconcile_pair-settles_example :
    (now : Object) × Now log_env config_map start created now
    × ((later log_env engine [] ref now host_config_map 3 created).host ≡ created.host)
    × ((later log_env engine [] ref now host_config_map 3 created).tenant ≡ created.tenant)
unfolding reconcile_pair create_missing
reconcile_pair-settles_example =
    reconcile_pair-settles log_env memory-IsUnstructured memory-IsFramed log-ReadsBack ref
      config_map host_config_map mine engine [] start host_config_map 3 (refl, refl) refl
      (λ same. cc)
