-- ===== src/Tests/Sparing.antt =====
-- The theorem on what a pass never deletes, at a ConfigMap and a host that remembers the deletions.
use tenantplane.Base.{
  Bool, true, false, ◌≡◌, ◌≢◌, refl, List, [], ◌∷◌, none, ◌==◌, bytes_eq, if◌then◌else◌, arith,
  Bool-cases, inl, inr, eq_of_beq,
}
use tenantplane.Base.Text.{Text, text}
use tenantplane.Base.Result.{ok, err, not_found}
use tenantplane.Object.{Object}
use tenantplane.Object.Memory.{memory}
use tenantplane.Syncer.{Cluster, Clients, World}
use tenantplane.Syncer.Pass.{sync_pass, skips, is_virtual_infrastructure, desired_host}
use tenantplane.Syncer.Pass.Spared.{sync_pass-spares}
use tenantplane.Tests.Setting.{ascii, in_memory, env, engine, config_map}
use tenantplane.Tests.Transforms.{host_config_map}
use tenantplane.Tests.Engines.{config_maps, desired_config_map, desired_config_map-built}

abbrev was_deleted : Text → List Object → Bool
was_deleted name [] = false
was_deleted name (o ∷ s) =
    let rest = was_deleted name s in if memory.get_name o == name then true else rest

-- Its state is the objects that were deleted.
abbrev remembering : Cluster
remembering = record {
  State = List Object;
  get = λ s gvk namespace name. err (not_found name);
  list = λ s gvk namespace labels. ok (memory.set_name host_config_map (text "left") ∷ []);
  create_object = λ s o. (ok o, s);
  update_object = λ s o. (ok o, s);
  delete_object = λ s o. (ok o, o ∷ s);
}

abbrev remembering_env : Clients
remembering_env = record env { host = remembering }

abbrev start : World remembering_env
start = record {
  host = [];
  tenant = config_map ∷ [];
  limiter = none;
  history = none;
  recorded = [];
}

another_deleted :
    (s : List Object) (o : Object) (name : Text)
    → memory.get_name o ≢ name
    → was_deleted name s ≡ false
    → was_deleted name (o ∷ s) ≡ false
another_deleted s o name apart h = elim (Bool-cases (memory.get_name o == name)) [
  | inl same ↦ ground (arith, apart (eq_of_beq (memory.get_name o) name same))
  | inr other ↦ rw other h
]

sync_pass-spares_example :
    was_deleted
      (memory.get_name desired_config_map)
      (sync_pass remembering_env engine config_maps [] start).1.host
    ≡ false
unfolding skips is_virtual_infrastructure desired_host
sync_pass-spares_example =
    sync_pass-spares remembering_env engine config_maps [] start
      (λ s. was_deleted (memory.get_name desired_config_map) s ≡ false) [] [] config_map
      desired_config_map
      (record {
        limiter = λ w l j. j;
        history = λ w h j. j;
        create_host = λ w o j. j;
        update_host = λ w o j. j;
        update_tenant = λ w o j. j;
      })
      (λ s o apart j. another_deleted s o (memory.get_name desired_config_map) apart j) refl refl
      desired_config_map-built refl
