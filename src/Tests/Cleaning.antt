-- ===== src/Tests/Cleaning.antt =====
-- The theorem on the cleanup, where others have a StatefulSet and a Service at the names of a legacy
-- control plane.
use tenantplane.Base.{
  ◌≡◌, refl, false, [], ◌∷◌, none, some, string_eq, bytes_eq, Dict, String, arith,
}
use Prim.Derive.{subst}
use tenantplane.Base.Text.{Text, text}
use tenantplane.Base.Result.{ok, err, not_found}
use tenantplane.Controller.ControlPlane.{Service, build_headless_service, control_plane_pod_name}
use tenantplane.Controller.ControlPlane.Workload.{StatefulSet, stateful_set_of}
use tenantplane.Controller.Apis.{Apis, Kind, Claim}
use tenantplane.Controller.Reconcile.Cleanup.{is_legacy, cleanup_legacy_control_plane}
use tenantplane.Controller.Reconcile.Cleanup.Laws.{cleanup-spared}
use tenantplane.Tests.Setting.{ascii, tenant}
use tenantplane.Tests.Cluster.{quantities, Room, room, apis}

-- The Service of another tenant, at every name; to delete it empties the room of its namespaces and
-- statuses.
abbrev other_labels : Dict String Text
other_labels =
    ("app.kubernetes.io/managed-by", text "tenantplane")
    ∷ ("app.kubernetes.io/name", text "tenantplane-control-plane")
    ∷ ("tenantplane.io/tenant", text "other")
    ∷ []

abbrev other_service : Service
other_service = record (build_headless_service tenant) { labels = other_labels }

abbrev other_set : StatefulSet quantities
other_set = record (stateful_set_of quantities tenant (text "1Gi") (text "1") (text "1Gi")) {
  labels = other_labels;
}

abbrev services : Kind Room Service
services = record {
  get = λ s key. ok other_service;
  create = λ s svc. (ok svc, s);
  update = λ s svc. (ok svc, s);
  delete = λ s svc. (none, room);
}

abbrev claims : Kind Room Claim
claims = record {
  get = λ s key. err (not_found key.1);
  create = λ s pvc. (ok pvc, s);
  update = λ s pvc. (ok pvc, s);
  delete = λ s pvc. (none, room);
}

abbrev shared_apis : Apis quantities
shared_apis = record apis { services = services; claims = claims }

abbrev shared : Room
shared = record room { stateful_set = some other_set; written = tenant ∷ [] }

other_is_spared : is_legacy tenant other_labels ≡ false
unfolding is_legacy
other_is_spared = refl

same_set : (a b : StatefulSet quantities) → ok a ≡ ok b → a ≡ b
same_set a b h = ground arith

same_service : (a b : Service) → ok a ≡ ok b → a ≡ b
same_service a b h = ground arith

cleanup-spared_example :
    (cleanup_legacy_control_plane quantities shared_apis tenant shared).1 ≡ shared
unfolding control_plane_pod_name
cleanup-spared_example =
    cleanup-spared quantities shared_apis tenant shared
      (λ sts there.
        subst (λ x. is_legacy tenant x.labels ≡ false) (same_set other_set sts there)
          other_is_spared)
      (λ svc there.
        subst (λ x. is_legacy tenant x.labels ≡ false) (same_service other_service svc there)
          other_is_spared)
      (λ svc there.
        subst (λ x. is_legacy tenant x.labels ≡ false) (same_service other_service svc there)
          other_is_spared)
      (not_found (text "data-dev-control-plane-0")) refl
