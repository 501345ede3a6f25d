-- ===== src/Controller/Cadence.antt =====
-- How often and how fast a tenant is synced: `syncRequeueInterval` of
-- internal/controller/tenantcluster_controller.go, `rateLimiterForFairness` and
-- `syncResourcesFromPolicy` of internal/controller/sync.go.
pub mod Laws
use tenantplane.Base.{
  ℕ, Bool, true, false, not, ◌||◌, List, [], ◌∷◌, Option, none, some, ◌==◌, bytes_eq, if◌then◌else◌,
  ltb,
}
use tenantplane.Base.Text.{Text, text, is_empty}
use tenantplane.Object.{ℤ, pos, negsuc, Gvk}
use tenantplane.Api.{SyncPolicySpec, SyncedResource}
use tenantplane.Syncer.{Resource}
use tenantplane.Controller.Status.{direction_of}

-- Packages time and schema: the duration in nanoseconds, and the group and version; `none` where the
-- parse fails.
pub record Parsers : Type 0 where
  pub parse_duration : Text → Option ℤ
  pub parse_group_version : Text → Option (Text × Text)

-- Five seconds and sixty seconds, in nanoseconds.
abbrev pub requeue_waiting : ℕ
requeue_waiting = 5000000000

abbrev pub requeue_steady : ℕ
requeue_steady = 60000000000

-- The parsed duration, or the floor under it.
abbrev pub floored : ℤ → ℕ
floored (pos d) = if ltb d requeue_waiting then requeue_waiting else d
floored (negsuc d) = requeue_waiting

-- The rate and the burst of a limiter; `none` is unlimited.
unfoldable pub rate_limiter_for_fairness : Text → Option (ℕ × ℕ)
rate_limiter_for_fairness api_fairness =
    if api_fairness == text "tenant"
    then some (20, 40)
    else if api_fairness == text "tenant-strict"
    then some (5, 10)
    else none

module _ ⦃parsers : Parsers⦄ where
  unfoldable pub sync_requeue_interval : Option SyncPolicySpec → ℕ
  sync_requeue_interval none = requeue_steady
  sync_requeue_interval (some policy) =
      if not policy.drift_detection.enabled || is_empty policy.drift_detection.interval
      then requeue_steady
      else elim (parsers.parse_duration policy.drift_detection.interval) [
        | none ↦ requeue_steady
        | some d ↦ floored d
      ]

  unfoldable pub sync_resources : List SyncedResource → List Resource
  sync_resources [] = []
  sync_resources (res ∷ resources) =
      let rest = sync_resources resources in
      elim (parsers.parse_group_version res.api_version) [
        | none ↦ rest
        | some gv ↦
            record {
              gvk = record { group = gv.0; version = gv.1; kind = res.kind };
              direction = direction_of res.direction;
            }
            ∷ rest
      ]

  unfoldable pub sync_resources_from_policy : Option SyncPolicySpec → List Resource
  unfolding sync_resources
  sync_resources_from_policy none = []
  sync_resources_from_policy (some policy) = sync_resources policy.resources
