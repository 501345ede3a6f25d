-- ===== src/Isolation/Laws.antt =====
-- The levels, and the quota.
use tenantplane.Base.{
  ◌≡◌, String, true, not, Option, none, some, ◌==◌, bytes_eq, string_eq, if◌then◌else◌, lookup,
  arith,
}
use tenantplane.Base.Text.{Text, text, is_empty}
use tenantplane.Base.Result.{ok, err}
use tenantplane.Isolation.{
  Profile, profile_for_level, Quantities, ResourceQuota, with_amount, build_resource_quota,
}

-- A profile that is found is that of the level: it always requires requests, so there is a quota and
-- a limit range, and every level but baseline asks for the network policy and for both blocks.
pub profile_for_level_lem :
    (level : Text) (p : Profile)
    → profile_for_level level ≡ ok p
    → (p.level ≡ level)
      × (p.require_resource_requests ≡ true)
      × (p.default_deny_network_policy ≡ not (level == text "baseline"))
      × (p.block_host_path_volumes ≡ not (level == text "baseline"))
      × (p.block_privileged_containers ≡ not (level == text "baseline"))
unfolding profile_for_level
profile_for_level_lem level p h = ground (
  arith,
  bytes_eq.beq_iff level (text "baseline"),
  bytes_eq.beq_iff level (text "restricted"),
  bytes_eq.beq_iff level (text "sandboxed"),
)

module _ (q : Quantities) where
  -- An amount that was given and parses is both the request and the limit; without one there is
  -- neither.
  abbrev pub expected : Text → Option q.Quantity
  expected amount =
      if is_empty amount then none else elim (q.parse amount) [ err e ↦ none | ok v ↦ some v ]

  abbrev pub hard_of : String → Option (ResourceQuota q) → Option q.Quantity
  hard_of resource none = none
  hard_of resource (some quota) = lookup resource quota.hard

  -- When the profile requires requests, a quota that is built has, for cpu and for memory, the
  -- given amount as request and as limit alike, and nothing where no amount was given.
  pub build_resource_quota_lem :
      (profile : Profile) (cpu memory namespace : Text) (built : Option (ResourceQuota q))
      → profile.require_resource_requests ≡ true
      → build_resource_quota q profile cpu memory namespace ≡ ok built
      → (hard_of "requests.cpu" built ≡ expected cpu)
        × (hard_of "limits.cpu" built ≡ expected cpu)
        × (hard_of "requests.memory" built ≡ expected memory)
        × (hard_of "limits.memory" built ≡ expected memory)
  unfolding build_resource_quota with_amount
  build_resource_quota_lem profile cpu memory namespace built required h = ground arith
