-- ===== src/Controller/Cadence/Laws.antt =====
-- The bounds of the cadence.
use tenantplane.Base.{◌≤◌, inl, inr, Option, none, some, arith, Option-cases}
use tenantplane.Object.{ℤ, pos, negsuc}
use tenantplane.Api.{SyncPolicySpec}
use tenantplane.Controller.Cadence.{Parsers, sync_requeue_interval, requeue_waiting, floored}

floored-bound : (d : ℤ) → requeue_waiting ≤ floored d
floored-bound (pos d) = ground arith
floored-bound (negsuc d) = ground arith

-- Whatever the policy says, and however its interval parses, the next pass is at least five seconds
-- away.
pub sync_requeue_interval-bound :
    ⦃parsers : Parsers⦄ (policy : Option SyncPolicySpec)
    → requeue_waiting ≤ sync_requeue_interval policy
unfolding sync_requeue_interval
sync_requeue_interval-bound none = ground arith
sync_requeue_interval-bound ⦃parsers⦄ (some policy) =
    elim (Option-cases (parsers.parse_duration policy.drift_detection.interval)) [
      | inl unparsed ↦ ground arith
      | inr (d, parsed) ↦ ground (arith, floored-bound d)
    ]
