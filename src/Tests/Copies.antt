-- ===== src/Tests/Copies.antt =====
-- The theorems on deep copies, at a status with one entry and one pair of versions.
use tenantplane.Base.{◌≡◌, ℕ, refl, List, [], ◌∷◌, some, arith}
use tenantplane.Base.Text.{text}
use tenantplane.Api.{SyncDecisionEntry}
use tenantplane.Syncer.{ConvergedVersions}
use tenantplane.Api.Copies.{Heap, StatusRef, zero_entry, deep_copy_into}
use tenantplane.Api.Copies.Separate.{IsRead, entries_of, Write, assign, converge, perform}
use tenantplane.Api.Copies.Deep.{deep_copy_into-IsRead, deep_copy_into-spares}

abbrev same_time : ℕ → ℕ
same_time t = t

abbrev entry : SyncDecisionEntry
entry = record zero_entry { time = 12; action = text "create"; kind = text "ConfigMap" }

abbrev agreed : ConvergedVersions
agreed = record { tenant_resource_version = text "7"; host_resource_version = text "3" }

abbrev later : ConvergedVersions
later = record { tenant_resource_version = text "8"; host_resource_version = text "4" }

abbrev heap : Heap
heap = record { arrays = (entry ∷ []) ∷ []; maps = ((text "app", agreed) ∷ []) ∷ [] }

abbrev status : StatusRef
status = record { entries = some (record { array = 0; len = 1 }); last_converged = some 0 }

abbrev through_status : List Write
through_status = assign 0 0 zero_entry ∷ converge 0 (text "app") later ∷ []

abbrev through_copy : List Write
through_copy = assign 1 0 zero_entry ∷ converge 1 (text "app") later ∷ []

deep_copy_into-IsRead_example :
    IsRead
      (perform through_status (deep_copy_into same_time status heap).1)
      (deep_copy_into same_time status heap).0
      heap
      status
deep_copy_into-IsRead_example =
    deep_copy_into-IsRead same_time status heap through_status (λ t. refl)
      ((omega arith, omega arith), omega arith) (refl, (refl, tt))

deep_copy_into-spares_example :
    IsRead (perform through_copy (deep_copy_into same_time status heap).1) status heap status
unfolding deep_copy_into
deep_copy_into-spares_example =
    deep_copy_into-spares same_time status heap status through_copy
      ((omega arith, omega arith), omega arith) (refl, (refl, tt))

-- The writes are seen through the status itself.
written : entries_of (perform through_status heap) status.entries ≡ some (zero_entry ∷ [])
written = refl
