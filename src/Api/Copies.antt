-- ===== src/Api/Copies.antt =====
-- internal/api/v1alpha1/syncdecision_deepcopy.go: the hand-written deep copies of the types of a
-- SyncDecision, on a heap of backing arrays and maps. An address is a place in one of the two lists;
-- a slice starts at the first element of its array. A time is a number, and metav1.Time's own
-- DeepCopyInto a parameter. The loop over a map visits its entries in no fixed order; here the last
-- comes first. ConvergedVersions is copied as a value. A SyncDecision and its list hold an ObjectMeta,
-- whose copy is apimachinery's, and are left out.
pub mod Laws
pub mod Separate
pub mod Deep
use tenantplane.Base.{
  ℕ, zero, suc, List, [], ◌∷◌, ◌++◌, Option, none, some, Dict, insert, length, get_or, bytes_eq,
}
use tenantplane.Base.Text.{Text}
use tenantplane.Api.{SyncDecisionEntry}
use tenantplane.Syncer.{ConvergedVersions}

pub record Heap : Type 0 where
  pub arrays : List (List SyncDecisionEntry)
  pub maps : List (Dict Text ConvergedVersions)

pub record Slice : Type 0 where
  pub array : ℕ
  pub len : ℕ

-- A SyncDecisionStatus in memory; a nil slice or map is none.
pub record StatusRef : Type 0 where
  pub entries : Option Slice
  pub last_converged : Option ℕ

abbrev pub zero_entry : SyncDecisionEntry
zero_entry = record {
  time = 0;
  action = [];
  kind = [];
  tenant_namespace = [];
  tenant_name = [];
  host_namespace = [];
  host_name = [];
  reason = [];
}

abbrev pub update {ℓ} : {A : Type ℓ} → ℕ → (A → A) → List A → List A
update i f [] = []
update zero f (x ∷ xs) = f x ∷ xs
update (suc i) f (x ∷ xs) = x ∷ update i f xs

abbrev pub replicate {ℓ} : {A : Type ℓ} → ℕ → A → List A
replicate zero x = []
replicate (suc n) x = x ∷ replicate n x

abbrev pub array_at : Heap → ℕ → List SyncDecisionEntry
array_at h a = get_or h.arrays a []

abbrev pub map_at : Heap → ℕ → Dict Text ConvergedVersions
map_at h a = get_or h.maps a []

-- s[i] = e, m[name] = v
abbrev pub store_entry : ℕ → ℕ → SyncDecisionEntry → Heap → Heap
store_entry a i e h = record h { arrays = update a (λ xs. update i (λ _. e) xs) h.arrays }

abbrev pub store_converged : ℕ → Text → ConvergedVersions → Heap → Heap
store_converged a name v h = record h { maps = update a (λ m. insert name v m) h.maps }

-- make([]SyncDecisionEntry, n), make(map[string]ConvergedVersions)
abbrev pub make_entries : ℕ → Heap → Slice × Heap
make_entries n h = (
  record { array = length h.arrays; len = n },
  record h { arrays = h.arrays ++ replicate n zero_entry ∷ [] },
)

abbrev pub make_map : Heap → ℕ × Heap
make_map h = (length h.maps, record h { maps = h.maps ++ [] ∷ [] })

-- *out = *in, and then the time.
abbrev pub deep_copy_entry : (ℕ → ℕ) → SyncDecisionEntry → SyncDecisionEntry
deep_copy_entry copy_time e = record e { time = copy_time e.time }

-- The loop over the entries, from the i-th and for n of them.
abbrev pub copy_entries : (ℕ → ℕ) → ℕ → ℕ → ℕ → ℕ → Heap → Heap
copy_entries copy_time zero i from to h = h
copy_entries copy_time (suc n) i from to h =
    copy_entries copy_time n (suc i) from to
      (store_entry to i (deep_copy_entry copy_time (get_or (array_at h from) i zero_entry)) h)

-- The loop over the map.
abbrev pub copy_map : Dict Text ConvergedVersions → ℕ → Heap → Heap
copy_map [] to h = h
copy_map ((name, v) ∷ m) to h = store_converged to name v (copy_map m to h)

abbrev pub deep_copy_entries : (ℕ → ℕ) → Option Slice → Heap → Option Slice × Heap
deep_copy_entries copy_time none h = (none, h)
deep_copy_entries copy_time (some s) h =
    let (out, made) = make_entries s.len h in
    (some out, copy_entries copy_time s.len 0 s.array out.array made)

abbrev pub deep_copy_map : Option ℕ → Heap → Option ℕ × Heap
deep_copy_map none h = (none, h)
deep_copy_map (some a) h =
    let (out, made) = make_map h in (some out, copy_map (map_at h a) out made)

-- DeepCopyInto of a SyncDecisionStatus, and DeepCopy for a pointer that may be nil.
unfoldable pub deep_copy_into : (ℕ → ℕ) → StatusRef → Heap → StatusRef × Heap
deep_copy_into copy_time s h =
    let (entries, h1) = deep_copy_entries copy_time s.entries h in
    let (last_converged, h2) = deep_copy_map s.last_converged h1 in
    (record { entries = entries; last_converged = last_converged }, h2)

abbrev pub deep_copy : (ℕ → ℕ) → Option StatusRef → Heap → Option StatusRef × Heap
deep_copy copy_time none h = (none, h)
deep_copy copy_time (some s) h = let (out, h1) = deep_copy_into copy_time s h in (some out, h1)
