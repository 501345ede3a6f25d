-- ===== src/Api/Copies/Separate.antt =====
-- The copies of internal/api/v1alpha1/syncdecision_deepcopy.go, and what is written to the heap after
-- them.
use tenantplane.Base.{
  ℕ, ◌<◌, ◌≤◌, ◌≡◌, ◌≢◌, refl, ap, ◌∙◌, sym, List, [], ◌∷◌, Option, none, some, lookup, length,
  take, bytes_eq, arith, All, insert,
}
use tenantplane.Base.Text.{Text}
use tenantplane.Api.{SyncDecisionEntry}
use tenantplane.Syncer.{ConvergedVersions}
use tenantplane.Api.Copies.{
  Heap, Slice, StatusRef, update, zero_entry, replicate, array_at, map_at, store_entry,
  store_converged, make_entries, make_map, deep_copy_entries, deep_copy_map,
}
use tenantplane.Api.Copies.Laws.{
  get_or-update_other, get_or-append, copy_entries-maps, copy_entries-other, copy_map-arrays,
  copy_map-other,
}

-- What is read at a slice and in a map that may be nil.
abbrev pub entries_of : Heap → Option Slice → Option (List SyncDecisionEntry)
entries_of h none = none
entries_of h (some s) = some (take s.len (array_at h s.array))

abbrev pub converged_of : Heap → Option ℕ → Text → Option (Option ConvergedVersions)
converged_of h none name = none
converged_of h (some a) name = some (lookup name (map_at h a))

abbrev pub IsRead : Heap → StatusRef → Heap → StatusRef → Type 0
IsRead h1 s1 h s =
    (entries_of h1 s1.entries ≡ entries_of h s.entries)
    × ((name : Text)
        → converged_of h1 s1.last_converged name ≡ converged_of h s.last_converged name)

-- The slice and the map are in the heap.
abbrev pub IsArray : Heap → Option Slice → Type 0
IsArray h none = Unit
IsArray h (some s) = (s.array < length h.arrays) × (s.len ≤ length (array_at h s.array))

abbrev pub IsMap : Heap → Option ℕ → Type 0
IsMap h none = Unit
IsMap h (some a) = a < length h.maps

abbrev pub IsAllocated : Heap → StatusRef → Type 0
IsAllocated h s = IsArray h s.entries × IsMap h s.last_converged

-- s[i] = e for a slice of the array, and m[name] = v.
pub data Write : Type 0 where
  assign : ℕ → ℕ → SyncDecisionEntry → Write
  converge : ℕ → Text → ConvergedVersions → Write

abbrev pub perform : List Write → Heap → Heap
perform [] h = h
perform (assign a i e ∷ writes) h = perform writes (store_entry a i e h)
perform (converge a name v ∷ writes) h = perform writes (store_converged a name v h)

abbrev pub IsAtSlice : Option Slice → ℕ → Type 0
IsAtSlice none a = ⊥
IsAtSlice (some s) a = s.array ≡ a

abbrev pub IsAtMap : Option ℕ → ℕ → Type 0
IsAtMap none a = ⊥
IsAtMap (some b) a = b ≡ a

-- A write through a status.
abbrev pub IsThrough : StatusRef → Write → Type 0
IsThrough s (assign a i e) = IsAtSlice s.entries a
IsThrough s (converge a name v) = IsAtMap s.last_converged a

abbrev pub IsApart : StatusRef → Write → Type 0
IsApart s (assign a i e) = IsAtSlice s.entries a → ⊥
IsApart s (converge a name v) = IsAtMap s.last_converged a → ⊥

assigned :
    (s : Option Slice) (a i : ℕ) (e : SyncDecisionEntry) (h : Heap)
    → (IsAtSlice s a → ⊥)
    → entries_of (store_entry a i e h) s ≡ entries_of h s
assigned none a i e h apart = refl
assigned (some s) a i e h apart =
    ap (λ xs. some (take s.len xs))
      (get_or-update_other a s.array (λ xs. update i (λ _. e) xs) h.arrays [] (λ p. apart (sym p)))

converged :
    (b : Option ℕ) (a : ℕ) (key : Text) (v : ConvergedVersions) (h : Heap) (name : Text)
    → (IsAtMap b a → ⊥)
    → converged_of (store_converged a key v h) b name ≡ converged_of h b name
converged none a key v h name apart = refl
converged (some b) a key v h name apart =
    ap (λ m. some (lookup name m))
      (get_or-update_other a b (λ m. insert key v m) h.maps [] (λ p. apart (sym p)))

-- Writes elsewhere leave what a status reads.
pub perform-IsRead :
    (writes : List Write) (h : Heap) (s : StatusRef)
    → All (λ w. IsApart s w) writes
    → IsRead (perform writes h) s h s
perform-IsRead [] h s apart = (refl, λ name. refl)
perform-IsRead (assign a i e ∷ writes) h s apart =
    let rest = perform-IsRead writes (store_entry a i e h) s apart.1 in
    (rest.0 ∙ assigned s.entries a i e h apart.0, rest.1)
perform-IsRead (converge a key v ∷ writes) h s apart =
    let rest = perform-IsRead writes (store_converged a key v h) s apart.1 in
    (rest.0, λ name. rest.1 name ∙ converged s.last_converged a key v h name apart.0)

module _ (copy_time : ℕ → ℕ) where
  -- The two loops, each apart from the other.
  pub entries-maps :
      (s : Option Slice) (h : Heap) → (deep_copy_entries copy_time s h).1.maps ≡ h.maps
  entries-maps none h = refl
  entries-maps (some s) h =
      copy_entries-maps copy_time s.array (length h.arrays) s.len 0 (make_entries s.len h).1

  pub map-arrays : (m : Option ℕ) (h : Heap) → (deep_copy_map m h).1.arrays ≡ h.arrays
  map-arrays none h = refl
  map-arrays (some a) h = copy_map-arrays (length h.maps) (map_at h a) (make_map h).1

  pub fresh : (a n : ℕ) → a < n → n ≢ a
  fresh a n below same = omega arith

  -- What was in the heap stays.
  pub entries-kept :
      (s old : Option Slice) (h : Heap)
      → IsArray h old
      → entries_of (deep_copy_entries copy_time s h).1 old ≡ entries_of h old
  entries-kept s none h there = refl
  entries-kept none (some o) h there = refl
  entries-kept (some s) (some o) h there =
      ap (λ xs. some (take o.len xs))
        (copy_entries-other copy_time s.array (length h.arrays) s.len 0 o.array
            (make_entries s.len h).1 (fresh o.array (length h.arrays) there.0)
          ∙ get_or-append o.array h.arrays (replicate s.len zero_entry ∷ []) [] there.0)

  pub map-kept :
      (m old : Option ℕ) (h : Heap) (name : Text)
      → IsMap h old
      → converged_of (deep_copy_map m h).1 old name ≡ converged_of h old name
  map-kept m none h name there = refl
  map-kept none (some b) h name there = refl
  map-kept (some a) (some b) h name there =
      ap (λ m. some (lookup name m))
        (copy_map-other (length h.maps) (map_at h a) b (make_map h).1
            (fresh b (length h.maps) there)
          ∙ get_or-append b h.maps ([] ∷ []) [] there)
