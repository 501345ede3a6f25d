-- ===== src/Api/Copies/Laws.antt =====
-- The copies of internal/api/v1alpha1/syncdecision_deepcopy.go: what each loop leaves in the heap.
use tenantplane.Base.{
  ℕ, zero, suc, ◌<◌, ◌≤◌, ◌≡◌, ◌≢◌, refl, ap, ◌∙◌, List, [], ◌∷◌, ◌++◌, some, Dict, insert, lookup,
  lookup-insert, length, take, get_or, bytes_eq, arith, if◌then◌else◌, ◌==◌,
}
use tenantplane.Base.Text.{Text}
use tenantplane.Api.{SyncDecisionEntry}
use tenantplane.Syncer.{ConvergedVersions}
use tenantplane.Api.Copies.{
  Heap, update, replicate, zero_entry, array_at, map_at, store_entry, deep_copy_entry, copy_entries,
  copy_map,
}

module _ {ℓ} {A : Type ℓ} where
  pub length-update : (i : ℕ) (f : A → A) (xs : List A) → length (update i f xs) ≡ length xs
  length-update i f [] = refl
  length-update zero f (x ∷ xs) = refl
  length-update (suc i) f (x ∷ xs) = ap suc (length-update i f xs)

  pub get_or-update :
      (i : ℕ) (f : A → A) (xs : List A) (d : A)
      → i < length xs
      → get_or (update i f xs) i d ≡ f (get_or xs i d)
  get_or-update i f [] d h = ground (arith, h)
  get_or-update zero f (x ∷ xs) d h = refl
  get_or-update (suc i) f (x ∷ xs) d h = get_or-update i f xs d (omega arith)

  pub get_or-update_other :
      (i j : ℕ) (f : A → A) (xs : List A) (d : A)
      → i ≢ j
      → get_or (update i f xs) j d ≡ get_or xs j d
  get_or-update_other i j f [] d h = refl
  get_or-update_other zero zero f (x ∷ xs) d h = ground (arith, h refl)
  get_or-update_other zero (suc j) f (x ∷ xs) d h = refl
  get_or-update_other (suc i) zero f (x ∷ xs) d h = refl
  get_or-update_other (suc i) (suc j) f (x ∷ xs) d h =
      get_or-update_other i j f xs d (λ p. h (ap suc p))

  pub get_or-appended : (xs : List A) (y d : A) → get_or (xs ++ y ∷ []) (length xs) d ≡ y
  get_or-appended [] y d = refl
  get_or-appended (x ∷ xs) y d = get_or-appended xs y d

  pub get_or-append :
      (i : ℕ) (xs ys : List A) (d : A) → i < length xs → get_or (xs ++ ys) i d ≡ get_or xs i d
  get_or-append i [] ys d h = ground (arith, h)
  get_or-append zero (x ∷ xs) ys d h = refl
  get_or-append (suc i) (x ∷ xs) ys d h = get_or-append i xs ys d (omega arith)

module _ (copy_time : ℕ → ℕ) where
  -- The loop over the entries, on the two arrays alone.
  abbrev pub fill : ℕ → ℕ → List SyncDecisionEntry → List SyncDecisionEntry → List SyncDecisionEntry
  fill zero i src out = out
  fill (suc n) i src out =
      fill n (suc i) src (update i (λ _. deep_copy_entry copy_time (get_or src i zero_entry)) out)

  fill-shifted :
      (n i : ℕ) (e o : SyncDecisionEntry) (src out : List SyncDecisionEntry)
      → fill n (suc i) (e ∷ src) (o ∷ out) ≡ o ∷ fill n i src out
  fill-shifted zero i e o src out = refl
  fill-shifted (suc n) i e o src out =
      fill-shifted n (suc i) e o src
        (update i (λ _. deep_copy_entry copy_time (get_or src i zero_entry)) out)

  -- Where a time is copied to itself, the loop copies the slice.
  pub fill-replicate :
      ((t : ℕ) → copy_time t ≡ t)
      → (n : ℕ) (src : List SyncDecisionEntry) → n ≤ length src
      → fill n 0 src (replicate n zero_entry) ≡ take n src
  fill-replicate exact zero src h = refl
  fill-replicate exact (suc n) [] h = ground (arith, h)
  fill-replicate exact (suc n) (e ∷ src) h =
      fill-shifted n 0 e (deep_copy_entry copy_time e) src (replicate n zero_entry)
      ∙ (λ i. (record e { time = exact e.time i }) ∷ fill-replicate exact n src (omega arith) i)

  module _ (from to : ℕ) where
    pub copy_entries-maps :
        (n i : ℕ) (h : Heap) → (copy_entries copy_time n i from to h).maps ≡ h.maps
    copy_entries-maps zero i h = refl
    copy_entries-maps (suc n) i h =
        copy_entries-maps n (suc i)
          (store_entry to i (deep_copy_entry copy_time (get_or (array_at h from) i zero_entry)) h)

    pub copy_entries-other :
        (n i a : ℕ) (h : Heap)
        → to ≢ a
        → array_at (copy_entries copy_time n i from to h) a ≡ array_at h a
    copy_entries-other zero i a h apart = refl
    copy_entries-other (suc n) i a h apart =
        let e = deep_copy_entry copy_time (get_or (array_at h from) i zero_entry) in
        copy_entries-other n (suc i) a (store_entry to i e h) apart
        ∙ get_or-update_other to a (λ xs. update i (λ _. e) xs) h.arrays [] apart

    pub copy_entries-filled :
        (n i : ℕ) (h : Heap)
        → to ≢ from
        → to < length h.arrays
        → array_at (copy_entries copy_time n i from to h) to
          ≡ fill n i (array_at h from) (array_at h to)
    copy_entries-filled zero i h apart there = refl
    copy_entries-filled (suc n) i h apart there =
        let e = deep_copy_entry copy_time (get_or (array_at h from) i zero_entry) in
        let f : List SyncDecisionEntry → List SyncDecisionEntry = λ xs. update i (λ _. e) xs in
        copy_entries-filled n (suc i) (store_entry to i e h) apart
          (rw (length-update to f h.arrays) there)
        ∙ (λ j.
            fill n (suc i) (get_or-update_other to from f h.arrays [] apart j)
              (get_or-update to f h.arrays [] there j))

module _ (to : ℕ) where
  pub copy_map-arrays :
      (m : Dict Text ConvergedVersions) (h : Heap) → (copy_map m to h).arrays ≡ h.arrays
  copy_map-arrays [] h = refl
  copy_map-arrays ((name, v) ∷ m) h = copy_map-arrays m h

  pub copy_map-other :
      (m : Dict Text ConvergedVersions) (a : ℕ) (h : Heap)
      → to ≢ a
      → map_at (copy_map m to h) a ≡ map_at h a
  copy_map-other [] a h apart = refl
  copy_map-other ((name, v) ∷ m) a h apart =
      get_or-update_other to a (λ m. insert name v m) (copy_map m to h).maps [] apart
      ∙ copy_map-other m a h apart

  length-copy_map :
      (m : Dict Text ConvergedVersions) (h : Heap) → length (copy_map m to h).maps ≡ length h.maps
  length-copy_map [] h = refl
  length-copy_map ((name, v) ∷ m) h =
      length-update to (λ m. insert name v m) (copy_map m to h).maps ∙ length-copy_map m h

  -- A new map has, after the loop, what the source has.
  pub copy_map-lookup :
      (m : Dict Text ConvergedVersions) (h : Heap) (name : Text)
      → to < length h.maps
      → map_at h to ≡ []
      → lookup name (map_at (copy_map m to h) to) ≡ lookup name m
  copy_map-lookup [] h name there new = ap (λ m. lookup name m) new
  copy_map-lookup ((key, v) ∷ m) h name there new =
      ap (λ m. lookup name m)
        (get_or-update to (λ m. insert key v m) (copy_map m to h).maps []
          (rw (length-copy_map m h) there))
      ∙ lookup-insert key name v (map_at (copy_map m to h) to)
      ∙ ap (λ r. if key == name then some v else r) (copy_map-lookup m h name there new)
