-- ===== src/Api/Copies/Deep.antt =====
-- What SyncDecisionStatus.DeepCopyInto of internal/api/v1alpha1/syncdecision_deepcopy.go is for: the
-- copy has the contents of its source, and shares no memory with it.
use tenantplane.Base.{
  ℕ, zero, suc, ◌<◌, ◌≡◌, refl, ap, ◌∙◌, List, [], ◌∷◌, ◌++◌, Option, none, some, length,
  length-append, take, bytes_eq, arith, All, All-map,
}
use tenantplane.Base.Text.{Text}
use tenantplane.Api.Copies.{
  Heap, Slice, StatusRef, replicate, zero_entry, array_at, map_at, make_entries, make_map,
  deep_copy_entries, deep_copy_map, deep_copy_into,
}
use tenantplane.Api.Copies.Laws.{
  get_or-appended, get_or-append, fill-replicate, copy_entries-filled, copy_map-lookup, fill,
}
use tenantplane.Api.Copies.Separate.{
  entries_of, converged_of, IsRead, IsArray, IsMap, IsAllocated, Write, assign, converge, perform,
  IsAtSlice, IsAtMap, IsThrough, IsApart, perform-IsRead, entries-maps, map-arrays, entries-kept,
  map-kept, fresh,
}

take-take {ℓ} : {A : Type ℓ} (n : ℕ) (xs : List A) → take n (take n xs) ≡ take n xs
take-take zero xs = refl
take-take (suc n) [] = refl
take-take (suc n) (x ∷ xs) = ap (λ r. x ∷ r) (take-take n xs)

last_index {ℓ} : {A : Type ℓ} (xs : List A) (y : A) → length xs < length (xs ++ y ∷ [])
last_index xs y = omega (arith, length-append xs (y ∷ []))

map-copied :
    (m : Option ℕ) (h : Heap) (name : Text)
    → IsMap h m
    → converged_of (deep_copy_map m h).1 (deep_copy_map m h).0 name ≡ converged_of h m name
map-copied none h name there = refl
map-copied (some a) h name there = ap some (
    copy_map-lookup (length h.maps) (map_at h a) (make_map h).1 name (last_index h.maps [])
      (get_or-appended h.maps [] []))

map-IsApart :
    (m old : Option ℕ) (h : Heap) (a : ℕ)
    → IsMap h old
    → IsAtMap old a
    → IsAtMap (deep_copy_map m h).0 a
    → ⊥
map-IsApart m none h a there p q = p
map-IsApart none (some b) h a there p q = q
map-IsApart (some c) (some b) h a there p q = omega (arith, there, p, q)

module _ (copy_time : ℕ → ℕ) where
  entries-copied :
      ((t : ℕ) → copy_time t ≡ t)
      → (s : Option Slice) (h : Heap) → IsArray h s
      → entries_of (deep_copy_entries copy_time s h).1 (deep_copy_entries copy_time s h).0
        ≡ entries_of h s
  entries-copied exact none h there = refl
  entries-copied exact (some s) h there =
      let zeroes = replicate s.len zero_entry in
      ap (λ xs. some (take s.len xs))
        (copy_entries-filled copy_time s.array (length h.arrays) s.len 0 (make_entries s.len h).1
            (fresh copy_time s.array (length h.arrays) there.0) (last_index h.arrays zeroes)
          ∙ (λ i.
              fill copy_time s.len 0 (get_or-append s.array h.arrays (zeroes ∷ []) [] there.0 i)
                (get_or-appended h.arrays zeroes [] i))
          ∙ fill-replicate copy_time exact s.len (array_at h s.array) there.1)
      ∙ ap some (take-take s.len (array_at h s.array))

  entries-IsApart :
      (s old : Option Slice) (h : Heap) (a : ℕ)
      → IsArray h old
      → IsAtSlice old a
      → IsAtSlice (deep_copy_entries copy_time s h).0 a
      → ⊥
  entries-IsApart s none h a there p q = p
  entries-IsApart none (some o) h a there p q = q
  entries-IsApart (some s) (some o) h a there p q = omega (arith, there.0, p, q)

  module _ (s : StatusRef) (h : Heap) where
    abbrev once : Heap
    once = (deep_copy_entries copy_time s.entries h).1

    once-IsMap : (m : Option ℕ) → IsMap h m → IsMap once m
    once-IsMap none there = there
    once-IsMap (some a) there = rw (entries-maps copy_time s.entries h) there

    once-entries :
        (x : Option Slice)
        → entries_of (deep_copy_map s.last_converged once).1 x ≡ entries_of once x
    once-entries none = refl
    once-entries (some x) =
        ap (λ arrays. entries_of (record h { arrays = arrays }) (some x))
          (map-arrays copy_time s.last_converged once)

    once-converged : (m : Option ℕ) (name : Text) → converged_of once m name ≡ converged_of h m name
    once-converged none name = refl
    once-converged (some a) name =
        ap (λ maps. converged_of (record h { maps = maps }) (some a) name)
          (entries-maps copy_time s.entries h)

    -- A write through a status of the heap misses the copy, and one through the copy misses that.
    writes-IsApart :
        (old : StatusRef) (w : Write)
        → IsAllocated h old
        → IsThrough old w
        → IsThrough (deep_copy_into copy_time s h).0 w
        → ⊥
    unfolding deep_copy_into
    writes-IsApart old (assign a i e) there p q =
        entries-IsApart s.entries old.entries h a there.0 p q
    writes-IsApart old (converge a name v) there p q =
        map-IsApart s.last_converged old.last_converged once a
          (once-IsMap old.last_converged there.1) p q

    not_through : (x : StatusRef) (w : Write) → (IsThrough x w → ⊥) → IsApart x w
    not_through x (assign a i e) h = h
    not_through x (converge a name v) h = h

    -- Take a status whose slice and map are in the heap, and a copy of a time that is that time. A
    -- deep copy of the status reads as the status did before it, also after any writes through the
    -- status: nil stays nil, the entries are the same in their order, and the map has the same
    -- versions.
    pub deep_copy_into-IsRead :
        (writes : List Write)
        → ((t : ℕ) → copy_time t ≡ t)
        → IsAllocated h s
        → All (λ w. IsThrough s w) writes
        → IsRead
            (perform writes (deep_copy_into copy_time s h).1)
            (deep_copy_into copy_time s h).0
            h
            s
    unfolding deep_copy_into
    deep_copy_into-IsRead writes exact there through =
        let (out, copied) = deep_copy_into copy_time s h in
        let still = perform-IsRead writes copied out (
          All-map (λ w. IsThrough s w) (λ w. IsApart out w)
            (λ w p. not_through out w (λ q. writes-IsApart s w there p q)) writes through) in
        (
          still.0 ∙ once-entries out.entries ∙ entries-copied exact s.entries h there.0,
          λ name.
              still.1 name
              ∙ map-copied s.last_converged once name (once-IsMap s.last_converged there.1)
              ∙ once-converged s.last_converged name,
        )

    -- A status whose slice and map are in the heap, the copied one or another, reads after a deep
    -- copy and any writes through the copy as it did before.
    pub deep_copy_into-spares :
        (old : StatusRef) (writes : List Write)
        → IsAllocated h old
        → All (λ w. IsThrough (deep_copy_into copy_time s h).0 w) writes
        → IsRead (perform writes (deep_copy_into copy_time s h).1) old h old
    unfolding deep_copy_into
    deep_copy_into-spares old writes there through =
        let (out, copied) = deep_copy_into copy_time s h in
        let still = perform-IsRead writes copied old (
          All-map (λ w. IsThrough out w) (λ w. IsApart old w)
            (λ w q. not_through old w (λ p. writes-IsApart old w there p q)) writes through) in
        (
          still.0
              ∙ once-entries old.entries
              ∙ entries-kept copy_time s.entries old.entries h there.0,
          λ name.
              still.1 name
              ∙ map-kept copy_time s.last_converged old.last_converged once name
                  (once-IsMap old.last_converged there.1)
              ∙ once-converged old.last_converged name,
        )
