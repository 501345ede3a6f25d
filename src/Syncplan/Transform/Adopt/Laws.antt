-- ===== src/Syncplan/Transform/Adopt/Laws.antt =====
-- The update of a live pod, in `overlayContainerImages` and `mergeTolerations` of
-- internal/syncplan/transform.go.
use tenantplane.Base.{
  ◌≡◌, refl, sym, String, true, false, Option, none, some, List, [], ◌∷◌, ◌++◌, map, ◌==◌,
  string_eq, bytes_eq, lookup, insert, lookup-insert, arith, Bool-cases, Option-cases, inl, inr,
  All, All-map, Dict, append-nil,
}
use mathlib.Core.Path.{subst}
use tenantplane.Base.Text.{Text}
use tenantplane.Object.{
  Value, Fields, null, bool, int, float, string, slice, object, to_object-of_object, as_map,
  as_text, to_object, deep_equal,
}
use tenantplane.Syncplan.Transform.Adopt.{
  desired_images, overlay_image, overlay_container_images, is_present, added_tolerations,
  merge_tolerations,
}

-- A value that Go's DeepEqual finds equal to itself: one without NaN and with no key twice.
abbrev pub IsComparable : Value → Type 0
IsComparable v = deep_equal v v ≡ true

present-left :
    (d : Value) (xs ys : List Value) → is_present d xs ≡ true → is_present d (xs ++ ys) ≡ true
unfolding is_present
present-left d [] ys h = cc
present-left d (x ∷ xs) ys h = ground (arith, present-left d xs ys)

present-right :
    (d : Value) (xs ys : List Value) → is_present d ys ≡ true → is_present d (xs ++ ys) ≡ true
unfolding is_present
present-right d [] ys h = h
present-right d (x ∷ xs) ys h = ground (arith, present-right d xs ys)

added-absent :
    (existing desired : List Value)
    → All (λ d. is_present d existing ≡ false) (added_tolerations existing desired)
unfolding added_tolerations
added-absent existing [] = tt
added-absent existing (d ∷ desired) = elim (Bool-cases (is_present d existing)) [
  | inl there ↦ rw (there, added_tolerations) (added-absent existing desired)
  | inr missing ↦ rw (missing, added_tolerations) (missing, added-absent existing desired)
]

present-middle :
    (c d : Value) (xs ys : List Value)
    → is_present c (xs ++ ys) ≡ true
    → is_present c (xs ++ d ∷ ys) ≡ true
unfolding is_present
present-middle c d [] ys h = ground arith
present-middle c d (x ∷ xs) ys h = ground (arith, present-middle c d xs ys)

present-head : (d : Value) (ys : List Value) → IsComparable d → is_present d (d ∷ ys) ≡ true
unfolding is_present
present-head d ys self = ground arith

added-there :
    (existing desired : List Value) (d : Value)
    → is_present d existing ≡ true
    → added_tolerations existing (d ∷ desired) ≡ added_tolerations existing desired
unfolding added_tolerations
added-there existing desired d there = rw there refl

added-missing :
    (existing desired : List Value) (d : Value)
    → is_present d existing ≡ false
    → added_tolerations existing (d ∷ desired) ≡ d ∷ added_tolerations existing desired
unfolding added_tolerations
added-missing existing desired d missing = rw missing refl

added-present :
    (existing desired : List Value)
    → All IsComparable desired
    → All (λ d. is_present d (existing ++ added_tolerations existing desired) ≡ true) desired
added-present existing [] h = tt
added-present existing (d ∷ desired) (self, h) = elim (Bool-cases (is_present d existing)) [
  | inl there ↦
      subst (λ ts. All (λ c. is_present c (existing ++ ts) ≡ true) (d ∷ desired))
        (sym (added-there existing desired d there))
        (
          present-left d existing (added_tolerations existing desired) there,
          added-present existing desired h,
        )
  | inr missing ↦
      let rest = added_tolerations existing desired in
      subst (λ ts. All (λ c. is_present c (existing ++ ts) ≡ true) (d ∷ desired))
        (sym (added-missing existing desired d missing))
        (
          present-right d existing (d ∷ rest) (present-head d rest self),
          All-map (λ c. is_present c (existing ++ rest) ≡ true)
              (λ c. is_present c (existing ++ d ∷ rest) ≡ true)
              (λ c. present-middle c d existing rest) desired (added-present existing desired h),
        )
]

-- A merge keeps the live pod's tolerations, in their order and at the front; it adds only what was
-- not there; and every desired toleration is in it, where each of them is equal to itself.
pub merge_tolerations_lem :
    (existing desired : List Value)
    → All IsComparable desired
    → (added : List Value) × (merge_tolerations existing desired ≡ existing ++ added)
      × All (λ d. is_present d existing ≡ false) added
      × All (λ d. is_present d (merge_tolerations existing desired) ≡ true) desired
unfolding merge_tolerations
merge_tolerations_lem existing desired h = (
  added_tolerations existing desired,
  refl,
  added-absent existing desired,
  added-present existing desired h,
)

-- What all desired tolerations have is not added.
added-none :
    (existing desired : List Value)
    → All (λ d. is_present d existing ≡ true) desired
    → added_tolerations existing desired ≡ []
unfolding added_tolerations
added-none existing [] h = refl
added-none existing (d ∷ desired) (there, h) =
    rw (there, added_tolerations) (added-none existing desired h)

-- A second merge of the same tolerations changes nothing, where each of them is equal to itself:
-- updates do not make a pod's list grow.
pub merge_tolerations_idem :
    (existing desired : List Value)
    → All IsComparable desired
    → merge_tolerations (merge_tolerations existing desired) desired
      ≡ merge_tolerations existing desired
unfolding merge_tolerations
merge_tolerations_idem existing desired h =
    rw
      (added-none (existing ++ added_tolerations existing desired) desired
        (added-present existing desired h))
      (append-nil (existing ++ added_tolerations existing desired))

-- A field of a value, if that is a map and has it.
abbrev pub field_of : String → Value → Option Value
field_of j v = elim (as_map v) [ none ↦ none | some m ↦ lookup j m ]

overlay-map :
    (images : Dict Text Value) (j : String) (fs : Fields)
    → ("image" == j) ≡ false
    → field_of j (overlay_image images (object fs)) ≡ lookup j (to_object fs)
unfolding overlay_image
overlay-map images j fs h =
    elim (Option-cases (lookup (as_text (lookup "name" (to_object fs))) images)) [
      | inl no_image ↦ rw (overlay_image, no_image, to_object-of_object (to_object fs)) refl
      | inr (image, desired) ↦
          rw
            (
              overlay_image,
              desired,
              to_object-of_object (insert "image" image (to_object fs)),
              lookup-insert "image" j image (to_object fs),
              h,
            )
            refl
    ]

overlay-field :
    (images : Dict Text Value) (j : String) (c : Value)
    → ("image" == j) ≡ false
    → field_of j (overlay_image images c) ≡ field_of j c
unfolding overlay_image
overlay-field images j (object fs) h = overlay-map images j fs h
overlay-field images j null h = refl
overlay-field images j (bool b) h = refl
overlay-field images j (int i) h = refl
overlay-field images j (float x) h = refl
overlay-field images j (string t) h = refl
overlay-field images j (slice vs) h = refl

-- The overlay of images keeps the number of the containers, their order, and every field of theirs
-- but the image.
pub overlay_container_images_lem :
    (existing desired : List Value) (j : String)
    → ("image" == j) ≡ false
    → map (field_of j) (overlay_container_images existing desired) ≡ map (field_of j) existing
unfolding overlay_container_images
overlay_container_images_lem existing desired j h = go existing
  where
    go :
        (cs : List Value)
        → map (field_of j) (map (overlay_image (desired_images [] desired)) cs)
          ≡ map (field_of j) cs
    go [] = refl
    go (c ∷ cs) = λ i. overlay-field (desired_images [] desired) j c h i ∷ go cs i
