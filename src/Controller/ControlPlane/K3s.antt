-- ===== src/Controller/ControlPlane/K3s.antt =====
-- `k3sImageForVersion` of internal/controller/controlplane.go, with its pattern
-- `^(v1\.(?:28|29|30|31|32|33))(?:\.[0-9]+)?$` and its table.
pub mod Laws
pub mod Language
use tenantplane.Base.{
  ℕ, Bool, true, false, ◌&&◌, List, [], ◌∷◌, Option, none, some, if◌then◌else◌, Dict, lookup,
  bytes_eq, length, drop, eqb, within,
}
use tenantplane.Base.Text.{Text, text, starts_with}

-- [0-9]+$
abbrev pub is_digits : Text → Bool
is_digits [] = false
is_digits (c ∷ []) = within b'0' b'9' c
is_digits (c ∷ d ∷ s) = within b'0' b'9' c && is_digits (d ∷ s)

-- (?:\.[0-9]+)?$
abbrev pub is_patch : Text → Bool
is_patch [] = true
is_patch (c ∷ s) = eqb c b'.' && is_digits s

-- The first of the alternatives that starts the text and is followed by a patch.
unfoldable pub match_minor : List Text → Text → Option Text
match_minor [] version = none
match_minor (minor ∷ minors) version =
    let rest = match_minor minors version in
    if starts_with version minor && is_patch (drop (length minor) version) then some minor else rest

abbrev pub minors : List Text
minors =
    text "v1.28" ∷ text "v1.29" ∷ text "v1.30" ∷ text "v1.31" ∷ text "v1.32" ∷ text "v1.33" ∷ []

abbrev pub k3s_images : Dict Text Text
k3s_images =
    (text "v1.28", text "rancher/k3s:v1.28.13-k3s1")
    ∷ (text "v1.29", text "rancher/k3s:v1.29.9-k3s1")
    ∷ (text "v1.30", text "rancher/k3s:v1.30.6-k3s1")
    ∷ (text "v1.31", text "rancher/k3s:v1.31.5-k3s1")
    ∷ (text "v1.32", text "rancher/k3s:v1.32.3-k3s1")
    ∷ (text "v1.33", text "rancher/k3s:v1.33.1-k3s1")
    ∷ []

abbrev pub default_k3s_image : Text
default_k3s_image = text "rancher/k3s:v1.30.4-k3s1"

-- `none` where ok is false.
unfoldable pub k3s_image_for_version : Text → Option Text
unfolding match_minor
k3s_image_for_version version = elim (match_minor minors version) [
  | none ↦ none
  | some minor ↦ lookup minor k3s_images
]

-- The image of the control plane.
unfoldable pub k3s_image : Text → Text
k3s_image version = elim (k3s_image_for_version version) [
  | none ↦ default_k3s_image
  | some image ↦ image
]
