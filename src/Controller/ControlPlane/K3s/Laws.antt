-- ===== src/Controller/ControlPlane/K3s/Laws.antt =====
-- Which versions have an image: those of a minor release in the table, with or without a patch.
use tenantplane.Base.{
  ℕ, zero, suc, ◌≡◌, refl, sym, ◌∙◌, Bool, true, false, ◌&&◌, List, [], ◌∷◌, ◌++◌, map, Option,
  none, some, if◌then◌else◌, All, Dict, lookup, bytes_eq, length, drop, inl, inr, Bool-cases, arith,
}
use tenantplane.Base.Text.{Text, text, starts_with}
use tenantplane.Controller.ControlPlane.K3s.{
  is_patch, match_minor, minors, k3s_images, k3s_image_for_version,
}

abbrev pub is_some {ℓ} : {A : Type ℓ} → Option A → Bool
is_some none = false
is_some (some a) = true

starts_with-append :
    (s p r : Text) → starts_with s (p ++ r) ≡ (starts_with s p && starts_with (drop (length p) s) r)
unfolding starts_with
starts_with-append s [] r = refl
starts_with-append [] (c ∷ p) r = refl
starts_with-append (d ∷ s) (c ∷ p) r = ground (arith, starts_with-append s p r)

drop_nil : (n : ℕ) → drop {A = ℕ} n [] ≡ []
drop_nil zero = refl
drop_nil (suc n) = refl

drop-append : (p r s : Text) → drop (length (p ++ r)) s ≡ drop (length r) (drop (length p) s)
drop-append [] r s = refl
drop-append (c ∷ p) r [] = sym (drop_nil (length r))
drop-append (c ∷ p) r (d ∷ s) = drop-append p r s

and_false : (b : Bool) → false ≡ (b && false)
and_false b = ground arith

test_first :
    (a b c : Bool) (x y : Text) (r s : Option Text)
    → is_some r ≡ (a && is_some s)
    → is_some (if (a && b) && c then some x else r) ≡ (a && is_some (if b && c then some y else s))
test_first a b c x y r s h = ground arith

-- A prefix that all alternatives share can be looked for first.
pub match_minor-prefix :
    (prefix : Text) (ms : List Text) (version : Text)
    → is_some (match_minor (map (λ m. prefix ++ m) ms) version)
      ≡ (starts_with version prefix && is_some (match_minor ms (drop (length prefix) version)))
unfolding match_minor
match_minor-prefix prefix [] version = and_false (starts_with version prefix)
match_minor-prefix prefix (m ∷ ms) version =
    rw (starts_with-append version prefix m, drop-append prefix m version)
      (test_first (starts_with version prefix) (starts_with (drop (length prefix) version) m) _ _ _
        _ _ (match_minor-prefix prefix ms version))

pub lookup-match_minor :
    (images : Dict Text Text) (ms : List Text) (version : Text)
    → All (λ m. is_some (lookup m images) ≡ true) ms
    → is_some (elim (match_minor ms version) [ none ↦ none | some m ↦ lookup m images ])
      ≡ is_some (match_minor ms version)
unfolding match_minor
lookup-match_minor images [] version h = refl
lookup-match_minor images (m ∷ ms) version h =
    elim (Bool-cases (starts_with version m && is_patch (drop (length m) version))) [
      | inl here ↦ rw here h.0
      | inr elsewhere ↦ rw elsewhere (lookup-match_minor images ms version h.1)
    ]

-- The alternatives of the pattern behind "v1.".
abbrev pub suffixes : List Text
suffixes = text "28" ∷ text "29" ∷ text "30" ∷ text "31" ∷ text "32" ∷ text "33" ∷ []

-- There is an image for a version exactly where the pattern with the prefix taken out matches.
pub k3s_image_for_version-some :
    (version : Text)
    → is_some (k3s_image_for_version version)
      ≡ (starts_with version (text "v1.") && is_some (match_minor suffixes (drop 3 version)))
unfolding k3s_image_for_version
k3s_image_for_version-some version =
    lookup-match_minor k3s_images minors version (refl, (refl, (refl, (refl, (refl, (refl, tt))))))
    ∙ match_minor-prefix (text "v1.") suffixes version
