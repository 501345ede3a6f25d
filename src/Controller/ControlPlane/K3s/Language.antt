-- ===== src/Controller/ControlPlane/K3s/Language.antt =====
-- The versions that have an image, as a language: the meaning of the pattern
-- `^(v1\.(?:28|29|30|31|32|33))(?:\.[0-9]+)?$`.
use Prim.Derive.{subst}
use tenantplane.Base.{
  ℕ, ◌≤◌, ◌≡◌, inl, inr, ◌↔◌, refl, sym, ◌∙◌, true, false, ◌&&◌, List, [], ◌∷◌, ◌++◌, drop, length,
  eqb_iff, arith, Bool-cases,
}
use tenantplane.Base.Text.{Text, starts_with}
use tenantplane.Controller.ControlPlane.K3s.{
  is_digits, is_patch, match_minor, minors, k3s_images, k3s_image_for_version,
}
use tenantplane.Controller.ControlPlane.K3s.Laws.{is_some, lookup-match_minor}

false_ne_true : ¬ (false ≡ true)
false_ne_true h = ground arith

-- [0-9]+
pub data IsDigits : Text → Type 0 where
  last : (c : ℕ) → b'0' ≤ c → c ≤ b'9' → IsDigits (c ∷ [])
  digit : (c : ℕ) (s : Text) → b'0' ≤ c → c ≤ b'9' → IsDigits s → IsDigits (c ∷ s)

-- (?:\.[0-9]+)?
pub data IsPatch : Text → Type 0 where
  none_given : IsPatch []
  given : (s : Text) → IsDigits s → IsPatch (b'.' ∷ s)

-- One of the minor releases, and then a patch or nothing.
pub data IsVersion : List Text → Text → Type 0 where
  here :
      (minor : Text) (minors : List Text) (patch : Text)
      → IsPatch patch
      → IsVersion (minor ∷ minors) (minor ++ patch)
  there :
      (minor : Text) (minors : List Text) (version : Text)
      → IsVersion minors version
      → IsVersion (minor ∷ minors) version

is_digits-IsDigits : (s : Text) → is_digits s ≡ true → IsDigits s
is_digits-IsDigits [] h = absurd (false_ne_true h)
is_digits-IsDigits (c ∷ []) h = last c (ground arith) (ground arith)
is_digits-IsDigits (c ∷ d ∷ s) h =
    digit c (d ∷ s) (ground arith) (ground arith) (is_digits-IsDigits (d ∷ s) (ground arith))

is_digits-cons :
    (c : ℕ) (s : Text) → b'0' ≤ c → c ≤ b'9' → is_digits s ≡ true → is_digits (c ∷ s) ≡ true
is_digits-cons c [] lo hi h = ground arith
is_digits-cons c (d ∷ s) lo hi h = ground arith

is_digits_complete : {s : Text} → IsDigits s → is_digits s ≡ true
is_digits_complete (last c lo hi) = ground arith
is_digits_complete (digit c s lo hi h) = is_digits-cons c s lo hi (is_digits_complete h)

is_patch-IsPatch : (s : Text) → is_patch s ≡ true → IsPatch s
is_patch-IsPatch [] h = none_given
is_patch-IsPatch (c ∷ s) h =
    subst (λ b. IsPatch (b ∷ s)) (sym ((eqb_iff c b'.').0 (ground arith)))
      (given s (is_digits-IsDigits s (ground arith)))

is_patch_complete : {s : Text} → IsPatch s → is_patch s ≡ true
is_patch_complete none_given = refl
is_patch_complete (given s h) = is_digits_complete h

-- A text that starts with another is that one and what is left after its length.
starts_with-split : (s p : Text) → starts_with s p ≡ true → p ++ drop (length p) s ≡ s
unfolding starts_with
starts_with-split s [] h = refl
starts_with-split [] (c ∷ p) h = absurd (false_ne_true h)
starts_with-split (d ∷ s) (c ∷ p) h = ground (arith, starts_with-split s p)

starts_with-prefix : (p t : Text) → starts_with (p ++ t) p ≡ true
unfolding starts_with
starts_with-prefix [] t = refl
starts_with-prefix (c ∷ p) t = ground (arith, starts_with-prefix p t)

drop-prefix : (p t : Text) → drop (length p) (p ++ t) ≡ t
drop-prefix [] t = refl
drop-prefix (c ∷ p) t = drop-prefix p t

match_minor-IsVersion :
    (ms : List Text) (version : Text)
    → is_some (match_minor ms version) ≡ true
    → IsVersion ms version
unfolding match_minor
match_minor-IsVersion [] version h = absurd (false_ne_true h)
match_minor-IsVersion (m ∷ ms) version h =
    elim (Bool-cases (starts_with version m && is_patch (drop (length m) version))) [
      | inl first ↦ subst (IsVersion (m ∷ ms)) (starts_with-split version m (ground arith)) (
          here m ms (drop (length m) version)
            (is_patch-IsPatch (drop (length m) version) (ground arith)))
      | inr later ↦ there m ms version (match_minor-IsVersion ms version (ground arith))
    ]

match_minor_complete :
    {ms : List Text} {version : Text}
    → IsVersion ms version
    → is_some (match_minor ms version) ≡ true
unfolding match_minor
match_minor_complete (here m ms patch h) =
    rw (starts_with-prefix m patch, drop-prefix m patch, is_patch_complete h) refl
match_minor_complete (there m ms version h) = ground (arith, match_minor_complete h)

-- There is an image for a version exactly where the version is in the language of the pattern: one
-- of the minor releases, and then nothing, or a dot and at least one digit.
pub k3s_image_for_version-IsVersion :
    (version : Text) → (is_some (k3s_image_for_version version) ≡ true) ↔ IsVersion minors version
unfolding k3s_image_for_version
k3s_image_for_version-IsVersion version =
    let same =
      lookup-match_minor k3s_images minors version
        (refl, (refl, (refl, (refl, (refl, (refl, tt)))))) in
    (λ h. match_minor-IsVersion minors version (sym same ∙ h), λ h. same ∙ match_minor_complete h)
