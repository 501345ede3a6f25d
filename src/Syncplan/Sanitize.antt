-- ===== src/Syncplan/Sanitize.antt =====
-- `SanitizeName` of internal/syncplan/plan.go.
pub mod Shape
pub mod Ascii
use tenantplane.Base.{ℕ, Bool, true, false, ◌||◌, List, [], ◌∷◌, ◌++◌, map, eqb, if◌then◌else◌}
use tenantplane.Base.Text.{Text, text, runes, encode_rune, trim, is_dash, is_empty}
use tenantplane.Base.Go.{Unicode, is_space, is_letter, is_digit, to_lower}

module _ ⦃u : Unicode⦄ where
  unfoldable pub is_valid : ℕ → Bool
  unfolding is_letter is_digit
  is_valid r = is_letter r || is_digit r || eqb r b'-'

  -- The loop: the flag is `lastDash`, and the result is what the builder gets.
  unfoldable pub sanitize_loop : Bool → List ℕ → Text
  sanitize_loop last_dash [] = []
  sanitize_loop last_dash (r ∷ value) =
      let replaced = (if last_dash then [] else b'-' ∷ []) ++ sanitize_loop true value in
      let kept_dash = (if last_dash then [] else encode_rune r) ++ sanitize_loop true value in
      let kept = encode_rune r ++ sanitize_loop false value in
      if is_valid r then (if eqb r b'-' then kept_dash else kept) else replaced

  -- strings.ToLower(strings.TrimSpace(value)), rune by rune
  unfoldable pub lowered : Text → List ℕ
  unfolding to_lower trim is_space runes
  lowered value = map to_lower (trim is_space (runes value))

  abbrev or_x : Text → Text
  or_x out = if is_empty out then text "x" else out

  unfoldable pub sanitize_name : Text → Text
  unfolding is_valid sanitize_loop lowered encode_rune trim
  sanitize_name value = or_x (trim is_dash (sanitize_loop false (lowered value)))
