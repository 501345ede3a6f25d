-- ===== src/Syncplan/Sanitize/Ascii.antt =====
-- What `sanitize_name` does on ASCII texts: its alphabet, its fixed points, and idempotence.
use tenantplane.Base.{
  ℕ, ◌<◌, ◌≡◌, refl, Bool, true, false, ◌||◌, ◌&&◌, List, [], ◌∷◌, map, All, All-map, arith, within,
  Bool-cases, inl, inr, ap,
}
use tenantplane.Base.Text.{
  Text, runes, decode_rune, encode_rune, trim, trim_left, trim_right, is_dash, is_empty,
}
use tenantplane.Base.Go.{Unicode, is_space, to_lower}
use tenantplane.Syncplan.Sanitize.{is_valid, sanitize_loop, lowered, or_x, sanitize_name}
use tenantplane.Syncplan.Sanitize.Shape.{
  IsSeparated, IsSeparated-weaken, ends_in_dash, IsTidy, sanitize_name-IsTidy,
}

abbrev pub is_label_char : ℕ → Bool
is_label_char c = within b'a' b'z' c || within b'0' b'9' c || is_dash c

abbrev pub IsAscii : Text → Type 0
IsAscii = All (λ c. c < 0x80)

-- Only lower-case letters, digits and dashes.
abbrev pub HasLabelChars : Text → Type 0
HasLabelChars = All (λ c. is_label_char c ≡ true)

abbrev IsLowered : ℕ → Type 0
IsLowered c = (c < 0x80) × (within b'A' b'Z' c ≡ false)

All-trim_left : (P : ℕ → Type 0) (p : ℕ → Bool) (s : Text) → All P s → All P (trim_left p s)
unfolding trim_left
All-trim_left P p [] h = tt
All-trim_left P p (c ∷ s) h = elim (Bool-cases (p c)) [
  | inl cut ↦ rw cut (All-trim_left P p s h.1)
  | inr kept ↦ rw kept h
]

pub All-trim_right : (P : ℕ → Type 0) (p : ℕ → Bool) (s : Text) → All P s → All P (trim_right p s)
unfolding trim_right
All-trim_right P p [] h = tt
All-trim_right P p (c ∷ s) h = elim (Bool-cases (p c && is_empty (trim_right p s))) [
  | inl cut ↦ rw cut tt
  | inr kept ↦ rw kept (h.0, All-trim_right P p s h.1)
]

decode_rune-ascii : (c : ℕ) (s : Text) → c < 0x80 → decode_rune c s ≡ (c, 1)
unfolding decode_rune
decode_rune-ascii c s h = ground arith

runes-ascii : (s : Text) → IsAscii s → runes s ≡ s
unfolding runes
runes-ascii [] h = refl
runes-ascii (c ∷ s) h = rw (decode_rune-ascii c s h.0) (ap (λ t. c ∷ t) (runes-ascii s h.1))

-- Trimming changes nothing where nothing is to be trimmed.
trim_left-none : (p : ℕ → Bool) (s : Text) → All (λ c. p c ≡ false) s → trim_left p s ≡ s
unfolding trim_left
trim_left-none p [] h = refl
trim_left-none p (c ∷ s) h = rw h.0

trim_right-none : (p : ℕ → Bool) (s : Text) → All (λ c. p c ≡ false) s → trim_right p s ≡ s
unfolding trim_right
trim_right-none p [] h = refl
trim_right-none p (c ∷ s) h = rw (h.0, trim_right-none p s h.1)

trim_left-tidy : (s : Text) → IsSeparated true s → trim_left is_dash s ≡ s
unfolding trim_left
trim_left-tidy [] h = refl
trim_left-tidy (c ∷ s) h = ground arith

pub trim_right-tidy : (b : Bool) (s : Text) → ends_in_dash b s ≡ false → trim_right is_dash s ≡ s
unfolding trim_right
trim_right-tidy b [] h = refl
trim_right-tidy b (c ∷ s) h = ground (arith, trim_right-tidy (is_dash c) s)

label-not_space : (c : ℕ) → is_label_char c ≡ true → is_space c ≡ false
unfolding is_space
label-not_space c h = ground arith

pub label-ascii : (c : ℕ) → is_label_char c ≡ true → c < 0x80
label-ascii c h = ground arith

module _ ⦃u : Unicode⦄ where
  map-to_lower : (s : Text) → IsAscii s → All IsLowered (map to_lower s)
  unfolding to_lower
  map-to_lower [] h = tt
  map-to_lower (c ∷ s) h = ((ground arith, ground arith), map-to_lower s h.1)

  lowered-ascii : (s : Text) → IsAscii s → All IsLowered (lowered s)
  unfolding lowered
  lowered-ascii s h =
      rw (runes-ascii s h)
        (map-to_lower _ (All-trim_right _ is_space _ (All-trim_left _ is_space s h)))

  to_lower-label : (s : Text) → HasLabelChars s → map to_lower s ≡ s
  unfolding to_lower
  to_lower-label [] h = refl
  to_lower-label (c ∷ s) h = ground (arith, to_lower-label s h.1)

  loop-alphabet : (b : Bool) (v : List ℕ) → All IsLowered v → HasLabelChars (sanitize_loop b v)
  unfolding sanitize_loop is_valid encode_rune
  loop-alphabet b [] h = tt
  loop-alphabet b (r ∷ v) h = ground (arith, loop-alphabet true v h.1, loop-alphabet false v h.1)

  loop-fixed : (b : Bool) (s : Text) → HasLabelChars s → IsSeparated b s → sanitize_loop b s ≡ s
  unfolding sanitize_loop is_valid encode_rune
  loop-fixed b [] h sep = refl
  loop-fixed b (c ∷ s) h sep = ground (arith, loop-fixed (is_dash c) s h.1 sep.1)

  or_x-alphabet : (s : Text) → HasLabelChars s → HasLabelChars (or_x s)
  or_x-alphabet [] h = (refl, tt)
  or_x-alphabet (c ∷ s) h = h

  -- The sanitized name of an ASCII text has only lower-case letters, digits and dashes.
  pub sanitize_name-HasLabelChars :
      (value : Text) → IsAscii value → HasLabelChars (sanitize_name value)
  unfolding sanitize_name trim
  sanitize_name-HasLabelChars value h = or_x-alphabet _ (
      All-trim_right _ is_dash _
        (All-trim_left _ is_dash _ (loop-alphabet false _ (lowered-ascii value h))))

  lowered-label : (s : Text) → HasLabelChars s → lowered s ≡ s
  unfolding lowered trim
  lowered-label s h =
      let plain = All-map _ (λ c. is_space c ≡ false) label-not_space s h in
      rw
        (
          runes-ascii s (All-map _ _ label-ascii s h),
          trim_left-none is_space s plain,
          trim_right-none is_space s plain,
        )
        (to_lower-label s h)

  -- A tidy text of lower-case letters, digits and dashes is its own sanitized name.
  pub sanitize_name-tidy : (s : Text) → HasLabelChars s → IsTidy s → sanitize_name s ≡ s
  unfolding sanitize_name trim
  sanitize_name-tidy s h tidy = rw (
    lowered-label s h,
    loop-fixed false s h (IsSeparated-weaken false s tidy.separated),
    trim_left-tidy s tidy.separated,
    trim_right-tidy true s tidy.ends,
    tidy.inhabited,
  )

  -- On ASCII texts a second sanitizing changes nothing.
  pub sanitize_name_idem :
      (value : Text) → IsAscii value → sanitize_name (sanitize_name value) ≡ sanitize_name value
  sanitize_name_idem value h =
      sanitize_name-tidy _ (sanitize_name-HasLabelChars value h) (sanitize_name-IsTidy value)
