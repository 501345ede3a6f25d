-- ===== src/Syncplan/Sanitize/Shape.antt =====
-- The shape of what `sanitize_name` returns, for every input.
use tenantplane.Base.{
  ℕ, ◌≡◌, refl, Bool, true, false, ◌&&◌, List, [], ◌∷◌, ◌++◌, All, arith, eqb, Bool-cases, inl, inr,
  if◌then◌else◌,
}
use tenantplane.Base.Text.{Text, encode_rune, trim, trim_left, trim_right, is_dash, is_empty}
use tenantplane.Base.Go.{Unicode}
use tenantplane.Syncplan.Sanitize.{is_valid, sanitize_loop, lowered, or_x, sanitize_name}

-- No dash follows a dash. The flag says that a dash stands before the text.
abbrev pub IsSeparated : Bool → Text → Type 0
IsSeparated last_dash [] = Unit {0}
IsSeparated last_dash (c ∷ s) = ((last_dash && is_dash c) ≡ false) × IsSeparated (is_dash c) s

abbrev pub ends_in_dash : Bool → Text → Bool
ends_in_dash before [] = before
ends_in_dash before (c ∷ s) = ends_in_dash (is_dash c) s

-- Not empty, no dash at either end, and no two dashes in a row.
pub record IsTidy (s : Text) : Type 0 where
  pub inhabited : is_empty s ≡ false
  pub separated : IsSeparated true s
  pub ends : ends_in_dash true s ≡ false

abbrev pub HasNoDash : Text → Type 0
HasNoDash = All (λ c. is_dash c ≡ false)

pub IsSeparated-weaken : (b : Bool) (s : Text) → IsSeparated true s → IsSeparated b s
IsSeparated-weaken b [] h = tt
IsSeparated-weaken true (c ∷ s) h = h
IsSeparated-weaken false (c ∷ s) h = (refl, h.1)

pub IsSeparated-append :
    (b : Bool) (s t : Text)
    → IsSeparated b s
    → IsSeparated (ends_in_dash b s) t
    → IsSeparated b (s ++ t)
IsSeparated-append b [] t hs ht = ht
IsSeparated-append b (c ∷ s) t hs ht = (hs.0, IsSeparated-append (is_dash c) s t hs.1 ht)

pub ends_in_dash-append :
    (b : Bool) (s t : Text) → ends_in_dash b (s ++ t) ≡ ends_in_dash (ends_in_dash b s) t
ends_in_dash-append b [] t = refl
ends_in_dash-append b (c ∷ s) t = ends_in_dash-append (is_dash c) s t

pub HasNoDash-IsSeparated : (b : Bool) (s : Text) → HasNoDash s → IsSeparated b s
HasNoDash-IsSeparated b [] h = tt
HasNoDash-IsSeparated b (c ∷ s) h = (ground arith, HasNoDash-IsSeparated (is_dash c) s h.1)

pub HasNoDash-ends :
    (b : Bool) (s : Text) → HasNoDash s → is_empty s ≡ false → ends_in_dash b s ≡ false
HasNoDash-ends b [] h e = cc
HasNoDash-ends b (c ∷ []) h e = h.0
HasNoDash-ends b (c ∷ d ∷ s) h e = HasNoDash-ends (is_dash c) (d ∷ s) h.1 refl

encode_rune-HasNoDash : (r : ℕ) → eqb r b'-' ≡ false → HasNoDash (encode_rune r)
unfolding encode_rune
encode_rune-HasNoDash r h = ground arith

encode_rune-inhabited : (r : ℕ) → is_empty (encode_rune r) ≡ false
unfolding encode_rune
encode_rune-inhabited r = ground arith

encode_rune-dash : (r : ℕ) → eqb r b'-' ≡ true → encode_rune r ≡ b'-' ∷ []
unfolding encode_rune
encode_rune-dash r h = ground arith

-- An encoded rune other than the dash separates.
rune-IsSeparated :
    (b : Bool) (r : ℕ) (t : Text)
    → eqb r b'-' ≡ false
    → IsSeparated false t
    → IsSeparated b (encode_rune r ++ t)
rune-IsSeparated b r t h ht =
    let clean = encode_rune-HasNoDash r h in
    IsSeparated-append b (encode_rune r) t (HasNoDash-IsSeparated b _ clean)
      (rw (HasNoDash-ends b _ clean (encode_rune-inhabited r)) ht)

dash_if :
    (b : Bool) (t : Text) → IsSeparated true t → IsSeparated b ((if b then [] else b'-' ∷ []) ++ t)
dash_if true t h = h
dash_if false t h = (refl, h)

trim_left-IsSeparated :
    (b : Bool) (s : Text) → IsSeparated b s → IsSeparated true (trim_left is_dash s)
unfolding trim_left
trim_left-IsSeparated b [] h = tt
trim_left-IsSeparated b (c ∷ s) h = ground (arith, trim_left-IsSeparated (is_dash c) s h.1)

pub trim_right-IsSeparated :
    (b : Bool) (s : Text) → IsSeparated b s → IsSeparated b (trim_right is_dash s)
unfolding trim_right
trim_right-IsSeparated b [] h = tt
trim_right-IsSeparated b (c ∷ s) h = ground (arith, trim_right-IsSeparated (is_dash c) s h.1)

pub trim_right-ends :
    (b : Bool) (s : Text)
    → is_empty (trim_right is_dash s) ≡ false
    → ends_in_dash b (trim_right is_dash s) ≡ false
unfolding trim_right
trim_right-ends b [] h = cc
trim_right-ends b (c ∷ s) h = ground (arith, trim_right-ends (is_dash c) s)

module _ ⦃u : Unicode⦄ where
  sanitize_loop-IsSeparated : (b : Bool) (v : List ℕ) → IsSeparated b (sanitize_loop b v)
  unfolding sanitize_loop
  sanitize_loop-IsSeparated b [] = tt
  sanitize_loop-IsSeparated b (r ∷ v) = elim (Bool-cases (is_valid r)) [
    | inl good ↦ elim (Bool-cases (eqb r b'-')) [
      | inl dash ↦
          rw (good, dash, encode_rune-dash r dash) (dash_if b _ (sanitize_loop-IsSeparated true v))
      | inr other ↦
          rw (good, other) (rune-IsSeparated b r _ other (sanitize_loop-IsSeparated false v))
    ]
    | inr bad ↦ rw bad (dash_if b _ (sanitize_loop-IsSeparated true v))
  ]

  or_x-IsTidy :
      (s : Text)
      → IsSeparated true s
      → (is_empty s ≡ false → ends_in_dash true s ≡ false)
      → IsTidy (or_x s)
  or_x-IsTidy [] h e = record { inhabited = refl; separated = (refl, tt); ends = refl }
  or_x-IsTidy (c ∷ s) h e = record { inhabited = refl; separated = h; ends = e refl }

  -- A sanitized name is never empty, has no dash at its ends and no two dashes in a row.
  pub sanitize_name-IsTidy : (value : Text) → IsTidy (sanitize_name value)
  unfolding sanitize_name trim
  sanitize_name-IsTidy value =
      let looped = sanitize_loop false (lowered value) in
      or_x-IsTidy _
        (trim_right-IsSeparated true _
          (trim_left-IsSeparated false looped (sanitize_loop-IsSeparated false (lowered value))))
        (trim_right-ends true (trim_left is_dash looped))
