-- ===== src/Syncplan/HostName/Bounds.antt =====
-- Host names of internal/syncplan/plan.go: their length, their shape and their alphabet.
use tenantplane.Base.{
  ℕ, zero, suc, ◌+◌, ◌/◌, ◌%◌, ◌≤◌, ◌<◌, ◌≡◌, refl, Bool, true, false, [], ◌∷◌, ◌++◌, All,
  All-append, All-map, length, take, length-append, length-take, arith, Bool-cases, inl, inr, leb,
  leb→le,
}
use tenantplane.Base.Text.{Text, text, is_dash, is_empty, trim_right}
use tenantplane.Base.Go.{Unicode}
use tenantplane.Syncplan.Sanitize.{sanitize_name}
use tenantplane.Syncplan.Sanitize.Shape.{
  IsSeparated, IsSeparated-append, ends_in_dash-append, IsTidy, sanitize_name-IsTidy,
  trim_right-IsSeparated, trim_right-ends, HasNoDash, HasNoDash-IsSeparated, HasNoDash-ends,
}
use tenantplane.Syncplan.Sanitize.Ascii.{
  IsAscii, HasLabelChars, is_label_char, All-trim_right, sanitize_name-HasLabelChars,
}
use tenantplane.Syncplan.HostName.{
  hex, hex_digit, fnv32, fnv_loop, offset32, bounded_name, host_name, base_name,
}

length-hex : (width n : ℕ) → length (hex width n) ≡ width
unfolding hex
length-hex zero n = refl
length-hex (suc width) n =
    omega (
      arith,
      length-append (hex width (n / 16)) (hex_digit (n % 16) ∷ []),
      length-hex width (n / 16),
    )

length-fnv32 : (s : Text) → length (fnv32 s) ≡ 8
unfolding fnv32
length-fnv32 s = length-hex 8 (fnv_loop offset32 s)

abbrev IsHexChar : ℕ → Type 0
IsHexChar c = (is_label_char c ≡ true) × (is_dash c ≡ false)

hex-chars : (width n : ℕ) → All IsHexChar (hex width n)
unfolding hex
hex-chars zero n = tt
hex-chars (suc width) n =
    All-append IsHexChar (hex width (n / 16)) _ (hex-chars width (n / 16))
      (hex_digit-IsHexChar (n % 16) (omega arith), tt)
  where
    hex_digit-IsHexChar : (d : ℕ) → d < 16 → IsHexChar (hex_digit d)
    hex_digit-IsHexChar d h = ground arith

length-trim_right : (p : ℕ → Bool) (s : Text) → length (trim_right p s) ≤ length s
unfolding trim_right
length-trim_right p [] = omega arith
length-trim_right p (c ∷ s) = ground (arith, length-trim_right p s)

fnv32-chars : (s : Text) → All IsHexChar (fnv32 s)
unfolding fnv32
fnv32-chars s = hex-chars 8 (fnv_loop offset32 s)

-- The shortened name: what is kept of the long name, a dash, and the hash.
abbrev shortened : Text → Text → Text
shortened kept hash = trim_right is_dash kept ++ text "-" ++ hash

length-shortened : (kept hash : Text) → length (shortened kept hash) ≤ length kept + 1 + length hash
length-shortened kept hash = omega (
  arith,
  length-append (trim_right is_dash kept ++ text "-") hash,
  length-append (trim_right is_dash kept) (text "-"),
  length-trim_right is_dash kept,
)

-- What is kept of a text that starts with no dash is not trimmed away.
trim_right-inhabited :
    (s : Text) → is_empty s ≡ false → IsSeparated true s → is_empty (trim_right is_dash s) ≡ false
unfolding trim_right
trim_right-inhabited [] e h = cc
trim_right-inhabited (c ∷ s) e h = ground arith

take-IsSeparated : (b : Bool) (n : ℕ) (s : Text) → IsSeparated b s → IsSeparated b (take n s)
take-IsSeparated b zero s h = tt
take-IsSeparated b (suc n) [] h = tt
take-IsSeparated b (suc n) (c ∷ s) h = (h.0, take-IsSeparated (is_dash c) n s h.1)

All-take : (P : ℕ → Type 0) (n : ℕ) (s : Text) → All P s → All P (take n s)
All-take P zero s h = tt
All-take P (suc n) [] h = tt
All-take P (suc n) (c ∷ s) h = (h.0, All-take P n s h.1)

pub inhabited-append : (s t : Text) → is_empty s ≡ false → is_empty (s ++ t) ≡ false
inhabited-append [] t e = cc
inhabited-append (c ∷ s) t e = refl

inhabited-take : (n : ℕ) (s : Text) → is_empty s ≡ false → is_empty (take (suc n) s) ≡ false
inhabited-take n [] e = cc
inhabited-take n (c ∷ s) e = refl

inhabited_of_length : (s : Text) → 0 < length s → is_empty s ≡ false
inhabited_of_length [] h = absurd (omega arith)
inhabited_of_length (c ∷ s) h = refl

shortened-IsTidy :
    (kept hash : Text)
    → is_empty kept ≡ false
    → IsSeparated true kept
    → HasNoDash hash
    → is_empty hash ≡ false
    → IsTidy (shortened kept hash)
shortened-IsTidy kept hash e sep clean full =
    let inside = trim_right-inhabited kept e sep in
    let stop = trim_right-ends true kept inside in
    let joined =
      IsSeparated-append true (trim_right is_dash kept) (text "-")
        (trim_right-IsSeparated true kept sep) (rw stop (refl, tt)) in
    record {
      inhabited =
          inhabited-append (trim_right is_dash kept ++ text "-") hash
            (inhabited-append (trim_right is_dash kept) (text "-") inside);
      separated =
          IsSeparated-append true (trim_right is_dash kept ++ text "-") hash joined
            (HasNoDash-IsSeparated _ hash clean);
      ends = rw ends_in_dash-append (HasNoDash-ends _ hash clean full);
    }

shortened-chars :
    (kept hash : Text)
    → HasLabelChars kept
    → HasLabelChars hash
    → HasLabelChars (shortened kept hash)
shortened-chars kept hash hk hh =
    All-append _ (trim_right is_dash kept ++ text "-") hash
      (All-append _ (trim_right is_dash kept) (text "-") (All-trim_right _ is_dash kept hk)
        (refl, tt))
      hh

-- A DNS-1123 label that has no two dashes in a row. DNS-1123 does not ask for the latter.
pub record IsTidyLabel (s : Text) : Type 0 where
  pub short : length s ≤ 63
  pub chars : HasLabelChars s
  pub tidy : IsTidy s

module _ ⦃u : Unicode⦄ where
  length-bounded_name : (s : Text) → length (bounded_name s) ≤ 63
  unfolding bounded_name
  length-bounded_name s = elim (Bool-cases (leb (length s) 63)) [
    | inl fits ↦ rw fits (leb→le _ _ fits)
    | inr long ↦
        rw (long, length-fnv32 s)
          (omega (arith, length-shortened (take 54 s) (fnv32 s), length-take 54 s, length-fnv32 s))
  ]

  bounded_name-IsTidy : (s : Text) → IsTidy s → IsTidy (bounded_name s)
  unfolding bounded_name
  bounded_name-IsTidy s h = elim (Bool-cases (leb (length s) 63)) [
    | inl fits ↦ rw fits h
    | inr long ↦
        rw (long, length-fnv32 s)
          (shortened-IsTidy (take 54 s) (fnv32 s) (inhabited-take 53 s h.inhabited)
            (take-IsSeparated true 54 s h.separated)
            (All-map _ _ (λ c hex. hex.1) (fnv32 s) (fnv32-chars s))
            (inhabited_of_length (fnv32 s) (omega (arith, length-fnv32 s))))
  ]

  bounded_name-chars : (s : Text) → HasLabelChars s → HasLabelChars (bounded_name s)
  unfolding bounded_name
  bounded_name-chars s h = elim (Bool-cases (leb (length s) 63)) [
    | inl fits ↦ rw fits h
    | inr long ↦
        rw (long, length-fnv32 s)
          (shortened-chars (take 54 s) (fnv32 s) (All-take _ 54 s h)
            (All-map _ _ (λ c hex. hex.0) (fnv32 s) (fnv32-chars s)))
  ]

  -- A host name has at most 63 bytes, is not empty, has no dash at its ends and no two dashes in a
  -- row, whatever the names that it is made of.
  pub host_name-IsTidy : (r v t : Text) → (length (host_name r v t) ≤ 63) × IsTidy (host_name r v t)
  unfolding host_name
  host_name-IsTidy r v t =
      let safe = sanitize_name (base_name r v t) in
      (length-bounded_name safe, bounded_name-IsTidy safe (sanitize_name-IsTidy (base_name r v t)))

  IsAscii-base_name : (r v t : Text) → IsAscii r → IsAscii v → IsAscii t → IsAscii (base_name r v t)
  IsAscii-base_name r v t hr hv ht =
      let sep = text "-x-" in
      All-append _ (r ++ sep ++ v ++ sep) t
        (All-append _ (r ++ sep ++ v) sep
          (All-append _ (r ++ sep) v (All-append _ r sep hr (omega arith)) hv) (omega arith))
        ht

  -- A host name made of ASCII names is a DNS-1123 label, and has no two dashes in a row.
  pub host_name-IsTidyLabel :
      (r v t : Text) → IsAscii r → IsAscii v → IsAscii t → IsTidyLabel (host_name r v t)
  unfolding host_name
  host_name-IsTidyLabel r v t hr hv ht =
      let safe = sanitize_name (base_name r v t) in
      record {
        short = length-bounded_name safe;
        chars =
            bounded_name-chars safe
              (sanitize_name-HasLabelChars (base_name r v t) (IsAscii-base_name r v t hr hv ht));
        tidy = bounded_name-IsTidy safe (sanitize_name-IsTidy (base_name r v t));
      }
