-- ===== src/Base/Text.antt =====
-- A Go string is its bytes. UTF-8 decoding as `range` does it, the encoding of `WriteRune`, and the
-- functions of package strings that work on bytes.
use Prim.Native.Char.{code}
use Prim.Native.String.{String}
use Prim.Native.Nat.{ℕ, zero, suc, ◌+◌, ◌-◌, ◌*◌, ◌/◌, ◌%◌}
use mathlib.Core.Bool.{Bool, true, false, ◌&&◌, ◌||◌}
use mathlib.Core.List.{List, [], ◌∷◌, ◌++◌}
use tenantplane.Base.Tests.{ltb, eqb, within, if◌then◌else◌}
use tenantplane.Base.Lists.{get_or}

abbrev pub Text : Type 0
Text = List ℕ

-- A literal of the source; all of them are ASCII.
abbrev pub text : String → Text
text String.[] = []
text (String.◌∷◌ c s) = code c ∷ text s

abbrev pub is_empty : Text → Bool
is_empty [] = true
is_empty (c ∷ s) = false

-- utf8.RuneError
abbrev pub rune_error : ℕ
rune_error = 0xfffd

abbrev continues : ℕ → Bool
continues b = within 0x80 0xbf b

-- The rune at the head of b0 ∷ rest, and its width. A byte that starts no valid rune is RuneError
-- of width 1.
unfoldable pub decode_rune : ℕ → Text → ℕ × ℕ
decode_rune b0 rest =
    let b1 : ℕ = get_or rest 0 0 in
    let b2 : ℕ = get_or rest 1 0 in
    let b3 : ℕ = get_or rest 2 0 in
    let low1 : ℕ = if eqb b0 0xe0 then 0xa0 else if eqb b0 0xf0 then 0x90 else 0x80 in
    let high1 : ℕ = if eqb b0 0xed then 0x9f else if eqb b0 0xf4 then 0x8f else 0xbf in
    if ltb b0 0x80
    then (b0, 1)
    else if within 0xc2 0xdf b0 && continues b1
    then ((b0 - 0xc0) * 64 + (b1 - 0x80), 2)
    else if within 0xe0 0xef b0 && within low1 high1 b1 && continues b2
    then (((b0 - 0xe0) * 64 + (b1 - 0x80)) * 64 + (b2 - 0x80), 3)
    else if within 0xf0 0xf4 b0 && within low1 high1 b1 && continues b2 && continues b3
    then ((((b0 - 0xf0) * 64 + (b1 - 0x80)) * 64 + (b2 - 0x80)) * 64 + (b3 - 0x80), 4)
    else (rune_error, 1)

-- The number counts the bytes of the last rune that are still to be passed over.
unfoldable pub runes_after : ℕ → Text → List ℕ
runes_after skip [] = []
runes_after zero (b ∷ rest) =
    let (c, width) = decode_rune b rest in c ∷ runes_after (width - 1) rest
runes_after (suc skip) (b ∷ rest) = runes_after skip rest

-- for _, r := range s
unfoldable pub runes : Text → List ℕ
unfolding runes_after decode_rune
runes s = runes_after 0 s

-- b.WriteRune(r)
unfoldable pub encode_rune : ℕ → Text
encode_rune c =
    if ltb c 0x80
    then c ∷ []
    else if ltb c 0x800
    then (0xc0 + c / 64) ∷ (0x80 + c % 64) ∷ []
    else if within 0xd800 0xdfff c || ltb 0x10ffff c
    then 0xef ∷ 0xbf ∷ 0xbd ∷ []
    else if ltb c 0x10000
    then (0xe0 + c / 4096) ∷ (0x80 + c / 64 % 64) ∷ (0x80 + c % 64) ∷ []
    else (0xf0 + c / 262144) ∷ (0x80 + c / 4096 % 64) ∷ (0x80 + c / 64 % 64) ∷ (0x80 + c % 64) ∷ []

-- strings.TrimLeftFunc, TrimRightFunc and TrimFunc
unfoldable pub trim_left : (ℕ → Bool) → List ℕ → List ℕ
trim_left p [] = []
trim_left p (c ∷ s) = let rest = trim_left p s in if p c then rest else c ∷ s

unfoldable pub trim_right : (ℕ → Bool) → List ℕ → List ℕ
trim_right p [] = []
trim_right p (c ∷ s) = let rest = trim_right p s in if p c && is_empty rest then [] else c ∷ rest

unfoldable pub trim : (ℕ → Bool) → List ℕ → List ℕ
unfolding trim_left trim_right
trim p s = trim_right p (trim_left p s)

abbrev pub is_dash : ℕ → Bool
is_dash c = eqb c b'-'

-- strings.HasPrefix(s, prefix)
unfoldable pub starts_with : Text → Text → Bool
starts_with s [] = true
starts_with [] (p ∷ prefix) = false
starts_with (c ∷ s) (p ∷ prefix) = eqb c p && starts_with s prefix

-- strings.Contains(s, part)
unfoldable pub contains : Text → Text → Bool
unfolding starts_with
contains [] part = is_empty part
contains (c ∷ s) part = starts_with (c ∷ s) part || contains s part

-- strings.Split(s, "\n"), which is never empty, and strings.Join(lines, "\n")
abbrev pub cons_line : ℕ → List Text → List Text
cons_line c [] = (c ∷ []) ∷ []
cons_line c (line ∷ lines) = (c ∷ line) ∷ lines

unfoldable pub split_lines : Text → List Text
split_lines [] = [] ∷ []
split_lines (c ∷ s) =
    let rest = split_lines s in if eqb c b'\n' then [] ∷ rest else cons_line c rest

unfoldable pub join_lines : List Text → Text
join_lines [] = []
join_lines (line ∷ []) = line
join_lines (line ∷ next ∷ lines) = line ++ b'\n' ∷ join_lines (next ∷ lines)

-- strings.Join(parts, sep)
abbrev pub join : Text → List Text → Text
join sep [] = []
join sep (part ∷ []) = part
join sep (part ∷ next ∷ parts) = part ++ sep ++ join sep (next ∷ parts)
