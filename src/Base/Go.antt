-- ===== src/Base/Go.antt =====
-- Package unicode. Its answers for ASCII and its spaces are written out; the tables for letters,
-- digits and case beyond ASCII are a parameter.
use Prim.Native.Nat.{ℕ, ◌+◌}
use mathlib.Core.Bool.{Bool, ◌||◌}
use tenantplane.Base.Tests.{ltb, eqb, within, if◌then◌else◌}

-- The answers for runes of 0x80 and above.
pub record Unicode : Type 0 where
  pub letter_table : ℕ → Bool
  pub digit_table : ℕ → Bool
  pub lower_table : ℕ → ℕ

-- unicode.IsSpace
unfoldable pub is_space : ℕ → Bool
is_space c =
    within 0x09 0x0d c
    || eqb c 0x20
    || eqb c 0x85
    || eqb c 0xa0
    || eqb c 0x1680
    || within 0x2000 0x200a c
    || within 0x2028 0x2029 c
    || eqb c 0x202f
    || eqb c 0x205f
    || eqb c 0x3000

module _ ⦃u : Unicode⦄ where
  -- unicode.IsLetter
  unfoldable pub is_letter : ℕ → Bool
  is_letter c = if ltb c 0x80 then (within b'A' b'Z' c || within b'a' b'z' c) else u.letter_table c

  -- unicode.IsDigit
  unfoldable pub is_digit : ℕ → Bool
  is_digit c = if ltb c 0x80 then within b'0' b'9' c else u.digit_table c

  -- unicode.ToLower
  unfoldable pub to_lower : ℕ → ℕ
  to_lower c = if ltb c 0x80 then (if within b'A' b'Z' c then c + 32 else c) else u.lower_table c
