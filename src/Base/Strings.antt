-- ===== src/Base/Strings.antt =====
-- Texts as lists of UTF-16 code units, with what the source uses of `String.prototype`.
use Prim.Native.Nat.{ℕ, ◌+◌}
use Prim.Native.Char.{code}
use Prim.Native.String.{String}
use mathlib.Core.Bool.{Bool, ◌&&◌, ◌||◌}
use mathlib.Core.List.{List, [], ◌∷◌}
use ledgerly_app.Base.Tests.{leb, ◌==◌, nat_eq, if◌then◌else◌}

abbrev pub Text : Type 0
Text = List ℕ

-- The code units of a literal: its characters, all of them below 2 ^ 16.
abbrev pub codes : String → Text
codes String.[] = []
codes (String.◌∷◌ c s) = code c ∷ codes s

-- WhiteSpace and LineTerminator of the language, which `trim` removes and `\s` matches.
abbrev pub is_space : ℕ → Bool
is_space c =
    leb 9 c && leb c 13
    || c == 32
    || c == 160
    || c == 0x1680
    || leb 0x2000 c && leb c 0x200a
    || c == 0x2028
    || c == 0x2029
    || c == 0x202f
    || c == 0x205f
    || c == 0x3000
    || c == 0xfeff

abbrev pub is_digit : ℕ → Bool
is_digit c = leb b'0' c && leb c b'9'

-- `toLowerCase` on a code unit of ASCII; other units stay.
unfoldable pub lower_unit : ℕ → ℕ
lower_unit c = if leb b'A' c && leb c b'Z' then c + 32 else c

unfoldable pub trim_start : Text → Text
trim_start [] = []
trim_start (c ∷ s) = if is_space c then trim_start s else c ∷ s

-- A unit is dropped if it is a space and nothing is left after it.
abbrev pub close : ℕ → Text → Text
close c [] = if is_space c then [] else c ∷ []
close c (d ∷ s) = c ∷ d ∷ s

unfoldable pub trim_end : Text → Text
trim_end [] = []
trim_end (c ∷ s) = close c (trim_end s)

unfoldable pub trim : Text → Text
unfolding trim_start trim_end
trim s = trim_end (trim_start s)
