-- ===== src/Base/Texts.antt =====
-- What the code uses of the language's strings: `trim`, and the test that a string is empty.
use Prim.Native.Char.{Char, code}
use Prim.Native.Nat.{ℕ}
use Prim.Native.String.{String}
use mathlib.Core.Bool.{Bool, true, false, ◌||◌, ◌&&◌}
use recommendation_trip_plat.Base.Tests.{eqb, leb, if◌then◌else◌}

-- White space and line terminators, by code point.
unfoldable pub is_white_space : ℕ → Bool
is_white_space c =
    (leb 9 c && leb c 13 || eqb c 32 || eqb c 160)
    || (eqb c 5760 || leb 8192 c && leb c 8202 || eqb c 8232 || eqb c 8233)
    || (eqb c 8239 || eqb c 8287 || eqb c 12288 || eqb c 65279)

unfoldable pub trim_start : String → String
unfolding is_white_space
trim_start String.[] = ""
trim_start (String.◌∷◌ c s) = if is_white_space (code c) then trim_start s else String.◌∷◌ c s

unfoldable pub put_before : Char → String → String
unfolding is_white_space
put_before c String.[] = if is_white_space (code c) then "" else String.◌∷◌ c ""
put_before c (String.◌∷◌ d s) = String.◌∷◌ c (String.◌∷◌ d s)

unfoldable pub trim_end : String → String
unfolding put_before
trim_end String.[] = ""
trim_end (String.◌∷◌ c s) = put_before c (trim_end s)

unfoldable pub trim : String → String
unfolding trim_start trim_end
trim s = trim_end (trim_start s)

-- `!s` of a string.
abbrev pub is_empty : String → Bool
is_empty String.[] = true
is_empty (String.◌∷◌ _ _) = false
