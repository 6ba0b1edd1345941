-- ===== src/Contract/Blank.antt =====
-- `not s.strip()`: every character of the text is white space, as `str.strip` counts it.
use Prim.Native.Char.{code}
use polsia_build.Common.{Bool, String, eqb, leb, true, ℕ, ◌&&◌, ◌||◌}

abbrev between : ℕ → ℕ → ℕ → Bool
between lo hi c = leb lo c && leb c hi

is_space : ℕ → Bool
is_space c =
    between 9 13 c
    || between 28 32 c
    || eqb c 133
    || eqb c 160
    || eqb c 5760
    || between 8192 8202 c
    || between 8232 8233 c
    || eqb c 8239
    || eqb c 8287
    || eqb c 12288

unfoldable pub is_blank : String → Bool
unfolding is_space
is_blank String.[] = true
is_blank (String.◌∷◌ c s) = is_space (code c) && is_blank s
