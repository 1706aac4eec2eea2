-- ===== src/Prelude/Text.antt =====
-- `not s.strip()`: a text of white space only.
use Prim.Native.Nat.{ℕ}
use Prim.Native.Char.{code}
use Prim.Native.String.{String}
use mathlib.Core.Bool.{Bool, true, ◌&&◌, ◌||◌}
use call_forge.Prelude.Tests.{leb}

-- The code points that `str.strip` removes.
is_space : ℕ → Bool
is_space c =
    (leb 9 c && leb c 13)
    || (leb 28 c && leb c 32)
    || (leb 133 c && leb c 133)
    || (leb 160 c && leb c 160)
    || (leb 5760 c && leb c 5760)
    || (leb 8192 c && leb c 8202)
    || (leb 8232 c && leb c 8233)
    || (leb 8239 c && leb c 8239)
    || (leb 8287 c && leb c 8287)
    || (leb 12288 c && leb c 12288)

unfoldable pub is_blank : String → Bool
unfolding is_space
is_blank String.[] = true
is_blank (String.◌∷◌ c s) = is_space (code c) && is_blank s
