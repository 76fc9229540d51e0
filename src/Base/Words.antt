-- ===== src/Base/Words.antt =====
-- The bytes of a string of characters, and the comparison of strings.
use mrksvnup.Base.Lists.{Bytes}
use mathlib.Core.List.{[], ◌∷◌}
use mathlib.Core.Bool.{Bool, true, false, ◌&&◌}
use mrksvnup.Base.Tests.{◌==◌}
use Prim.Native.Char.{code}
use Prim.Native.String.{String}

abbrev pub codes : String → Bytes
codes String.[] = []
codes (String.◌∷◌ c s) = code c ∷ codes s

-- `strcmp(a, b) == 0`
unfoldable pub equal : Bytes → Bytes → Bool
equal [] [] = true
equal (x ∷ xs) (y ∷ ys) = x == y && equal xs ys
equal _ _ = false
