-- ===== src/Prelude/Text.antt =====
-- Text as the program tests it: emptiness, whitespace, control characters, length in code points.
use Prim.Native.Char.{code}
use mathlib.Core.Path.{◌≡◌, refl}
use mathlib.Core.Bool.{Bool, true, false, ◌&&◌, ◌||◌}
use mathlib.Core.List.{List, [], ◌∷◌}
use Prim.Native.Nat.{ℕ}
use Prim.Native.String.{String}
use subagent_bridge.Prelude.Tests.{ltb, leb, nat_eq, ◌==◌}
use subagent_bridge.Prelude.Lists.{any, all, length}

abbrev pub codes : String → List ℕ
codes String.[] = []
codes (String.◌∷◌ c s) = code c ∷ codes s

-- `not s`
abbrev pub is_blank : String → Bool
is_blank s = s == ""

-- The code points for which Python's `str.isspace` holds, which `strip` removes.
pub is_space : ℕ → Bool
is_space c =
    leb 9 c && leb c 13
    || leb 28 c && leb c 32
    || nat_eq c 133
    || nat_eq c 160
    || nat_eq c 5760
    || leb 8192 c && leb c 8202
    || nat_eq c 8232
    || nat_eq c 8233
    || nat_eq c 8239
    || nat_eq c 8287
    || nat_eq c 12288

-- `not s.strip()`: there is no character but whitespace.
unfoldable pub strips_to_nothing : String → Bool
unfolding is_space
strips_to_nothing s = all is_space (codes s)

-- `len(s)` of a `str` counts code points.
unfoldable pub text_length : String → ℕ
text_length s = length (codes s)

-- `any(ord(c) < 32 or ord(c) == 127 for c in s)`
unfoldable pub has_control : String → Bool
has_control s = any (λ c. ltb c 32 || nat_eq c 127) (codes s)

strips_tests :
    (strips_to_nothing "" ≡ true)
    × (strips_to_nothing " \t" ≡ true)
    × (strips_to_nothing " a " ≡ false)
unfolding strips_to_nothing
strips_tests = (refl, refl, refl)
