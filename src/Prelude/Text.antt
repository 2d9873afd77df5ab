-- ===== src/Prelude/Text.antt =====
-- Texts as native strings: JavaScript's `trim`, over ASCII, and the character codes.
use Prim.Native.Char.{Char, code}
use Prim.Native.String.{String, [], ◌∷◌}
use Prim.Native.Nat.{ℕ}
use mathlib.Core.List.{List, [] as nil, ◌∷◌ as cons}
use mathlib.Core.Bool.{Bool, ◌&&◌, ◌||◌}
use text.Mathlib.Text.{◌==◌ as str_eq}
use zenstier.Prelude.Tests.{leb, ◌==◌, if◌then◌else◌}

abbrev is_space : Char → Bool
is_space c = code c == 32 || (leb 9 (code c) && leb (code c) 13)

trim_start : String → String
trim_start [] = []
trim_start (c ∷ s) = if is_space c then trim_start s else c ∷ s

trim_end : String → String
trim_end [] = []
trim_end (c ∷ s) = let rest = trim_end s in if is_space c && str_eq rest "" then "" else c ∷ rest

unfoldable pub trim : String → String
unfolding trim_start trim_end
trim s = trim_end (trim_start s)

unfoldable pub chars : String → List ℕ
chars [] = nil
chars (c ∷ s) = cons (code c) (chars s)
