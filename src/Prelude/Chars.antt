-- ===== src/Prelude/Chars.antt =====
-- Texts as lists of character codes, over ASCII: JavaScript's `trim`, `toLowerCase` and `===`.
use Prim.Native.Nat.{ℕ, ◌+◌}
use mathlib.Core.Path.{◌≡◌, refl, ap₂}
use mathlib.Core.Bool.{Bool, true, false, ◌&&◌, ◌||◌}
use mathlib.Core.List.{List, [], ◌∷◌, map}
use native.Mathlib.Omega.{arith}
use zenstier.Prelude.Tests.{leb, ◌==◌, if◌then◌else◌}

unfoldable pub text_eq : List ℕ → List ℕ → Bool
text_eq [] [] = true
text_eq (a ∷ s) (b ∷ t) = a == b && text_eq s t
text_eq _ _ = false

pub text_eq_refl : (s : List ℕ) → text_eq s s ≡ true
unfolding text_eq
text_eq_refl [] = refl
text_eq_refl (a ∷ s) = ground (arith, text_eq_refl s)

pub text_eq-eq : (s t : List ℕ) → text_eq s t ≡ true → s ≡ t
unfolding text_eq
text_eq-eq [] [] h = refl
text_eq-eq [] (b ∷ t) h = ground arith
text_eq-eq (a ∷ s) [] h = ground arith
text_eq-eq (a ∷ s) (b ∷ t) h = ap₂ (λ c r. c ∷ r) (ground arith) (text_eq-eq s t (ground arith))

abbrev pub lower_char : ℕ → ℕ
lower_char c = if leb 65 c && leb c 90 then c + 32 else c

abbrev pub lower_case : List ℕ → List ℕ
lower_case = map lower_char

abbrev pub is_blank : ℕ → Bool
is_blank c = c == 32 || (leb 9 c && leb c 13)

trim_front : List ℕ → List ℕ
trim_front [] = []
trim_front (c ∷ s) = if is_blank c then trim_front s else c ∷ s

abbrev is_nil : List ℕ → Bool
is_nil [] = true
is_nil (c ∷ s) = false

trim_back : List ℕ → List ℕ
trim_back [] = []
trim_back (c ∷ s) = let rest = trim_back s in if is_blank c && is_nil rest then [] else c ∷ rest

unfoldable pub trim_text : List ℕ → List ℕ
unfolding trim_front trim_back
trim_text s = trim_back (trim_front s)
