-- ===== src/Prelude/Text.antt =====
-- Texts as bytes: those of a literal, and their comparison.
use Prim.Native.Char.{code}
use Prim.Native.String.{String}
use mathlib.Core.Path.{◌≡◌, refl}
use mathlib.Core.List.{[], ◌∷◌}
use mathlib.Core.Bool.{Bool, true, false, ◌&&◌}
use native.Mathlib.Omega.{arith}
use cantools_rs.Prelude.Lists.{Bytes}
use cantools_rs.Prelude.Tests.{◌==◌, ==_iff}

-- The code points of a text, which are its bytes where it is ASCII. `String` has its own `[]` and `∷`.
abbrev pub codes : String → Bytes
codes String.[] = []
codes (String.◌∷◌ c s) = code c ∷ codes s

abbrev pub same_bytes : Bytes → Bytes → Bool
same_bytes [] [] = true
same_bytes [] (b ∷ bs) = false
same_bytes (a ∷ as') [] = false
same_bytes (a ∷ as') (b ∷ bs) = (a == b) && same_bytes as' bs

pub same_bytes_refl : (text : Bytes) → same_bytes text text ≡ true
same_bytes_refl [] = refl
same_bytes_refl (b ∷ bs) = ground (arith, ==_iff b b, same_bytes_refl bs)

pub same_bytes_sound : (a b : Bytes) → same_bytes a b ≡ true → a ≡ b
same_bytes_sound [] [] h = refl
same_bytes_sound [] (y ∷ ys) h = absurd (cc h)
same_bytes_sound (x ∷ xs) [] h = absurd (cc h)
same_bytes_sound (x ∷ xs) (y ∷ ys) h = ground (arith, ==_iff x y, h, same_bytes_sound xs ys)
