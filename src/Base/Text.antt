-- ===== src/Base/Text.antt =====
-- Texts as lists of bytes, with the equality and the order of std::string.
use Prim.Native.Nat.{ℕ}
use mathlib.Core.Path.{◌≡◌, refl}
use mathlib.Core.Bool.{Bool, true, false, ◌&&◌, ◌||◌}
use mathlib.Core.List.{List, [], ◌∷◌}
use native.Mathlib.Omega.{arith}
use loxim_stats.Base.Tests.{ltb, ◌==◌}

abbrev pub Text : Type 0
Text = List ℕ

unfoldable pub eqb_text : Text → Text → Bool
eqb_text [] [] = true
eqb_text [] (d ∷ t) = false
eqb_text (c ∷ s) [] = false
eqb_text (c ∷ s) (d ∷ t) = c == d && eqb_text s t

unfoldable pub ltb_text : Text → Text → Bool
ltb_text [] [] = false
ltb_text [] (d ∷ t) = true
ltb_text (c ∷ s) [] = false
ltb_text (c ∷ s) (d ∷ t) = ltb c d || (c == d && ltb_text s t)

pub eqb_text_refl : (s : Text) → eqb_text s s ≡ true
unfolding eqb_text
eqb_text_refl [] = refl
eqb_text_refl (c ∷ s) = ground (arith, eqb_text_refl s)

pub eqb_text→eq : (s t : Text) → eqb_text s t ≡ true → s ≡ t
unfolding eqb_text
eqb_text→eq [] [] h = refl
eqb_text→eq [] (d ∷ t) h = ground arith
eqb_text→eq (c ∷ s) [] h = ground arith
eqb_text→eq (c ∷ s) (d ∷ t) h = ground (arith, eqb_text→eq s t)
