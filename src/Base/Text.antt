-- ===== src/Base/Text.antt =====
-- Python strings that the program compares and joins, as lists of code points.
use live_forex_volatility_tr.Base.Names.{
  ℕ, ◌≡◌, refl, Bool, true, false, ◌&&◌, List, [], ◌∷◌, arith,
}
use live_forex_volatility_tr.Base.Tests.{◌==◌}
use Prim.Native.String.{String}
use Prim.Native.Char.{code}

abbrev pub Text : Type 0
Text = List ℕ

-- The code points of a literal.
abbrev pub codes : String → Text
codes String.[] = []
codes (String.◌∷◌ c s) = code c ∷ codes s

abbrev pub eq_text : Text → Text → Bool
eq_text [] [] = true
eq_text [] (b ∷ t) = false
eq_text (a ∷ s) [] = false
eq_text (a ∷ s) (b ∷ t) = (a == b) && eq_text s t

pub eq_text_refl : (s : Text) → eq_text s s ≡ true
eq_text_refl [] = refl
eq_text_refl (a ∷ s) = ground (arith, eq_text_refl s)

pub eq_text→eq : (s t : Text) → eq_text s t ≡ true → s ≡ t
eq_text→eq [] [] h = refl
eq_text→eq [] (b ∷ t) h = cc
eq_text→eq (a ∷ s) [] h = cc
eq_text→eq (a ∷ s) (b ∷ t) h = ground (arith, eq_text→eq s t)
