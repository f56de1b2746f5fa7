-- ===== src/Prelude/Text.antt =====
-- Python's `str` as its list of code points.
pub mod Str
pub mod Decimal
use Prim.Native.Nat.{ℕ}
use Prim.Native.Char.{code}
use Prim.Native.String.{String}
use mathlib.Core.Path.{◌≡◌, refl}
use mathlib.Core.Bool.{Bool, true, false, ◌&&◌}
use mathlib.Core.List.{List, [], ◌∷◌}
use native.Mathlib.Omega.{arith}
use monitoring_service.Prelude.Tests.{◌==◌}

abbrev pub Text : Type 0
Text = List ℕ

-- A literal of the source.
abbrev pub text : String → Text
text String.[] = []
text (String.◌∷◌ c s) = code c ∷ text s

abbrev pub text_eq : Text → Text → Bool
text_eq [] [] = true
text_eq (a ∷ s) (b ∷ t) = a == b && text_eq s t
text_eq _ _ = false

pub text_eq_refl : (s : Text) → text_eq s s ≡ true
text_eq_refl [] = refl
text_eq_refl (a ∷ s) = ground (arith, text_eq_refl s)

pub text_eq→eq : (s t : Text) → text_eq s t ≡ true → s ≡ t
text_eq→eq [] [] h = refl
text_eq→eq (a ∷ s) (b ∷ t) h = ground (arith, text_eq→eq s t)
text_eq→eq _ _ h = cc
