-- ===== src/Base/Texts.antt =====
-- Texts as the lists of their bytes, and their comparison.
use Prim.Native.Nat.{ℕ}
use asapo.Base.Tests.{◌==◌}
use mathlib.Core.Path.{◌≡◌, refl}
use mathlib.Core.Bool.{Bool, true, false, ◌&&◌}
use mathlib.Core.List.{List, [], ◌∷◌}
use native.Mathlib.Omega.{arith}

abbrev pub Text : Type 0
Text = List ℕ

abbrev pub same_text : Text → Text → Bool
same_text [] [] = true
same_text [] (y ∷ ys) = false
same_text (x ∷ xs) [] = false
same_text (x ∷ xs) (y ∷ ys) = x == y && same_text xs ys

pub same_text→≡ : (xs ys : Text) → same_text xs ys ≡ true → xs ≡ ys
same_text→≡ [] [] h = refl
same_text→≡ [] (y ∷ ys) h = ground arith
same_text→≡ (x ∷ xs) [] h = ground arith
same_text→≡ (x ∷ xs) (y ∷ ys) h = ground (arith, same_text→≡ xs ys)
