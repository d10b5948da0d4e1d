-- ===== src/Prelude/Text.antt =====
-- Texts as the lists of their bytes.
use Prim.Native.Nat.{ℕ, zero, suc, ◌+◌, ◌/◌, ◌%◌}
use Prim.Native.String.{String}
use Prim.Native.Char.{code}
use mathlib.Core.Bool.{Bool, true, false, ◌&&◌}
use mathlib.Core.List.{List, [], ◌∷◌}
use mathlib.Core.Path.{◌≡◌, refl, sym, ap, ap₂, ◌∙◌}
use mathlib.Core.Logic.{inl, inr}
use tiny_cplus.Prelude.Tests.{◌==◌, ==_iff, Bool-cases}

-- The bytes of an ASCII text.
abbrev pub codes : String → List ℕ
codes String.[] = []
codes (String.◌∷◌ c s) = code c ∷ codes s

-- `strcmp(a, b) == 0`
unfoldable pub same : List ℕ → List ℕ → Bool
same [] [] = true
same [] (y ∷ ys) = false
same (x ∷ xs) [] = false
same (x ∷ xs) (y ∷ ys) = x == y && same xs ys

-- The digits of a number before some others; `%d` and `%zu` of printf.
unfoldable pub digits : ℕ → ℕ → List ℕ → List ℕ
digits zero n rest = rest
digits (suc more) n rest = elim (n / 10 == 0) [
  | true ↦ (b'0' + n % 10) ∷ rest
  | false ↦ digits more (n / 10) ((b'0' + n % 10) ∷ rest)
]

-- A 64-bit number has at most 20 digits.
abbrev pub decimal : ℕ → List ℕ
decimal n = digits 20 n []

pub same_self : (w : List ℕ) → same w w ≡ true
unfolding same
same_self [] = refl
same_self (x ∷ w) = rw ((==_iff x x).1 refl, same_self w) refl

pub same_is : (v w : List ℕ) → same v w ≡ true → v ≡ w
unfolding same
same_is [] [] e = refl
same_is [] (y ∷ w) e = absurd (cc e)
same_is (x ∷ v) [] e = absurd (cc e)
same_is (x ∷ v) (y ∷ w) e = elim (Bool-cases (x == y)) [
  | inl f ↦ ap₂ ◌∷◌ ((==_iff x y).0 f) (same_is v w (sym (ap (λ b. b && same v w) f) ∙ e))
  | inr f ↦ absurd (cc (sym (ap (λ b. b && same v w) f) ∙ e))
]
