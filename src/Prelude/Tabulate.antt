-- ===== src/Prelude/Tabulate.antt =====
-- The list of a function's values at 0 up to n.
use tiny_cplus.Prelude.Lists.{length}
use Prim.Native.Nat.{ℕ, zero, suc, ◌<◌}
use mathlib.Core.Path.{◌≡◌, refl, ap, ap₂}
use mathlib.Core.List.{List, [], ◌∷◌, ◌++◌}
use native.Mathlib.Omega.{arith}

module _ {ℓ} {A : Type ℓ} where
  unfoldable pub tabulate : ℕ → (ℕ → A) → List A
  tabulate zero f = []
  tabulate (suc n) f = f 0 ∷ tabulate n (λ k. f (suc k))

  pub length-tabulate : (n : ℕ) (f : ℕ → A) → length (tabulate n f) ≡ n
  unfolding tabulate
  length-tabulate zero f = refl
  length-tabulate (suc n) f = ap suc (length-tabulate n (λ k. f (suc k)))

  pub tabulate_congr :
      (n : ℕ) (f g : ℕ → A) → ((k : ℕ) → k < n → f k ≡ g k) → tabulate n f ≡ tabulate n g
  unfolding tabulate
  tabulate_congr zero f g h = refl
  tabulate_congr (suc n) f g h =
      ap₂ ◌∷◌ (h 0 (omega arith))
        (tabulate_congr n (λ k. f (suc k)) (λ k. g (suc k)) (λ k lt. h (suc k) (omega arith)))

  pub tabulate-last : (n : ℕ) (f : ℕ → A) → tabulate (suc n) f ≡ tabulate n f ++ f n ∷ []
  unfolding tabulate
  tabulate-last zero f = refl
  tabulate-last (suc n) f = ap (◌∷◌ (f 0)) (tabulate-last n (λ k. f (suc k)))
