-- ===== src/Compiler/Types/Closed.antt =====
-- Every type refers to older ones only, so no comparison of types goes round in a circle.
use tiny_cplus.Prelude.{
  ℕ, ◌<◌, ◌≤◌, ◌≡◌, refl, sym, ==_iff, false, List, [], ◌∷◌, Option, none, some, ◌==◌, if_cases,
  length, arith,
}
use mathlib.Core.Path.{subst}
use tiny_cplus.Prelude.Text.{codes}
use tiny_cplus.Compiler.Types.{CType, zeroed, void, Table, fetch}
use tiny_cplus.Compiler.Types.Create.{is_generic}

abbrev pub BaseBelow : ℕ → Option ℕ → Type 0
BaseBelow n none = Unit
BaseBelow n (some a) = a < n

abbrev pub Below : ℕ → List ℕ → Type 0
Below n [] = Unit
Below n (x ∷ xs) = (x < n) × Below n xs

abbrev pub function_name : List ℕ
function_name = codes "Function"

-- A type that may stand above `n` older ones. The last condition leaves the name of the types of
-- functions to the parser, which changes them after it has made them.
pub record Refers (n : ℕ) (t : CType) : Type 0 where
  pub base_below : BaseBelow n t.base
  pub items_below : Below n t.items
  pub not_function : is_generic function_name t ≡ false

abbrev pub Closed : List CType → Type 0
Closed [] = Unit
Closed (t ∷ ts) = Refers (length ts) t × Closed ts

abbrev pub PairsBelow : ℕ → List (ℕ × ℕ) → Type 0
PairsBelow n [] = Unit
PairsBelow n ((k, a) ∷ rest) = (a < n) × PairsBelow n rest

pub record IsSound (c : Table) : Type 0 where
  pub closed : Closed c.types
  pub builtin_below : PairsBelow (length c.types) c.builtin

pub BaseBelow-le : (m n : ℕ) (b : Option ℕ) → m ≤ n → BaseBelow m b → BaseBelow n b
BaseBelow-le m n none h k = tt
BaseBelow-le m n (some a) h k = omega arith

pub Below-le : (m n : ℕ) (xs : List ℕ) → m ≤ n → Below m xs → Below n xs
Below-le m n [] h k = tt
Below-le m n (x ∷ xs) h (a, b) = (omega arith, Below-le m n xs h b)

pub PairsBelow-le : (m n : ℕ) (xs : List (ℕ × ℕ)) → m ≤ n → PairsBelow m xs → PairsBelow n xs
PairsBelow-le m n [] h k = tt
PairsBelow-le m n ((j, a) ∷ xs) h (b, d) = (omega arith, PairsBelow-le m n xs h d)

Refers-void : (n : ℕ) → Refers n (zeroed void 0)
unfolding is_generic
Refers-void n = record { base_below = tt; items_below = tt; not_function = refl }

-- What stands at an address refers below the address.
pub Refers-fetch : (ts : List CType) (a : ℕ) → Closed ts → Refers a (fetch ts a)
unfolding fetch
Refers-fetch [] a h = Refers-void a
Refers-fetch (t ∷ ts) a (r, h) =
    if_cases (Refers a) (a == length ts)
      (λ e. subst (λ m. Refers m t) (sym ((==_iff a (length ts)).0 e)) r) (λ _. Refers-fetch ts a h)
