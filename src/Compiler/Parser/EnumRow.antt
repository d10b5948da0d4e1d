-- ===== src/Compiler/Parser/EnumRow.antt =====
-- The values of an enum, in a row.
use tiny_cplus.Prelude.{ℕ, ◌≡◌, refl, ◌⊎◌, inl, inr, true, false, Option}
use tiny_cplus.Prelude.Text.{codes, same}
use tiny_cplus.Prelude.Int.{pos}
use tiny_cplus.Compiler.Loop.{Result, stuck, error, ok, WhenOk}
use tiny_cplus.Compiler.Parser.{State, Parser, token_at, advance, more_or}
use tiny_cplus.Compiler.Parser.Tree.{Node}
use tiny_cplus.Compiler.Parser.Declaration.{EnumState, enum_value}
use tiny_cplus.Compiler.Parser.EnumBounds.{AboveMin, Valued}

module _ {ℓ κ} {A : Type ℓ} {B : Type κ} (P : A → Type 0) (Q : B → Type 0) where
  -- A round that keeps `P`, or ends the loop with `Q`.
  abbrev Keeps : A ⊎ B → Type 0
  Keeps (inl a) = P a
  Keeps (inr b) = Q b

Known : {V : Type 0} (P : V → Type 0) (r : Result V) → WhenOk P r → WhenOk (λ v. (r ≡ ok v) × P v) r
Known P stuck h = tt
Known P (error l e) h = tt
Known P (ok v) h = (refl, h)

-- Before the first value.
abbrev pub unstarted : Node → EnumState
unstarted n = record { tree = n; next = pos 0; goes_on = true }

-- The values that the loop of an enum has read since `e` and `s`, each where the one before it ended.
pub data Row (flags t : ℕ) (e : EnumState) (s : State) : EnumState → State → Type 0 where
  no_value : Row flags t e s e s
  one_more :
      {f g : EnumState} {p q : State}
      → Row flags t e s f p
      → enum_value flags t f p ≡ ok (g, q)
      → Valued p.rest f g
      → Row flags t e s g q

-- The row ends behind a value without a comma, or where a brace closes it.
pub data Rowed (flags t : ℕ) (e : EnumState) (s : State) : EnumState × State → Type 0 where
  no_comma :
      {f : EnumState} {p : State}
      → Row flags t e s f p
      → f.goes_on ≡ false
      → Rowed flags t e s (f, p)
  closed :
      {f : EnumState} {p : State}
      → Row flags t e s f p
      → same (token_at 0 p).text (codes "}") ≡ true
      → Rowed flags t e s (f, advance p)

module _ (flags t : ℕ) (e : EnumState) (s : State) where
  OnRow : EnumState × State → Type 0
  OnRow (f, p) = Row flags t e s f p × AboveMin f.next

  AfterRound : EnumState → Option EnumState × State → Type 0
  AfterRound f r = Keeps OnRow (Rowed flags t e s) (more_or f r)

-- The body of an enum, read from `s` on: a brace, and the values behind it in a row.
pub record Bodied (flags t : ℕ) (n : Node) (s : State) (tree : Node) : Type 0 where
  pub last : EnumState
  pub stop : State
  pub brace : same (token_at 0 s).text (codes "{") ≡ true
  pub values : Rowed flags t (unstarted n) (advance s) (last, stop)
  pub its_tree : tree ≡ last.tree
