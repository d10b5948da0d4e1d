-- ===== src/Compiler/Parser.antt =====
-- compiler/parser.c: recursive descent over the tokens. The state is what the parser changes of
-- `Context`: the tokens from `pos` on, the nesting depth, and the table of types.
pub mod Tree
pub mod Integer
pub mod TypeName
pub mod Ahead
pub mod Lambda
pub mod Primary
pub mod Expr
pub mod Variable
pub mod Stmt
pub mod Declaration
pub mod Class
pub mod Program
pub mod Runs
pub mod Steps
pub mod Loops
pub mod FunctionRuns
pub mod TypeRuns
pub mod Parts
pub mod ExprRuns
pub mod StmtRuns
pub mod EnumRuns
pub mod DeclarationRuns
pub mod EnumBounds
pub mod EnumRow
pub mod Whole
use tiny_cplus.Prelude.{
  ℕ, suc, ◌+◌, ◌-◌, Bool, true, false, not, ◌&&◌, ◌||◌, List, [], ◌∷◌, Option, none, some, ltb,
  ◌==◌, if◌then◌else◌, length, get_or, drop, ◌⊎◌, inl, inr,
}
use tiny_cplus.Prelude.Text.{codes, same}
use tiny_cplus.Compiler.Loop.{
  Loc, Fault, unexpected_eof, expected_identifier, nesting_limit, expected, Result, error, ok,
  and_then, iterate,
}
use tiny_cplus.Compiler.Lexer.{Token, TokenKind, eof, id, op}
use tiny_cplus.Compiler.Types.{Table}

pub record State : Type 0 where
  pub rest : List Token
  pub depth : ℕ
  pub table : Table

abbrev pub Parser {ℓ} : Type ℓ → Type ℓ
Parser A = State → Result (A × State)

infixl 10 ◌>>=◌ ◌>>◌
unfoldable pub ◌>>=◌ {ℓ κ} : {A : Type ℓ} {B : Type κ} → Parser A → (A → Parser B) → Parser B
◌>>=◌ m f s = and_then (m s) (λ r. f r.0 r.1)

abbrev pub ◌>>◌ {ℓ κ} : {A : Type ℓ} {B : Type κ} → Parser A → Parser B → Parser B
m >> n = m >>= λ _. n

unfoldable pub pure {ℓ} : {A : Type ℓ} → A → Parser A
pure a s = ok (a, s)

unfoldable pub fail {ℓ} : {A : Type ℓ} → Loc → Fault → Parser A
fail l e s = error l e

-- Behind the tokens there is nothing to read; the parser stays before the end of the file.
abbrev pub nothing : Token
nothing = record { kind = eof; text = []; loc = record { line = 0; col = 0 } }

abbrev pub token_number : TokenKind → ℕ
token_number eof = 0
token_number id = 1
token_number TokenKind.int = 2
token_number TokenKind.float = 3
token_number TokenKind.string = 4
token_number TokenKind.char = 5
token_number op = 6

abbrev pub is_token : TokenKind → TokenKind → Bool
is_token k j = token_number k == token_number j

-- c->tokens[c->pos + k]
unfoldable pub token_at : ℕ → State → Token
token_at k s = get_or s.rest k nothing

-- The text of that token, where there is one: `c->pos + k < c->ntokens && !strcmp(...)`.
unfoldable pub ahead : ℕ → List ℕ → State → Bool
unfolding token_at
ahead k w s = ltb k (length s.rest) && same (token_at k s).text w

unfoldable pub peek : Parser Token
peek s = ok (token_at 0 s, s)

unfoldable pub ask {ℓ} : {A : Type ℓ} → (State → A) → Parser A
ask f s = ok (f s, s)

unfoldable pub at : List ℕ → Parser Bool
at w s = ok (same (token_at 0 s).text w, s)

-- c->pos++
abbrev pub advance : State → State
advance s = record s { rest = drop 1 s.rest }

unfoldable pub eat : List ℕ → Parser Bool
eat w s = if same (token_at 0 s).text w then ok (true, advance s) else ok (false, s)

unfoldable pub keyword : List ℕ → Parser Bool
keyword w s = ok (is_token (token_at 0 s).kind id && same (token_at 0 s).text w, s)

unfoldable pub take : Parser Token
take s =
    if is_token (token_at 0 s).kind eof
    then error (token_at 0 s).loc unexpected_eof
    else ok (token_at 0 s, advance s)

unfoldable pub expect : List ℕ → Parser (Unit {0})
expect w = do t ← peek; found ← eat w; if found then pure tt else fail t.loc (expected w)

unfoldable pub ident : Parser (List ℕ)
ident = do t ← take; if is_token t.kind id then pure t.text else fail t.loc expected_identifier

-- `enter` and `leave` around a part of the parser.
unfoldable pub nested {ℓ} : {A : Type ℓ} → Parser A → Parser A
nested m s =
    if ltb 256 (s.depth + 1)
    then error (token_at 0 s).loc nesting_limit
    else and_then (m (record s { depth = s.depth + 1 }))
        (λ r. ok (r.0, record r.1 { depth = r.1.depth - 1 }))

-- A function of the table of types.
unfoldable pub typed : (Table → ℕ × Table) → Parser ℕ
typed f s = ok ((f s.table).0, record s { table = (f s.table).1 })

unfoldable pub typed_result : (Table → Result (ℕ × Table)) → Parser ℕ
typed_result f s = and_then (f s.table) (λ r. ok (r.0, record s { table = r.1 }))

-- The loops. A round takes a token at least, so the tokens that are left are fuel enough.
module _ {ℓ} {A : Type ℓ} where
  -- The next state of a loop, or the last.
  abbrev pub onwards : (A × State → Result ((A × State) ⊎ (A × State))) → A → Parser A
  onwards round a s = iterate round (suc (length s.rest)) (a, s)

  unfoldable pub comma_round : (A → Parser A) → A × State → Result ((A × State) ⊎ (A × State))
  comma_round body (a, s) = and_then (body a s) (λ r.
      and_then (eat (codes ",") r.1) (λ q. ok (if q.0 then inl (r.0, q.1) else inr (r.0, q.1))))

  -- `do { body } while (eat(c, ","))`
  unfoldable pub comma_list : (A → Parser A) → A → Parser A
  comma_list body = onwards (comma_round body)

  unfoldable pub while_round :
      List ℕ → (A → Parser A) → A × State → Result ((A × State) ⊎ (A × State))
  while_round w body (a, s) =
      and_then (eat w s)
        (λ q. if q.0 then and_then (body a q.1) (λ r. ok (inl r)) else ok (inr (a, q.1)))

  -- `while (eat(c, w)) { body }`
  unfoldable pub while_eat : List ℕ → (A → Parser A) → A → Parser A
  while_eat w body = onwards (while_round w body)

  unfoldable pub until_round :
      List ℕ → (A → Parser A) → A × State → Result ((A × State) ⊎ (A × State))
  until_round w body (a, s) =
      and_then (eat w s)
        (λ q. if q.0 then ok (inr (a, q.1)) else and_then (body a q.1) (λ r. ok (inl r)))

  -- `while (!eat(c, w)) { body }`
  unfoldable pub until_eat : List ℕ → (A → Parser A) → A → Parser A
  until_eat w body = onwards (until_round w body)

  abbrev pub more_or : A → Option A × State → (A × State) ⊎ (A × State)
  more_or a (none, s) = inr (a, s)
  more_or a (some b, s) = inl (b, s)

  unfoldable pub repeat_round :
      (A → Parser (Option A)) → A × State → Result ((A × State) ⊎ (A × State))
  repeat_round body (a, s) = and_then (body a s) (λ r. ok (more_or a r))

  -- `while (1) { body }`, where the body breaks with none.
  unfoldable pub repeat : (A → Parser (Option A)) → A → Parser A
  repeat body = onwards (repeat_round body)
