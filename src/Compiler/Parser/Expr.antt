-- ===== src/Compiler/Parser/Expr.antt =====
-- compiler/parser.c: `arguments`, `primary`, `precedence` and `expr`.
use tiny_cplus.Prelude.{ℕ, ◌+◌, List, [], ◌∷◌, Option, none, some, leb, ◌==◌, if◌then◌else◌}
use tiny_cplus.Prelude.Text.{codes, same}
use tiny_cplus.Compiler.Loop.{Loc}
use tiny_cplus.Compiler.Lexer.{Token}
use tiny_cplus.Compiler.Parser.{
  Parser, ◌>>=◌, ◌>>◌, pure, token_at, peek, ask, at, eat, take, expect, ident, nested, repeat,
}
use tiny_cplus.Compiler.Parser.Tree.{
  unary, call, member, index, slice, binary, Node, set_info, set_a, set_b, set_c, set_args,
}
use tiny_cplus.Compiler.Parser.TypeName.{Below}
use tiny_cplus.Compiler.Parser.Ahead.{among}
use tiny_cplus.Compiler.Parser.Lambda.{new_node, arguments, named, worded}
use tiny_cplus.Compiler.Parser.Primary.{primary_start}

unfoldable pub called : Below → Loc → Node → Parser (Option Node)
called r l n = do
  m ← new_node call l
  list ← arguments r (codes ")")
  pure (some (set_args list (set_a n m)))

unfoldable pub accessed : Node → Parser (Option Node)
accessed n = do t ← peek; m ← new_node member t.loc; w ← ident; pure (some (named w (set_a n m)))

unfoldable pub first_bound : Below → Node → Parser Node
first_bound r n = do
  colon ← at (codes ":")
  if colon then pure n else (do e ← r.expr 1; pure (set_b e n))

unfoldable pub second_bound : Below → Node → Parser Node
second_bound r n = do
  colon ← eat (codes ":")
  if colon
      then (do
        close ← at (codes "]")
        if close
            then pure (set_info (λ i. record i { kind = slice }) n)
            else (do e ← r.expr 1; pure (set_c e (set_info (λ i. record i { kind = slice }) n))))
      else pure n

unfoldable pub indexed : Below → Node → Parser (Option Node)
indexed r n = do
  t ← peek
  m ← new_node index t.loc
  a ← first_bound r (set_a n m)
  b ← second_bound r a
  expect (codes "]")
  pure (some b)

unfoldable pub stepped : Node → Parser (Option Node)
stepped n = do
  t ← peek
  m ← new_node unary t.loc
  o ← take
  pure (some (set_info (λ i. record i { flags = 32 }) (worded o.text (set_a n m))))

unfoldable pub postfix_mark : Below → Node → Parser (Option Node)
postfix_mark r n = do
  bracket ← eat (codes "[")
  if bracket then indexed r n else (do
    step ← ask (λ s. among (token_at 0 s).text (codes "++" ∷ codes "--" ∷ []))
    if step then stepped n else pure none)

-- A round of the loop at the end of `primary`.
unfoldable pub postfix : Below → Loc → Node → Parser (Option Node)
postfix r l n = do
  open_paren ← eat (codes "(")
  if open_paren then called r l n else (do
    dot ← eat (codes ".")
    if dot
        then accessed n
        else (do arrow ← eat (codes "->"); if arrow then accessed n else postfix_mark r n))

unfoldable pub primary_body : Below → Token → Parser Node
primary_body r t = do n ← primary_start r t; repeat (postfix r t.loc) n

unfoldable pub primary : Below → Parser Node
primary r = do t ← peek; nested (primary_body r t)

unfoldable pub precedence : List ℕ → ℕ
precedence s =
    if among s (
      codes "="
      ∷ codes "+="
      ∷ codes "-="
      ∷ codes "*="
      ∷ codes "/="
      ∷ codes "%="
      ∷ codes "&="
      ∷ codes "|="
      ∷ codes "^="
      ∷ [])
    then 1
    else if same s (codes "||")
    then 2
    else if same s (codes "&&")
    then 3
    else if same s (codes "|")
    then 4
    else if same s (codes "^")
    then 5
    else if same s (codes "&")
    then 6
    else if among s (codes "==" ∷ codes "!=" ∷ [])
    then 7
    else if among s (codes "<" ∷ codes ">" ∷ codes "<=" ∷ codes ">=" ∷ [])
    then 8
    else if among s (codes "<<" ∷ codes ">>" ∷ [])
    then 9
    else if among s (codes "+" ∷ codes "-" ∷ [])
    then 10
    else if among s (codes "*" ∷ codes "/" ∷ codes "%" ∷ [])
    then 11
    else 0

unfoldable pub operation : Below → ℕ → Node → Parser (Option Node)
operation r p left = do
  o ← take
  n ← new_node binary o.loc
  right ← r.expr (p + (if p == 1 then 0 else 1))
  pure (some (set_b right (set_a left (worded o.text n))))

-- A round of the loop of `expr`.
unfoldable pub binary_round : Below → ℕ → Node → Parser (Option Node)
binary_round r least left = do
  p ← ask (λ s. precedence (token_at 0 s).text)
  if leb least p then operation r p left else pure none

unfoldable pub expr_body : Below → ℕ → Parser Node
expr_body r least = do left ← primary r; repeat (binary_round r least) left

unfoldable pub expr : Below → ℕ → Parser Node
expr r least = nested (expr_body r least)
