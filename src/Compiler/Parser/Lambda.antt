-- ===== src/Compiler/Parser/Lambda.antt =====
-- compiler/parser.c: `arguments`, and the lambdas of `primary`.
use tiny_cplus.Prelude.{ℕ, ◌+◌, ◌&&◌, List, Option, none, some, if◌then◌else◌}
use tiny_cplus.Prelude.Text.{codes}
use tiny_cplus.Compiler.Loop.{Loc, ok}
use tiny_cplus.Compiler.Lexer.{id}
use tiny_cplus.Compiler.Types.{auto}
use tiny_cplus.Compiler.Types.Create.{type_primitive}
use tiny_cplus.Compiler.Parser.{
  Parser, ◌>>=◌, ◌>>◌, pure, token_at, ahead, is_token, peek, ask, at, eat, expect, ident, typed,
  comma_list,
}
use tiny_cplus.Compiler.Parser.Tree.{
  NodeKind, lambda, var, Node, absent, blank, leaf, append, set_info, set_a, set_body, add_params,
}
use tiny_cplus.Compiler.Parser.TypeName.{Below, parse_type}
use tiny_cplus.Compiler.Parser.Ahead.{type_start}

-- `node`
unfoldable pub new_node : NodeKind → Loc → Parser Node
new_node k l s =
    let n = s.table.next_id + 1 in
    ok (leaf (blank k l n), record s { table = record s.table { next_id = n } })

unfoldable pub label : Parser (Option (List ℕ))
label = do
  labelled ← ask (λ s. is_token (token_at 0 s).kind id && ahead 1 (codes ":") s)
  if labelled then (do l ← ident; expect (codes ":"); pure (some l)) else pure none

unfoldable pub argument : Below → Node → Parser Node
argument r list = do
  l ← label
  n ← r.expr 1
  pure (append list (set_info (λ i. record i { label = l }) n))

unfoldable pub arguments : Below → List ℕ → Parser Node
arguments r end = do
  empty ← eat end
  if empty then pure absent else (do list ← comma_list (argument r) absent; expect end; pure list)

abbrev pub named : List ℕ → Node → Node
named w n = set_info (λ i. record i { name = some w }) n

abbrev pub declared : ℕ → Node → Node
declared t n = set_info (λ i. record i { decl_type = some t }) n

abbrev pub worded : List ℕ → Node → Node
worded w n = set_info (λ i. record i { text = some w }) n

unfoldable pub typed_param : Below → Node → Parser Node
typed_param r p = do t ← parse_type r; w ← ident; pure (named w (declared t p))

unfoldable pub untyped_param : Node → Parser Node
untyped_param p = do w ← ident; t ← typed (type_primitive auto); pure (declared t (named w p))

unfoldable pub lambda_param : Below → Node → Parser Node
lambda_param r n = do
  t ← peek
  p ← new_node var t.loc
  is_type ← ask type_start
  q ← if is_type then typed_param r p else untyped_param p
  pure (add_params q n)

unfoldable pub lambda_params : Below → Node → Parser Node
lambda_params r n = do
  none_ ← eat (codes ")")
  if none_ then pure n else (do m ← comma_list (lambda_param r) n; expect (codes ")"); pure m)

unfoldable pub lambda_body : Below → Node → Parser Node
lambda_body r n = do
  block ← at (codes "{")
  if block then (do b ← r.stmt; pure (set_body b n)) else (do e ← r.expr 1; pure (set_a e n))

unfoldable pub lambda_expr : Below → Loc → Parser Node
lambda_expr r l = do
  n ← new_node lambda l
  expect (codes "(")
  m ← lambda_params r n
  expect (codes "=>")
  lambda_body r m
