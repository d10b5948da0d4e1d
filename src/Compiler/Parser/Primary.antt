-- ===== src/Compiler/Parser/Primary.antt =====
-- compiler/parser.c: the first part of `primary`, up to its loop.
use tiny_cplus.Prelude.{ℕ, ◌||◌, List, [], ◌∷◌, none, if◌then◌else◌}
use tiny_cplus.Prelude.Text.{codes, same}
use tiny_cplus.Compiler.Loop.{Loc, expected_expression}
use tiny_cplus.Compiler.Lexer.{Token, TokenKind, id}
use tiny_cplus.Compiler.Types.{auto}
use tiny_cplus.Compiler.Types.Create.{type_primitive, type_generic}
use tiny_cplus.Compiler.Parser.{
  Parser, ◌>>=◌, ◌>>◌, pure, fail, token_at, is_token, ask, eat, take, expect, typed, typed_result,
  comma_list,
}
use tiny_cplus.Compiler.Parser.Tree.{
  NodeKind, lambda, var, tuple, init, new, sizeof, cast, unary, await, spawn, identifier, Node,
  set_info, set_a, set_params, set_args, add_args,
}
use tiny_cplus.Compiler.Parser.TypeName.{Below, type_items, parse_type}
use tiny_cplus.Compiler.Parser.Ahead.{lambda_ahead, generic_call_ahead, among}
use tiny_cplus.Compiler.Parser.Lambda.{
  new_node, arguments, named, declared, worded, lambda_body, lambda_expr,
}

unfoldable pub add_expr : Below → Node → Parser Node
add_expr r n = do e ← r.expr 1; pure (add_args e n)

-- Behind an opening parenthesis.
unfoldable pub rest_of_tuple : Below → Loc → Node → Parser Node
rest_of_tuple r l n = do
  more ← eat (codes ",")
  if more then (do t ← new_node tuple l; comma_list (add_expr r) (set_args n t)) else pure n

unfoldable pub paren : Below → Loc → Parser Node
paren r l = do n ← r.expr 1; m ← rest_of_tuple r l n; expect (codes ")"); pure m

unfoldable pub initializer : Below → Loc → Parser Node
initializer r l = do n ← new_node init l; list ← arguments r (codes "}"); pure (set_args list n)

unfoldable pub creation : Below → Loc → Parser Node
creation r l = do
  n ← new_node new l
  t ← parse_type r
  called ← eat (codes "(")
  if called
      then (do list ← arguments r (codes ")"); pure (set_args list (declared t n)))
      else pure (declared t n)

unfoldable pub size_of : Below → Loc → Parser Node
size_of r l = do
  n ← new_node sizeof l
  expect (codes "(")
  t ← parse_type r
  expect (codes ")")
  pure (declared t n)

unfoldable pub cast_expr : Below → Loc → Parser Node
cast_expr r l = do
  n ← new_node cast l
  expect (codes "<")
  t ← parse_type r
  expect (codes ">")
  expect (codes "(")
  e ← r.expr 1
  expect (codes ")")
  pure (set_a e (declared t n))

unfoldable pub prefix : Below → Loc → Parser Node
prefix r l = do n ← new_node unary l; t ← take; e ← r.expr 14; pure (set_a e (worded t.text n))

unfoldable pub tasked : Below → NodeKind → Loc → Parser Node
tasked r k l = do n ← new_node k l; e ← r.expr 14; pure (set_a e n)

unfoldable pub short_lambda : Below → Token → Node → Parser Node
short_lambda r t n = do
  p ← new_node var t.loc
  a ← typed (type_primitive auto)
  lambda_body r (
      set_params (declared a (named t.text p))
        (set_info (λ i. record i { kind = lambda; name = none }) n))

unfoldable pub generic_name : Below → List ℕ → Node → Parser Node
generic_name r w n = do
  expect (codes "<")
  items ← type_items r (codes ">")
  t ← typed_result (type_generic w items)
  pure (declared t n)

unfoldable pub name_expr : Below → Token → Parser Node
name_expr r t = do
  n ← new_node identifier t.loc
  arrow ← eat (codes "=>")
  if arrow then short_lambda r t (named t.text n) else (do
    generic ← ask generic_call_ahead
    if generic then generic_name r t.text (named t.text n) else pure (named t.text n))

-- A literal, or a name.
unfoldable pub atom : Below → Token → Parser Node
atom r t =
    if is_token t.kind TokenKind.int
    then new_node NodeKind.int t.loc
    else if is_token t.kind TokenKind.float
    then new_node NodeKind.float t.loc
    else if is_token t.kind TokenKind.string
    then new_node NodeKind.string t.loc
    else if is_token t.kind TokenKind.char
    then new_node NodeKind.char t.loc
    else if same t.text (codes "true") || same t.text (codes "false")
    then new_node NodeKind.bool t.loc
    else if same t.text (codes "null")
    then new_node NodeKind.null t.loc
    else if is_token t.kind id
    then name_expr r t
    else fail t.loc expected_expression

unfoldable pub single : Below → Token → Parser Node
single r t = do take; n ← atom r t; pure (worded t.text n)

abbrev pub prefixes : List (List ℕ)
prefixes =
    codes "!"
    ∷ codes "-"
    ∷ codes "+"
    ∷ codes "~"
    ∷ codes "*"
    ∷ codes "&"
    ∷ codes "++"
    ∷ codes "--"
    ∷ []

-- The last alternatives of `primary`.
unfoldable pub primary_word : Below → Token → Parser Node
primary_word r t = do
  is_prefix ← ask (λ s. among (token_at 0 s).text prefixes)
  if is_prefix then prefix r t.loc else (do
    is_await ← eat (codes "await")
    if is_await then tasked r await t.loc else (do
      is_spawn ← eat (codes "spawn")
      if is_spawn then tasked r spawn t.loc else single r t))

unfoldable pub primary_cast : Below → Token → Parser Node
primary_cast r t = do
  is_new ← eat (codes "new")
  if is_new then creation r t.loc else (do
    is_sizeof ← eat (codes "sizeof")
    if is_sizeof then size_of r t.loc else (do
      is_cast ← eat (codes "cast")
      if is_cast then cast_expr r t.loc else primary_word r t))

unfoldable pub primary_start : Below → Token → Parser Node
primary_start r t = do
  is_lambda ← ask lambda_ahead
  if is_lambda then lambda_expr r t.loc else (do
    open_paren ← eat (codes "(")
    if open_paren then paren r t.loc else (do
      open_brace ← eat (codes "{")
      if open_brace then initializer r t.loc else primary_cast r t))
