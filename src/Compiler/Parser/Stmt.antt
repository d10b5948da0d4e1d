-- ===== src/Compiler/Parser/Stmt.antt =====
-- compiler/parser.c: `variable` and `stmt`.
use tiny_cplus.Prelude.{ℕ, Bool, true, false, ◌&&◌, ◌||◌, List, Option, none, some, if◌then◌else◌}
use tiny_cplus.Prelude.Text.{codes, same}
use tiny_cplus.Compiler.Loop.{
  Loc, unterminated_block, unterminated_switch, second_default, expected_case,
}
use tiny_cplus.Compiler.Lexer.{Token, eof, id, op}
use tiny_cplus.Compiler.Parser.{
  State, Parser, ◌>>=◌, ◌>>◌, pure, fail, token_at, ahead, is_token, peek, ask, at, eat, keyword,
  take, expect, ident, nested, comma_list, until_eat, repeat,
}
use tiny_cplus.Compiler.Parser.Tree.{
  NodeKind, block, return, if_, switch, case, while, for, range, break, continue, defer, delete,
  expr, tuple, Node, set_info, set_a, set_b, set_c, set_body, set_args, add_body, add_args,
}
use tiny_cplus.Compiler.Parser.TypeName.{Below}
use tiny_cplus.Compiler.Parser.Ahead.{type_start}
use tiny_cplus.Compiler.Parser.Lambda.{new_node, named, worded}
use tiny_cplus.Compiler.Parser.Expr
use tiny_cplus.Compiler.Parser.Variable.{variable}

-- The list of statements of a block, up to its end.
unfoldable pub block_item : Below → Loc → Node → Parser Node
block_item r l n = do
  t ← peek
  if is_token t.kind eof then fail l unterminated_block else (do b ← r.stmt; pure (add_body b n))

unfoldable pub block_stmt : Below → Loc → Parser Node
block_stmt r l = do n ← new_node block l; until_eat (codes "}") (block_item r l) n

unfoldable pub add_value : Below → Node → Parser Node
add_value r n = do e ← Expr.expr r 1; pure (add_args e n)

unfoldable pub returned : Below → Loc → Node → Parser Node
returned r l n = do
  e ← Expr.expr r 1
  more ← eat (codes ",")
  if more
      then (do
        t ← new_node tuple l
        list ← comma_list (add_value r) (set_args e t)
        pure (set_a list n))
      else pure (set_a e n)

unfoldable pub return_stmt : Below → Loc → Parser Node
return_stmt r l = do
  n ← new_node return l
  bare ← at (codes ";")
  m ← (if bare then pure n else returned r l n)
  expect (codes ";")
  pure m

-- `( expression )`
unfoldable pub condition : Below → Node → Parser Node
condition r n = do expect (codes "("); e ← Expr.expr r 1; expect (codes ")"); pure (set_a e n)

unfoldable pub else_part : Below → Node → Parser Node
else_part r n = do
  otherwise ← eat (codes "else")
  if otherwise then (do b ← r.stmt; pure (set_b b n)) else pure n

unfoldable pub if_stmt : Below → Loc → Parser Node
if_stmt r l = do n ← new_node if_ l; m ← condition r n; b ← r.stmt; else_part r (set_body b m)

unfoldable pub case_value : Below → Node → Parser Node
case_value r n = do e ← Expr.expr r 1; pure (add_args e n)

-- The head of a case, with `has_default`.
unfoldable pub case_head : Below → Token → Bool → Node → Parser (Node × Bool)
case_head r t has_default n = do
  is_case ← keyword (codes "case")
  if is_case then (do take; m ← comma_list (case_value r) n; pure (m, has_default)) else (do
    is_default ← keyword (codes "default")
    if is_default
        then (do
          take
          if has_default
              then fail t.loc second_default
              else pure (worded (codes "default") n, true))
        else fail t.loc expected_case)

abbrev pub case_ends : State → Bool
case_ends s =
    is_token (token_at 0 s).kind id && same (token_at 0 s).text (codes "case")
    || is_token (token_at 0 s).kind id && same (token_at 0 s).text (codes "default")
    || is_token (token_at 0 s).kind op && same (token_at 0 s).text (codes "}")

unfoldable pub case_item : Below → Loc → Node → Parser (Option Node)
case_item r l n = do
  ends ← ask case_ends
  if ends then pure none else (do
    t ← peek
    if is_token t.kind eof
        then fail l unterminated_switch
        else (do b ← r.stmt; pure (some (add_body b n))))

unfoldable pub switch_case : Below → Loc → Node × Bool → Parser (Node × Bool)
switch_case r l (n, has_default) = do
  t ← peek
  if is_token t.kind eof then fail l unterminated_switch else (do
    item ← new_node case t.loc
    head ← case_head r t has_default item
    expect (codes ":")
    b ← new_node block t.loc
    body ← repeat (case_item r l) b
    pure (add_body (set_body body head.0) n, head.1))

unfoldable pub switch_stmt : Below → Loc → Parser Node
switch_stmt r l = do
  take
  n ← new_node switch l
  m ← condition r n
  expect (codes "{")
  o ← until_eat (codes "}") (switch_case r l) (m, false)
  pure o.0

unfoldable pub while_stmt : Below → Loc → Parser Node
while_stmt r l = do n ← new_node while l; m ← condition r n; b ← r.stmt; pure (set_body b m)

unfoldable pub second_name : Node → Parser Node
second_name n = do
  comma ← eat (codes ",")
  if comma then (do w ← ident; pure (worded w n)) else pure n

unfoldable pub range_stmt : Below → Node → Parser Node
range_stmt r n = do
  w ← ident
  m ← second_name (named w (set_info (λ i. record i { kind = range }) n))
  expect (codes "in")
  e ← Expr.expr r 1
  expect (codes ")")
  b ← r.stmt
  pure (set_body b (set_a e m))

unfoldable pub for_start : Below → Loc → Node → Parser Node
for_start r l n = do
  is_type ← ask type_start
  if is_type
      then (do v ← variable r false; pure (set_a v n))
      else (do m ← new_node expr l; e ← Expr.expr r 1; pure (set_a (set_a e m) n))

unfoldable pub for_loop : Below → Loc → Node → Parser Node
for_loop r l n = do
  no_start ← at (codes ";")
  a ← (if no_start then pure n else for_start r l n)
  expect (codes ";")
  no_test ← at (codes ";")
  b ← (if no_test then pure a else (do e ← Expr.expr r 1; pure (set_b e a)))
  expect (codes ";")
  no_step ← at (codes ")")
  c ← (if no_step then pure b else (do e ← Expr.expr r 1; pure (set_c e b)))
  expect (codes ")")
  s ← r.stmt
  pure (set_body s c)

unfoldable pub for_stmt : Below → Loc → Parser Node
for_stmt r l = do
  n ← new_node for l
  expect (codes "(")
  is_range ← ask (λ s.
      is_token (token_at 0 s).kind id
      && (same (token_at 1 s).text (codes ",") || same (token_at 1 s).text (codes "in")))
  if is_range then range_stmt r n else for_loop r l n

unfoldable pub bare_stmt : NodeKind → Loc → Parser Node
bare_stmt k l = do n ← new_node k l; expect (codes ";"); pure n

unfoldable pub defer_stmt : Below → Loc → Parser Node
defer_stmt r l = do
  n ← new_node defer l
  is_block ← at (codes "{")
  if is_block
      then (do b ← r.stmt; pure (set_body b n))
      else (do e ← Expr.expr r 1; expect (codes ";"); pure (set_a e n))

unfoldable pub delete_stmt : Below → Loc → Parser Node
delete_stmt r l = do n ← new_node delete l; e ← Expr.expr r 1; expect (codes ";"); pure (set_a e n)

unfoldable pub expr_stmt : Below → Loc → Parser Node
expr_stmt r l = do
  n ← new_node expr l
  bare ← at (codes ";")
  m ← (if bare then pure n else (do e ← Expr.expr r 1; pure (set_a e n)))
  expect (codes ";")
  pure m

unfoldable pub stmt_start : Below → Loc → Parser Node
stmt_start r l = do is_type ← ask type_start; if is_type then variable r true else expr_stmt r l

-- A statement that begins with a word, or the rest of the alternatives.
unfoldable pub word_or : List ℕ → Parser Node → Parser Node → Parser Node
word_or w m rest = do found ← eat w; if found then m else rest

unfoldable pub stmt_late : Below → Loc → Parser Node
stmt_late r l = word_or (codes "while") (while_stmt r l) (
    word_or (codes "for") (for_stmt r l) (
      word_or (codes "break") (bare_stmt break l) (
        word_or (codes "continue") (bare_stmt continue l) (
          word_or (codes "defer") (defer_stmt r l)
            (word_or (codes "delete") (delete_stmt r l) (stmt_start r l))))))

unfoldable pub switch_or : Below → Loc → Parser Node
switch_or r l = do
  is_switch ← ask (λ s.
      is_token (token_at 0 s).kind id
      && same (token_at 0 s).text (codes "switch")
      && ahead 1 (codes "(") s)
  if is_switch then switch_stmt r l else stmt_late r l

unfoldable pub stmt_body : Below → Loc → Parser Node
stmt_body r l = word_or (codes "{") (block_stmt r l) (
    word_or (codes "return") (return_stmt r l) (word_or (codes "if") (if_stmt r l) (switch_or r l)))

unfoldable pub stmt : Below → Parser Node
stmt r = do t ← peek; nested (stmt_body r t.loc)
