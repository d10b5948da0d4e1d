-- ===== src/Compiler/Parser/Variable.antt =====
-- compiler/parser.c: `variable`.
use tiny_cplus.Prelude.{ℕ, Bool, not, ◌||◌, ltb, ◌==◌, if◌then◌else◌}
use tiny_cplus.Prelude.Text.{codes}
use tiny_cplus.Compiler.Loop.{Loc, array_length}
use tiny_cplus.Compiler.Lexer.{TokenKind}
use tiny_cplus.Compiler.Types.{array, auto, is, fetch}
use tiny_cplus.Compiler.Types.Create.{type_derive}
use tiny_cplus.Compiler.Parser.{
  Parser, ◌>>=◌, ◌>>◌, pure, fail, is_token, peek, ask, eat, take, expect, ident, typed, while_eat,
}
use tiny_cplus.Compiler.Parser.Tree.{var, new, Node, set_info, set_a, set_args, add_params}
use tiny_cplus.Compiler.Parser.Integer.{strtoull}
use tiny_cplus.Compiler.Parser.TypeName.{Below, parse_type}
use tiny_cplus.Compiler.Parser.Lambda.{new_node, arguments, named, declared}
use tiny_cplus.Compiler.Parser.Expr

unfoldable pub more_name : Node → Parser Node
more_name n = do t ← peek; p ← new_node var t.loc; w ← ident; pure (add_params (named w p) n)

unfoldable pub more_names : Bool → Node → Parser Node
more_names is_auto n = if is_auto then while_eat (codes ",") more_name n else pure n

unfoldable pub variable_length : Parser ℕ
variable_length = do
  t ← take
  if not (is_token t.kind TokenKind.int) || strtoull t.text == 0 || ltb 10000000 (strtoull t.text)
      then fail t.loc array_length
      else (do expect (codes "]"); pure (strtoull t.text))

unfoldable pub variable_array : ℕ → Parser ℕ
variable_array t = do
  bracket ← eat (codes "[")
  if bracket then (do count ← variable_length; typed (type_derive array t count)) else pure t

-- A call of a constructor: the flag is NF_CONSTRUCTOR.
unfoldable pub construction : Below → ℕ → Loc → Node → Parser Node
construction r t l n = do
  m ← new_node new l
  list ← arguments r (codes ")")
  pure (set_a (set_info (λ i. record i { flags = 64 }) (set_args list (declared t m))) n)

unfoldable pub initial : Below → ℕ → Loc → Node → Parser Node
initial r t l n = do
  equals ← eat (codes "=")
  if equals
      then (do e ← Expr.expr r 1; pure (set_a e n))
      else (do open_paren ← eat (codes "("); if open_paren then construction r t l n else pure n)

unfoldable pub terminated : Bool → Node → Parser Node
terminated semi n = if semi then (do expect (codes ";"); pure n) else pure n

unfoldable pub variable : Below → Bool → Parser Node
variable r semi = do
  s ← peek
  n ← new_node var s.loc
  t ← parse_type r
  w ← ident
  is_auto ← ask (λ s. is (fetch s.table.types t).kind auto)
  m ← more_names is_auto (named w n)
  u ← variable_array t
  o ← initial r u s.loc (declared u m)
  terminated semi o
