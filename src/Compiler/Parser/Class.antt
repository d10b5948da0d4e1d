-- ===== src/Compiler/Parser/Class.antt =====
-- compiler/parser.c: the classes, properties and modules of `declaration`.
use tiny_cplus.Prelude.{ℕ, Bool, true, false, List, Option, if◌then◌else◌}
use tiny_cplus.Prelude.Text.{codes}
use tiny_cplus.Compiler.Loop.{Loc, duplicate_type}
use tiny_cplus.Compiler.Types.{fetch}
use tiny_cplus.Compiler.Types.Create.{type_named}
use tiny_cplus.Compiler.Parser.{
  Parser, ◌>>=◌, ◌>>◌, pure, fail, peek, ask, eat, expect, ident, typed, comma_list, until_eat,
}
use tiny_cplus.Compiler.Parser.Tree.{
  NodeKind, extension, property, var, Node, set_a, add_params, add_body,
}
use tiny_cplus.Compiler.Parser.TypeName.{Below, parse_type, dotted_name}
use tiny_cplus.Compiler.Parser.Lambda.{new_node, named, declared}
use tiny_cplus.Compiler.Parser.Expr
use tiny_cplus.Compiler.Parser.Declaration.{
  id_of, owned_by, flagged, of_type, change_type, has_decl, named_cname,
}

unfoldable pub dotted_decl : NodeKind → Loc → Parser Node
dotted_decl k l = do n ← new_node k l; w ← dotted_name; expect (codes ";"); pure (named w n)

unfoldable pub type_param : Parser Node
type_param = do
  t ← peek
  p ← new_node var t.loc
  w ← ident
  u ← typed (type_named w)
  pure (of_type u (named w p))

unfoldable pub class_param : Node → Parser Node
class_param n = do p ← type_param; pure (add_params p n)

unfoldable pub class_params : Node → Parser Node
class_params n = do
  generic ← eat (codes "<")
  if generic then (do m ← comma_list class_param n; expect (codes ">"); pure m) else pure n

unfoldable pub class_member : Below → Node → Parser Node
class_member r n = do d ← r.declaration 0 n; pure (add_body d n)

unfoldable pub class_body : Below → Node → Parser Node
class_body r n = do
  m ← class_params n
  expect (codes "{")
  o ← until_eat (codes "}") (class_member r) m
  eat (codes ";")
  pure o

abbrev pub is_extension : NodeKind → Bool
is_extension extension = true
is_extension _ = false

-- An extension leaves the type's declaration.
unfoldable pub class_type : NodeKind → Loc → List ℕ → ℕ → Option ℕ → Parser (Unit {0})
class_type k l w t n = if is_extension k then pure tt else (do
  taken ← ask (λ s. has_decl (fetch s.table.types t).decl)
  if taken then fail l (duplicate_type w) else change_type t (λ u. record u { decl = n }))

unfoldable pub class_decl : Below → NodeKind → Loc → ℕ → Parser Node
class_decl r k l flags = do
  n ← new_node k l
  w ← ident
  t ← typed (type_named w)
  change_type t (named_cname flags w)
  class_type k l w t (id_of n)
  class_body r (of_type t (named w (flagged flags n)))

unfoldable pub getter : Below → Node → Parser Node
getter r n = do
  expect (codes "{")
  expect (codes "get")
  expect (codes "=>")
  e ← Expr.expr r 1
  expect (codes ";")
  expect (codes "}")
  pure (set_a e n)

unfoldable pub property_decl : Below → Loc → Node → Parser Node
property_decl r l owner = do
  n ← new_node property l
  t ← parse_type r
  w ← ident
  bare ← eat (codes ";")
  let m = owned_by owner (named w (declared t n)) in if bare then pure m else getter r m
