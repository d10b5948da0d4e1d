-- ===== src/Compiler/Parser/Program.antt =====
-- compiler/parser.c: the functions and variables of `declaration`, and `parse`.
use tiny_cplus.Prelude.{ℕ, zero, suc, Bool, not, ◌&&◌, Option, none, some, if◌then◌else◌, length}
use Prim.Native.Nat.{bit_or}
use tiny_cplus.Prelude.Text.{codes, same}
use tiny_cplus.Compiler.Loop.{Loc, destructor_name, expected_c, unknown_annotation, stuck}
use tiny_cplus.Compiler.Lexer.{eof}
use tiny_cplus.Compiler.Types.{void}
use tiny_cplus.Compiler.Types.Create.{type_primitive}
use tiny_cplus.Compiler.Parser.{
  State, Parser, ◌>>=◌, ◌>>◌, pure, fail, token_at, is_token, peek, ask, at, eat, take, expect,
  ident, typed, comma_list, until_eat, repeat,
}
use tiny_cplus.Compiler.Parser.Tree.{
  program, function, class, interface, extension, var, module_, import, Node, absent, set_a,
  set_body, set_params, add_body, add_args,
}
use tiny_cplus.Compiler.Parser.TypeName.{Below, parse_type}
use tiny_cplus.Compiler.Parser.Lambda.{new_node, named, declared}
use tiny_cplus.Compiler.Parser.Expr
use tiny_cplus.Compiler.Parser.Stmt
use tiny_cplus.Compiler.Parser.Stmt.{word_or}
use tiny_cplus.Compiler.Parser.Declaration.{
  name_of, is_absent, owned_by, flagged, of_kind, parameters, enum_decl,
}
use tiny_cplus.Compiler.Parser.Class.{dotted_decl, type_param, class_decl, property_decl}

-- Parameters and body, behind the name.
unfoldable pub function_rest : Below → Node → Node → Parser Node
function_rest r owner n = do
  expect (codes "(")
  list ← parameters r
  bare ← eat (codes ";")
  let m = owned_by owner (set_params list n) in
      if bare then pure m else (do b ← r.stmt; pure (set_body b m))

abbrev pub starts_constructor : Node → State → Bool
starts_constructor owner s =
    not (is_absent owner)
    && same (token_at 0 s).text (name_of owner)
    && same (token_at 1 s).text (codes "(")

-- NF_CONSTRUCTOR is 64, and NF_DESTRUCTOR 128.
unfoldable pub constructor : Below → Loc → ℕ → Node → Parser Node
constructor r l flags owner = do
  n ← new_node function l
  take
  t ← typed (type_primitive void)
  function_rest r owner (flagged (bit_or flags 64) (declared t (named (codes "init") n)))

unfoldable pub destructor : Below → Loc → ℕ → Node → Parser Node
destructor r l flags owner = do
  n ← new_node function l
  w ← ident
  if same w (name_of owner)
      then (do
        t ← typed (type_primitive void)
        function_rest r owner (flagged (bit_or flags 128) (declared t (named (codes "destroy") n))))
      else fail l destructor_name

unfoldable pub generic_param : Node → Parser Node
generic_param n = do p ← type_param; pure (add_args p n)

unfoldable pub generic_params : Node → Parser Node
generic_params n = do
  generic ← eat (codes "<")
  if generic then (do m ← comma_list generic_param n; expect (codes ">"); pure m) else pure n

unfoldable pub field : Below → Node → Node → Parser Node
field r owner n = do
  equals ← eat (codes "=")
  m ← (if equals then (do e ← Expr.expr r 1; pure (set_a e n)) else pure n)
  expect (codes ";")
  pure (owned_by owner m)

-- A function or a variable.
unfoldable pub method : Below → Loc → ℕ → Node → Parser Node
method r l flags owner = do
  t ← parse_type r
  n ← new_node function l
  w ← ident
  m ← generic_params (flagged flags (named w (declared t n)))
  paren ← at (codes "(")
  if paren then function_rest r owner m else field r owner (of_kind var m)

unfoldable pub method_or_destructor : Below → Loc → ℕ → Node → Parser Node
method_or_destructor r l flags owner =
    if is_absent owner
    then method r l flags owner
    else word_or (codes "~") (destructor r l flags owner) (method r l flags owner)

unfoldable pub function_decl : Below → Loc → ℕ → Node → Parser Node
function_decl r l flags owner = do
  is_constructor ← ask (starts_constructor owner)
  if is_constructor then constructor r l flags owner else method_or_destructor r l flags owner

-- NF_TEST is 8.
unfoldable pub annotated : Below → Loc → ℕ → Node → Parser Node
annotated r l flags owner = do
  w ← ident
  if same w (codes "test")
      then r.declaration (bit_or flags 8) owner
      else fail l (unknown_annotation w)

unfoldable pub type_decl : Below → Loc → ℕ → Node → Parser Node
type_decl r l flags owner = word_or (codes "enum") (enum_decl l flags) (
    word_or (codes "module") (dotted_decl module_ l) (
      word_or (codes "import") (dotted_decl import l) (
        word_or (codes "class") (class_decl r class l flags) (
          word_or (codes "struct") (class_decl r class l flags) (
            word_or (codes "interface") (class_decl r interface l flags) (
              word_or (codes "extension") (class_decl r extension l flags) (
                word_or (codes "property") (property_decl r l owner)
                  (function_decl r l flags owner))))))))

-- NF_STATIC is 2, NF_ASYNC 4, and NF_STDCALL 4096.
unfoldable pub declaration : Below → ℕ → Node → Parser Node
declaration r flags owner = do
  t ← peek
  word_or (codes "@") (annotated r t.loc flags owner) (
      word_or (codes "static") (r.declaration (bit_or flags 2) owner) (
        word_or (codes "async") (r.declaration (bit_or flags 4) owner) (
          word_or (codes "stdcall") (r.declaration (bit_or flags 4096) owner)
            (word_or (codes "cdecl") (r.declaration flags owner) (type_decl r t.loc flags owner)))))

-- NF_EXTERN is 1.
unfoldable pub extern_member : Below → Node → Parser Node
extern_member r p = do d ← r.declaration 1 absent; pure (add_body d p)

unfoldable pub extern_block : Below → Node → Parser Node
extern_block r p = do
  t ← take
  if same t.text (codes "C")
      then (do expect (codes "{"); until_eat (codes "}") (extern_member r) p)
      else fail t.loc expected_c

unfoldable pub program_member : Below → Node → Parser Node
program_member r p = do d ← r.declaration 0 absent; pure (add_body d p)

-- A round of the loop of `parse`.
unfoldable pub program_round : Below → Node → Parser (Option Node)
program_round r p = do
  t ← peek
  if is_token t.kind eof
      then pure none
      else (do q ← word_or (codes "extern") (extern_block r p) (program_member r p); pure (some q))

unfoldable pub program_body : Below → Parser Node
program_body r = do t ← peek; p ← new_node program t.loc; repeat (program_round r) p

-- The functions declared ahead, where calls go `n` deep at most.
unfoldable pub declared_ahead : ℕ → Below
declared_ahead zero = record {
  type = λ s. stuck;
  expr = λ p s. stuck;
  stmt = λ s. stuck;
  declaration = λ flags owner s. stuck;
}
declared_ahead (suc n) =
    let below = declared_ahead n in
    record {
      type = parse_type below;
      expr = Expr.expr below;
      stmt = Stmt.stmt below;
      declaration = declaration below;
    }

-- Each call that goes down has taken a token, so the tokens that are left are depth enough.
unfoldable pub parse : Parser Node
parse s = program_body (declared_ahead (length s.rest)) s
