-- ===== src/Compiler/Parser/TypeName.antt =====
-- compiler/parser.c: `parse_type` and `type_items`.
use tiny_cplus.Prelude.{
  ℕ, Bool, true, false, not, ◌&&◌, ◌||◌, List, [], ◌∷◌, ◌++◌, Option, none, some, ltb, ◌==◌,
  if◌then◌else◌, drop,
}
use tiny_cplus.Prelude.Text.{codes, same}
use tiny_cplus.Compiler.Loop.{one_slice_type, array_integer, array_length, Result, ok, and_then}
use tiny_cplus.Compiler.Lexer.{TokenKind}
use tiny_cplus.Compiler.Types.{ptr, array, slice, func, closure, Table, update}
use tiny_cplus.Compiler.Types.Create.{type_tuple, type_generic, type_named, type_derive, type_const}
use tiny_cplus.Compiler.Parser.{
  Parser, ◌>>=◌, ◌>>◌, pure, fail, token_at, is_token, peek, eat, take, expect, ident, nested,
  typed, typed_result, comma_list, while_eat, repeat,
}
use tiny_cplus.Compiler.Parser.Tree.{Node}
use tiny_cplus.Compiler.Parser.Integer.{overflows, strtoull}

-- The functions that parser.c declares ahead, for the calls that go down.
pub record Below : Type 0 where
  pub type : Parser ℕ
  pub expr : ℕ → Parser Node
  pub stmt : Parser Node
  pub declaration : ℕ → Node → Parser Node

-- A `>>` where a `>` is wanted: the first half is taken, and the token is `>` from now on.
unfoldable pub split_shift : List ℕ → Parser Bool
split_shift end s =
    if same end (codes ">") && same (token_at 0 s).text (codes ">>")
    then ok (true, record s { rest = record (token_at 0 s) { text = codes ">" } ∷ drop 1 s.rest })
    else ok (false, s)

unfoldable pub type_item : Below → List ℕ → Parser (List ℕ)
type_item r list = do t ← r.type; pure (list ++ t ∷ [])

unfoldable pub type_items : Below → List ℕ → Parser (List ℕ)
type_items r end = do
  list ← comma_list (type_item r) []
  halved ← split_shift end
  if halved then pure list else (do expect end; pure list)

-- `type_generic(c, "Function", params)` and the assignments to it.
unfoldable pub type_function : Bool → ℕ → List ℕ → Table → Result (ℕ × Table)
type_function is_closure ret params c =
    and_then (type_generic (codes "Function") params c) (λ (r : ℕ × Table). ok (
      r.0,
      record r.1 {
        types =
            update r.1.types r.0
              (λ t. record t { kind = if is_closure then closure else func; base = some ret });
      },
    ))

unfoldable pub function_params : Below → Bool → Parser (List ℕ)
function_params r empty = if empty then pure [] else type_items r (codes ")")

unfoldable pub function_type : Below → List ℕ → Parser ℕ
function_type r name = do
  ret ← r.type
  expect (codes "(")
  empty ← eat (codes ")")
  params ← function_params r empty
  expect (codes ">")
  typed_result (type_function (same name (codes "closure")) ret params)

-- The list is never empty.
unfoldable pub slice_type : List ℕ → Parser ℕ
slice_type (t ∷ []) = typed (type_derive slice t 0)
slice_type items = do t ← peek; fail t.loc one_slice_type

unfoldable pub generic_type : Below → List ℕ → Parser ℕ
generic_type r name = do
  items ← type_items r (codes ">")
  if same name (codes "Slice") then slice_type items else typed_result (type_generic name items)

unfoldable pub dotted_part : List ℕ → Parser (List ℕ)
dotted_part name = do part ← ident; pure (name ++ (codes "." ++ part))

unfoldable pub dotted_name : Parser (List ℕ)
dotted_name = do first ← ident; while_eat (codes ".") dotted_part first

unfoldable pub named_type : Below → Parser ℕ
named_type r = do
  name ← dotted_name
  generic ← eat (codes "<")
  if generic
      then (if same name (codes "func") || same name (codes "closure")
          then function_type r name
          else generic_type r name)
      else typed (type_named name)

unfoldable pub array_count : Parser ℕ
array_count = do
  n ← take
  if not (is_token n.kind TokenKind.int)
      then fail n.loc array_integer
      else if overflows n.text || strtoull n.text == 0 || ltb 10000000 (strtoull n.text)
      then fail n.loc array_length
      else (do expect (codes "]"); pure (strtoull n.text))

unfoldable pub array_suffix : ℕ → Parser (Option ℕ)
array_suffix t = do count ← array_count; u ← typed (type_derive array t count); pure (some u)

unfoldable pub type_suffix : ℕ → Parser (Option ℕ)
type_suffix t = do
  star ← eat (codes "*")
  if star
      then (do u ← typed (type_derive ptr t 0); pure (some u))
      else (do bracket ← eat (codes "["); if bracket then array_suffix t else pure none)

unfoldable pub tuple_type : Below → Parser ℕ
tuple_type r = do items ← type_items r (codes ")"); typed_result (type_tuple items)

unfoldable pub type_core : Below → Parser ℕ
type_core r = do is_tuple ← eat (codes "("); if is_tuple then tuple_type r else named_type r

unfoldable pub qualify : Bool → ℕ → Parser ℕ
qualify cn t = if cn then typed (type_const t) else pure t

unfoldable pub type_body : Below → Bool → Parser ℕ
type_body r cn = do t ← type_core r; u ← qualify cn t; repeat type_suffix u

unfoldable pub parse_type : Below → Parser ℕ
parse_type r = do cn ← eat (codes "const"); nested (type_body r cn)
