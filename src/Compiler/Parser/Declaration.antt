-- ===== src/Compiler/Parser/Declaration.antt =====
-- compiler/parser.c: `parameters`, and the declarations of types and properties in `declaration`. A
-- node's owner is given as a node, absent for NULL.
use tiny_cplus.Prelude.{
  ℕ, zero, suc, ◌+◌, ◌%◌, Bool, true, false, not, ◌&&◌, ◌||◌, List, [], ◌++◌, Option, none, some,
  ltb, ◌==◌, if◌then◌else◌,
}
use tiny_cplus.Prelude.Text.{codes, same, decimal}
use tiny_cplus.Prelude.Int.{ℤ, pos, negsuc, ltb_ℤ}
use tiny_cplus.Compiler.Loop.{Loc, ok, enum_integer, enum_range, duplicate_type}
use tiny_cplus.Compiler.Lexer.{TokenKind}
use tiny_cplus.Compiler.Types.{enum, CType, fetch, update}
use tiny_cplus.Compiler.Types.Create.{type_named}
use tiny_cplus.Compiler.Parser.{
  Parser, ◌>>=◌, ◌>>◌, pure, fail, token_at, is_token, peek, ask, eat, take, expect, ident, typed,
  repeat,
}
use tiny_cplus.Compiler.Parser.Tree.{
  NodeKind, var, Node, node, absent, set_info, set_a, add_body, append,
}
use tiny_cplus.Compiler.Parser.Integer.{overflows, strtoull}
use tiny_cplus.Compiler.Parser.TypeName.{Below, parse_type}
use tiny_cplus.Compiler.Parser.Lambda.{new_node, named, declared}
use tiny_cplus.Compiler.Parser.Expr

abbrev pub is_extern : ℕ → Bool
is_extern flags = flags % 2 == 1

abbrev pub name_of : Node → List ℕ
name_of absent = []
name_of (node i a b c body params args next) = elim i.name [ none ↦ [] | some w ↦ w ]

abbrev pub id_of : Node → Option ℕ
id_of absent = none
id_of (node i a b c body params args next) = some i.id

abbrev pub is_absent : Node → Bool
is_absent absent = true
is_absent (node i a b c body params args next) = false

abbrev pub owned_by : Node → Node → Node
owned_by owner n = set_info (λ i. record i { owner = id_of owner }) n

abbrev pub flagged : ℕ → Node → Node
flagged flags n = set_info (λ i. record i { flags = flags }) n

abbrev pub of_type : ℕ → Node → Node
of_type t n = set_info (λ i. record i { type = some t }) n

abbrev pub of_kind : NodeKind → Node → Node
of_kind k n = set_info (λ i. record i { kind = k }) n

-- Assignments to the fields of a type.
unfoldable pub change_type : ℕ → (CType → CType) → Parser (Unit {0})
change_type t f s =
    ok (tt, record s { table = record s.table { types = update s.table.types t f } })

abbrev pub has_decl : Option ℕ → Bool
has_decl none = false
has_decl (some d) = true

unfoldable pub default_value : Below → Node → Parser Node
default_value r p = do
  equals ← eat (codes "=")
  if equals then (do e ← Expr.expr r 1; pure (set_a e p)) else pure p

-- A round of the loop of `parameters`, with whether there is another.
unfoldable pub parameter : Below → Node × Bool → Parser (Option (Node × Bool))
parameter r (list, more) = if not more then pure none else (do
  t ← peek
  p ← new_node var t.loc
  dots ← eat (codes "...")
  if dots then pure (some (append list (named (codes "...") p), false)) else (do
    u ← parse_type r
    w ← ident
    q ← default_value r (named w (declared u p))
    comma ← eat (codes ",")
    pure (some (append list q, comma))))

unfoldable pub parameter_list : Below → Parser Node
parameter_list r = do list ← repeat (parameter r) (absent, true); expect (codes ")"); pure list.0

-- Behind the test, neither of the two tokens is the end of the file.
unfoldable pub parameters : Below → Parser Node
parameters r = do
  empty ← eat (codes ")")
  if empty then pure absent else (do
    nothing_ ←
        ask (λ s. same (token_at 0 s).text (codes "void") && same (token_at 1 s).text (codes ")"))
    if nothing_ then (do take; take; pure absent) else parameter_list r)

abbrev pub signed : Bool → ℕ → ℤ
signed false n = pos n
signed true zero = pos 0
signed true (suc n) = negsuc n

abbrev pub next_ℤ : ℤ → ℤ
next_ℤ (pos n) = pos (n + 1)
next_ℤ (negsuc zero) = pos 0
next_ℤ (negsuc (suc n)) = negsuc n

-- `%lld`
abbrev pub decimal_ℤ : ℤ → List ℕ
decimal_ℤ (pos n) = decimal n
decimal_ℤ (negsuc n) = codes "-" ++ decimal (n + 1)

-- The value that is written behind the sign.
unfoldable pub enum_literal : Bool → Parser ℤ
enum_literal negative = do
  t ← take
  if not (is_token t.kind TokenKind.int)
      then fail t.loc enum_integer
      else if overflows t.text
          || ltb (if negative then 2147483648 else 2147483647) (strtoull t.text)
      then fail t.loc enum_range
      else pure (signed negative (strtoull t.text))

unfoldable pub enum_number : ℤ → Parser ℤ
enum_number next = do
  equals ← eat (codes "=")
  if equals then (do negative ← eat (codes "-"); enum_literal negative) else pure next

-- The loop over the values, with the next value and whether the loop goes on.
pub record EnumState : Type 0 where
  pub tree : Node
  pub next : ℤ
  pub goes_on : Bool

unfoldable pub enum_end : Node → ℤ → Parser EnumState
enum_end n next = do
  comma ← eat (codes ",")
  if comma
      then pure (record { tree = n; next = next_ℤ next; goes_on = true })
      else (do expect (codes "}"); pure (record { tree = n; next = next_ℤ next; goes_on = false }))

unfoldable pub enum_value : ℕ → ℕ → EnumState → Parser EnumState
enum_value flags t e = do
  p ← peek
  v ← new_node var p.loc
  w ← ident
  next ← enum_number e.next
  if ltb_ℤ (pos 2147483647) next then fail p.loc enum_range else (do
    of ← ask (λ s. (fetch s.table.types t).cname)
    enum_end
        (add_body
          (set_info
            (λ i. record i {
              name = some w;
              owner = id_of e.tree;
              flags = 18;
              decl_type = some t;
              text = some (decimal_ℤ next);
              cname = some (if is_extern flags then w else of ++ (codes "_" ++ w));
            })
            v)
          e.tree)
        next)

unfoldable pub enum_round : ℕ → ℕ → EnumState → Parser (Option EnumState)
enum_round flags t e = if not e.goes_on then pure none else (do
  close ← eat (codes "}")
  if close then pure none else (do f ← enum_value flags t e; pure (some f)))

abbrev pub named_cname : ℕ → List ℕ → CType → CType
named_cname flags w u = if is_extern flags then record u { cname = w } else u

unfoldable pub enum_body : ℕ → ℕ → Node → Parser Node
enum_body flags t n = do
  expect (codes "{")
  e ← repeat (enum_round flags t) (record { tree = n; next = pos 0; goes_on = true })
  eat (codes ";")
  pure e.tree

unfoldable pub enum_decl : Loc → ℕ → Parser Node
enum_decl l flags = do
  n ← new_node NodeKind.enum l
  w ← ident
  t ← typed (type_named w)
  taken ← ask (λ s. has_decl (fetch s.table.types t).decl)
  if taken then fail l (duplicate_type w) else (do
    change_type t (λ u. named_cname flags w (record u { kind = enum; decl = id_of n }))
    enum_body flags t (of_type t (flagged flags (named w n))))
