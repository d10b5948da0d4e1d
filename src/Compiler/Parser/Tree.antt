-- ===== src/Compiler/Parser/Tree.antt =====
-- compiler/tiny.h: the nodes of the syntax tree, and the functions of the parser that build them.
use tiny_cplus.Prelude.{ℕ, List, Option, none}
use tiny_cplus.Compiler.Loop.{Loc}

pub data NodeKind : Type 0 where
  program function class interface extension property block var expr return if_ while for : NodeKind
  range break continue defer delete int float string char bool null identifier binary unary :
      NodeKind
  call index slice member init tuple new cast sizeof lambda await spawn : NodeKind
  module_ import enum switch case : NodeKind

-- The fields of `Node` that the parser sets, but for its links. A type is its address, the owner
-- the number of a node.
pub record Info : Type 0 where
  pub kind : NodeKind
  pub loc : Loc
  pub name : Option (List ℕ)
  pub text : Option (List ℕ)
  pub cname : Option (List ℕ)
  pub label : Option (List ℕ)
  pub type : Option ℕ
  pub decl_type : Option ℕ
  pub owner : Option ℕ
  pub flags : ℕ
  pub id : ℕ

-- A node with its links a, b, c, body, params, args and next.
pub data Node : Type 0 where
  absent : Node
  node : Info → Node → Node → Node → Node → Node → Node → Node → Node

abbrev pub blank : NodeKind → Loc → ℕ → Info
blank k l id = record {
  kind = k;
  loc = l;
  name = none;
  text = none;
  cname = none;
  label = none;
  type = none;
  decl_type = none;
  owner = none;
  flags = 0;
  id = id;
}

abbrev pub leaf : Info → Node
leaf i = node i absent absent absent absent absent absent absent

-- `append`
unfoldable pub append : Node → Node → Node
append absent n = n
append (node i a b c body params args next) n = node i a b c body params args (append next n)

-- The assignments to the fields of a node.
unfoldable pub set_info : (Info → Info) → Node → Node
set_info f absent = absent
set_info f (node i a b c body params args next) = node (f i) a b c body params args next

unfoldable pub set_a : Node → Node → Node
set_a x absent = absent
set_a x (node i a b c body params args next) = node i x b c body params args next

unfoldable pub set_b : Node → Node → Node
set_b x absent = absent
set_b x (node i a b c body params args next) = node i a x c body params args next

unfoldable pub set_c : Node → Node → Node
set_c x absent = absent
set_c x (node i a b c body params args next) = node i a b x body params args next

unfoldable pub set_body : Node → Node → Node
set_body x absent = absent
set_body x (node i a b c body params args next) = node i a b c x params args next

unfoldable pub set_params : Node → Node → Node
set_params x absent = absent
set_params x (node i a b c body params args next) = node i a b c body x args next

unfoldable pub set_args : Node → Node → Node
set_args x absent = absent
set_args x (node i a b c body params args next) = node i a b c body params x next

-- `append(&n->body, x)` and the like.
unfoldable pub add_body : Node → Node → Node
add_body x absent = absent
add_body x (node i a b c body params args next) = node i a b c (append body x) params args next

unfoldable pub add_params : Node → Node → Node
add_params x absent = absent
add_params x (node i a b c body params args next) = node i a b c body (append params x) args next

unfoldable pub add_args : Node → Node → Node
add_args x absent = absent
add_args x (node i a b c body params args next) = node i a b c body params (append args x) next
