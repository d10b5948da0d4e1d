-- ===== src/Compiler/Examples.antt =====
-- Runs of the parser and of the table of types, at concrete inputs.
use tiny_cplus.Prelude.{inr, ℕ, ◌≡◌, refl, true, false, List, [], ◌∷◌, none, some, arith}
use tiny_cplus.Prelude.Text.{codes, same}
use tiny_cplus.Compiler.Loop.{Loc, Ends}
use tiny_cplus.Machine.{add_size, sub_size, mul_size}
use tiny_cplus.Compiler.Buffer.{Buffer, ready, grown, room, buf_grow, buf_add}
use tiny_cplus.Compiler.Buffer.Grows.{Adds, buf_add_lem}
use tiny_cplus.Compiler.Lexer.{Token, TokenKind, eof, id, op, starts}
use tiny_cplus.Compiler.Lexer.Scan.{start}
use tiny_cplus.Compiler.Types.{i32, Table}
use tiny_cplus.Compiler.Types.Equal.{type_equal}
use tiny_cplus.Compiler.Types.Create.{is_generic, type_generic}
use tiny_cplus.Compiler.Types.Closed.{IsSound}
use tiny_cplus.Compiler.Types.Finishes.{Finishes, Finishes-type_equal}
use tiny_cplus.Compiler.Types.Keeps.{Makes, Makes-type_generic}
use tiny_cplus.Compiler.Parser.{State}
use tiny_cplus.Compiler.Parser.Tree.{NodeKind, Node, leaf, blank}
use tiny_cplus.Compiler.Parser.Integer.{strtoull, value, in_base, digit}
use tiny_cplus.Compiler.Parser.Ahead.{occurs}
use tiny_cplus.Compiler.Parser.Expr.{precedence}
use tiny_cplus.Compiler.Parser.Program.{parse}
use tiny_cplus.Compiler.Parser.Whole.{Parsed, parse_lem}
use tiny_cplus.Compiler.Front.{no_types, syntax_tree, empty_state, syntax_tree_lem}

strtoull_hexadecimal : strtoull (codes "0x1F") ≡ 31
unfolding strtoull value in_base digit
strtoull_hexadecimal = refl

strtoull_octal : strtoull (codes "010") ≡ 8
unfolding strtoull value in_base digit
strtoull_octal = refl

precedence_product : precedence (codes "*") ≡ 11
unfolding precedence same
precedence_product = refl

abbrev here : Loc
here = record { line = 1; col = 1 }

abbrev token : TokenKind → List ℕ → Token
token k w = record { kind = k; text = w; loc = here }

-- `enum E { A }`
abbrev an_enum : State
an_enum = record {
  rest =
      token id (codes "enum")
      ∷ token id (codes "E")
      ∷ token op (codes "{")
      ∷ token id (codes "A")
      ∷ token op (codes "}")
      ∷ token eof []
      ∷ [];
  depth = 0;
  table = no_types;
}

no_types-IsSound : IsSound no_types
no_types-IsSound = record { closed = tt; builtin_below = tt }

parse_lem_example : Ends (Parsed an_enum) (parse an_enum)
unfolding same
parse_lem_example =
    parse_lem an_enum
      (refl, refl, (refl, refl, (refl, refl, (refl, refl, (refl, refl, (refl, refl))))))
      no_types-IsSound

syntax_tree_lem_example : Ends (Parsed empty_state) (syntax_tree (λ _. true) (codes "int x = 08;"))
unfolding occurs start starts
syntax_tree_lem_example = syntax_tree_lem (λ _. true) (codes "int x = 08;") refl

-- { A = -7, B }
abbrev two_values : State
two_values = record {
  rest =
      token op (codes "{")
      ∷ token id (codes "A")
      ∷ token op (codes "=")
      ∷ token op (codes "-")
      ∷ token TokenKind.int (codes "7")
      ∷ token op (codes ",")
      ∷ token id (codes "B")
      ∷ token op (codes "}")
      ∷ token eof []
      ∷ [];
  depth = 0;
  table = no_types;
}

abbrev an_enum_node : Node
an_enum_node = leaf (blank NodeKind.enum (record { line = 1; col = 1 }) 1)

-- A table with i32.
abbrev one_type : Table
one_type = record {
  types =
      (record {
        kind = i32;
        name = codes "i32";
        cname = codes "int32_t";
        base = none;
        items = [];
        count = 0;
        id = 1;
        qualified = false;
        callconv = 0;
        decl = none;
      })
      ∷ [];
  builtin = (6, 0) ∷ [];
  next_id = 1;
}

one_type-IsSound : IsSound one_type
unfolding is_generic
one_type-IsSound = record {
  closed = (record { base_below = tt; items_below = tt; not_function = refl }, tt);
  builtin_below = (omega arith, tt);
}

Finishes-type_equal_example : Finishes (type_equal 2 one_type.types (some 0) none)
Finishes-type_equal_example =
    Finishes-type_equal 1 one_type.types (tt, tt, tt) (some 0) none (omega arith)

Makes-type_generic_example : Ends (Makes one_type) (type_generic (codes "Box") (0 ∷ []) one_type)
unfolding same
Makes-type_generic_example =
    Makes-type_generic (codes "Box") (0 ∷ []) one_type one_type-IsSound (omega arith, tt) refl

abbrev no_text : Buffer
no_text = record { bytes = []; capacity = 0 }

buf_add_lem_example :
    Adds (λ _. true) no_text (codes "int x;") (buf_add (λ _. true) no_text (codes "int x;"))
buf_add_lem_example =
    buf_add_lem (λ _. true) no_text (codes "int x;")
      (record { inside = inr (refl, refl); small = omega arith }) (omega arith)

buf_add_grows :
    buf_add (λ _. true) no_text (codes "int")
    ≡ ready (record { bytes = codes "int"; capacity = 256 })
unfolding buf_add buf_grow room grown add_size sub_size mul_size
buf_add_grows = refl
