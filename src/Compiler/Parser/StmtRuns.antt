-- ===== src/Compiler/Parser/StmtRuns.antt =====
-- `stmt` comes to an end.
use tiny_cplus.Prelude.{ℕ, suc, ◌<◌, Bool, List, arith}
use tiny_cplus.Prelude.Text.{codes}
use tiny_cplus.Compiler.Loop.{Loc}
use tiny_cplus.Compiler.Lexer.{Token}
use tiny_cplus.Compiler.Types.{array}
use tiny_cplus.Compiler.Types.Keeps.{Makes-type_derive}
use tiny_cplus.Compiler.Parser.{Parser}
use tiny_cplus.Compiler.Parser.Tree.{Node, NodeKind, var}
use tiny_cplus.Compiler.Parser.TypeName.{Below}
use tiny_cplus.Compiler.Parser.Expr
use tiny_cplus.Compiler.Parser.Lambda
use tiny_cplus.Compiler.Parser.Stmt.{
  block_item, block_stmt, add_value, returned, return_stmt, condition, else_part, if_stmt,
  case_value, case_head, case_item, switch_case, switch_stmt, while_stmt, second_name, range_stmt,
  for_start, for_loop, for_stmt, bare_stmt, defer_stmt, delete_stmt, expr_stmt, stmt_start, word_or,
  stmt_late, switch_or, stmt_body, stmt,
}
use tiny_cplus.Compiler.Parser.Variable.{
  more_name, more_names, variable_length, variable_array, construction, initial, terminated,
  variable,
}
use tiny_cplus.Compiler.Parser.Steps.{Word, Runs-peek, Runs-ident, Runs-eat_any, Runs-typed}
use tiny_cplus.Compiler.Parser.Runs.{
  Runs, Any, none_, Runs-bind, Runs-then, Runs-none, Runs-pure, Runs-ask,
}
use tiny_cplus.Compiler.Parser.TypeRuns.{RunsBelow, Runs-parse_type}
use tiny_cplus.Compiler.Parser.ExprRuns.{Eats-stmt, Eats-whole, Part-arguments}
use tiny_cplus.Compiler.Parser.Parts.{
  Part, Eats, Rounds, to_part, Eats-le, Runs-Any, Part-new_node, straight, parts,
}

module _ {k : ℕ} where
  pub Eats-word_or :
      {m rest : Parser Node} (w : List ℕ)
      → Word w
      → Part k m
      → Eats (suc k) rest
      → Eats (suc k) (word_or w m rest)
  unfolding word_or
  Eats-word_or w h p q = search (parts, h, p, q) depth 10

  Eats-more_name : (n : Node) → Eats k (more_name n)
  unfolding more_name
  Eats-more_name n = search parts depth 25 fits 5000

  Part-more_names : (a : Bool) (n : Node) → Part k (more_names a n)
  unfolding more_names
  Part-more_names a n = search (parts, Eats-more_name) depth 25 fits 5000

  Eats-variable_length : Eats k variable_length
  unfolding variable_length
  Eats-variable_length = search parts depth 25 fits 5000

  Runs-variable_array : (n t : ℕ) → t < n → Runs k n none_ Any (variable_array t)
  unfolding variable_array
  Runs-variable_array n t h =
      Runs-eat_any (codes "[") _ tt (λ _. omega arith)
        (Runs-bind (Runs-none (Eats-variable_length.eats_runs n)) (λ count j m _.
          Runs-Any (Runs-typed _ (λ c s more. Makes-type_derive array t count c s (omega arith)))))
        (Runs-pure t (omega arith) (λ _ _. tt))

  Part-terminated : (semi : Bool) (n : Node) → Part k (terminated semi n)
  unfolding terminated
  Part-terminated semi n = search parts depth 25 fits 5000

module _ {k : ℕ} (r : Below) (b : RunsBelow k r) where
  Eats-expr : Eats (suc k) (Expr.expr r 1)
  Eats-expr = Eats-whole r b 1

  Eats-expr_here : Eats k (Expr.expr r 1)
  Eats-expr_here = Eats-le (omega arith) Eats-expr

  Eats-below : Eats k r.stmt
  Eats-below = Eats-stmt r b

  Part-given : (w : List ℕ) → Word w → Part k (Lambda.arguments r w)
  Part-given w h = Part-arguments r b w h

  Part-construction : (t : ℕ) (l : Loc) (n : Node) → Part k (construction r t l n)
  unfolding construction
  Part-construction t l n = search (parts, Part-given) depth 25 fits 5000

  Part-initial : (t : ℕ) (l : Loc) (n : Node) → Part k (initial r t l n)
  unfolding initial
  Part-initial t l n = search (parts, Part-construction, Eats-expr_here) depth 25 fits 5000

  pub Eats-variable : (semi : Bool) → Eats (suc k) (variable r semi)
  unfolding variable
  Eats-variable semi = record {
    eats_runs = λ n. Runs-bind Runs-peek (λ s j more _.
        Runs-bind ((Part-new_node var s.loc).part_runs j) (λ v i more_ _.
          Runs-then (λ _. omega arith) (Runs-parse_type r b i)
            (λ t l over h. Runs-bind (Runs-none Runs-ident) (λ w o under _.
              Runs-bind (Runs-ask _) (λ is_auto p up _.
                Runs-bind ((Part-more_names is_auto _).part_runs p) (λ m q next _.
                  Runs-bind (Runs-variable_array q t (omega arith)) (λ u x last _.
                    Runs-bind ((Part-initial u s.loc _).part_runs x)
                      (λ e y end _. (Part-terminated semi e).part_runs y))))))));
  }

  Eats-block_item : (l : Loc) (n : Node) → Eats k (block_item r l n)
  unfolding block_item
  Eats-block_item l n = search (parts, Eats-below) depth 25 fits 5000

  Part-block_stmt : (l : Loc) → Part k (block_stmt r l)
  unfolding block_stmt
  Part-block_stmt l = search (parts, Eats-block_item) depth 25 fits 5000

  Eats-add_value : (n : Node) → Eats k (add_value r n)
  unfolding add_value
  Eats-add_value n = search (parts, Eats-expr_here) depth 25 fits 5000

  Part-returned : (l : Loc) (n : Node) → Part k (returned r l n)
  unfolding returned
  Part-returned l n = search (parts, Eats-add_value, Eats-expr_here) depth 25 fits 5000

  Part-return_stmt : (l : Loc) → Part k (return_stmt r l)
  unfolding return_stmt
  Part-return_stmt l = search (parts, Part-returned) depth 25 fits 5000

  Part-condition : (n : Node) → Part k (condition r n)
  unfolding condition
  Part-condition n = search (parts, Eats-expr_here) depth 25 fits 5000

  Part-else_part : (n : Node) → Part k (else_part r n)
  unfolding else_part
  Part-else_part n = search (parts, Eats-below) depth 25 fits 5000

  Part-if_stmt : (l : Loc) → Part k (if_stmt r l)
  unfolding if_stmt
  Part-if_stmt l = search (parts, Part-condition, Eats-below, Part-else_part) depth 25 fits 5000

  Eats-case_value : (n : Node) → Eats k (case_value r n)
  unfolding case_value
  Eats-case_value n = search (parts, Eats-expr_here) depth 25 fits 5000

  Part-case_head :
      (t : Token) (has_default : Bool) (n : Node) → Part k (case_head r t has_default n)
  unfolding case_head
  Part-case_head t has_default n = search (parts, Eats-case_value) depth 25 fits 5000

  Rounds-case_item : (l : Loc) (n : Node) → Rounds k (case_item r l n)
  unfolding case_item
  Rounds-case_item l n = search (parts, Eats-below) depth 25 fits 5000

  Eats-switch_case : (l : Loc) (p : Node × Bool) → Eats k (switch_case r l p)
  unfolding switch_case
  Eats-switch_case l (n, d) = search (parts, Part-case_head, Rounds-case_item) depth 25 fits 5000

  Eats-switch_stmt : (l : Loc) → Eats (suc k) (switch_stmt r l)
  unfolding switch_stmt
  Eats-switch_stmt l = search (parts, Part-condition, Eats-switch_case) depth 25 fits 5000

  Part-while_stmt : (l : Loc) → Part k (while_stmt r l)
  unfolding while_stmt
  Part-while_stmt l = search (parts, Part-condition, Eats-below) depth 25 fits 5000

  Part-second_name : (n : Node) → Part k (second_name n)
  unfolding second_name
  Part-second_name n = search (parts, to_part) depth 25 fits 5000

  Part-range_stmt : (n : Node) → Part k (range_stmt r n)
  unfolding range_stmt
  Part-range_stmt n =
      search (parts, Part-second_name, Eats-expr_here, Eats-below) depth 25 fits 5000

  Eats-variable_here : (semi : Bool) → Eats k (variable r semi)
  Eats-variable_here semi = Eats-le (omega arith) (Eats-variable semi)

  Part-for_start : (l : Loc) (n : Node) → Part k (for_start r l n)
  unfolding for_start
  Part-for_start l n = search (parts, Eats-variable_here, Eats-expr_here) depth 25 fits 5000

  Part-for_loop : (l : Loc) (n : Node) → Part k (for_loop r l n)
  unfolding for_loop
  Part-for_loop l n =
      search (straight, Part-for_start, Eats-expr_here, Eats-below) depth 40 fits 5000

  Part-for_stmt : (l : Loc) → Part k (for_stmt r l)
  unfolding for_stmt
  Part-for_stmt l = search (parts, Part-range_stmt, Part-for_loop) depth 25 fits 5000

  Part-bare_stmt : (t : NodeKind) (l : Loc) → Part k (bare_stmt t l)
  unfolding bare_stmt
  Part-bare_stmt t l = search (parts, to_part) depth 25 fits 5000

  Part-defer_stmt : (l : Loc) → Part k (defer_stmt r l)
  unfolding defer_stmt
  Part-defer_stmt l = search (parts, Eats-expr_here, Eats-below) depth 25 fits 5000

  Part-delete_stmt : (l : Loc) → Part k (delete_stmt r l)
  unfolding delete_stmt
  Part-delete_stmt l = search (parts, Eats-expr_here) depth 25 fits 5000

  Eats-expr_stmt : (l : Loc) → Eats (suc k) (expr_stmt r l)
  unfolding expr_stmt
  Eats-expr_stmt l = search (parts, Eats-expr) depth 25 fits 5000

  Eats-stmt_start : (l : Loc) → Eats (suc k) (stmt_start r l)
  unfolding stmt_start
  Eats-stmt_start l = search (parts, Eats-variable, Eats-expr_stmt) depth 25 fits 5000

  Eats-stmt_late : (l : Loc) → Eats (suc k) (stmt_late r l)
  unfolding stmt_late
  Eats-stmt_late l =
      search
        (
          parts, Eats-word_or, Part-while_stmt, Part-for_stmt, Part-bare_stmt, Part-defer_stmt,
          Part-delete_stmt, Eats-stmt_start,
        )
        depth 25 fits 5000

  Eats-switch_or : (l : Loc) → Eats (suc k) (switch_or r l)
  unfolding switch_or
  Eats-switch_or l = search (parts, Eats-switch_stmt, Eats-stmt_late) depth 25 fits 5000

  Eats-stmt_body : (l : Loc) → Eats (suc k) (stmt_body r l)
  unfolding stmt_body
  Eats-stmt_body l =
      search (parts, Eats-word_or, Part-block_stmt, Part-return_stmt, Part-if_stmt, Eats-switch_or)
        depth 25 fits 5000

  pub Eats-whole_stmt : Eats (suc k) (stmt r)
  unfolding stmt
  Eats-whole_stmt = search (parts, Eats-stmt_body) depth 25 fits 5000
