-- ===== src/Compiler/Parser/ExprRuns.antt =====
-- `primary` and `expr` come to an end.
use tiny_cplus.Prelude.{ℕ, suc, ◌≡◌, false, List, arith}
use tiny_cplus.Prelude.Text.{codes, same}
use tiny_cplus.Compiler.Loop.{Loc}
use tiny_cplus.Compiler.Lexer.{Token}
use tiny_cplus.Compiler.Types.Closed.{function_name, Below-le}
use tiny_cplus.Compiler.Types.Keeps.{Makes-type_generic}
use tiny_cplus.Compiler.Parser.Tree.{Node, NodeKind}
use tiny_cplus.Compiler.Parser.TypeName.{Below, parse_type}
use tiny_cplus.Compiler.Parser.Expr.{
  called, accessed, first_bound, second_bound, indexed, stepped, postfix_mark, postfix,
  primary_body, primary, operation, binary_round, expr_body, expr,
}
use tiny_cplus.Compiler.Parser.Primary.{
  add_expr, rest_of_tuple, paren, initializer, creation, size_of, cast_expr, prefix, tasked,
  short_lambda, generic_name, name_expr, atom, single, primary_word, primary_cast, primary_start,
}
use tiny_cplus.Compiler.Parser.Lambda.{
  label, argument, arguments, typed_param, untyped_param, lambda_param, lambda_params, lambda_body,
  lambda_expr,
}
use tiny_cplus.Compiler.Parser.TypeRuns.{RunsBelow, Runs-type_items, Runs-parse_type}
use tiny_cplus.Compiler.Parser.Steps.{Word, Runs-peek, Runs-expect, Runs-typed_result}
use tiny_cplus.Compiler.Parser.Runs.{Runs-bind, Runs-none, Runs-nested, Runs-pure}
use tiny_cplus.Compiler.Parser.Parts.{Part, Eats, Rounds, to_part, Eats-le, Runs-Any, parts}

module _ {k : ℕ} (r : Below) (b : RunsBelow k r) where
  pub Eats-type : Eats (suc k) (parse_type r)
  Eats-type = record { eats_runs = λ n. Runs-Any (Runs-parse_type r b n) }

  pub Eats-here : Eats k (parse_type r)
  Eats-here = Eats-le (omega arith) Eats-type

  pub Eats-expr : (p : ℕ) → Eats k (r.expr p)
  Eats-expr p = record { eats_runs = λ n. b.expr_runs n p }

  pub Eats-stmt : Eats k r.stmt
  Eats-stmt = record { eats_runs = b.stmt_runs }

  pub Part-label : Part k (label)
  unfolding label
  Part-label = search (parts, to_part) depth 25 fits 5000

  pub Eats-argument : (list : Node) → Eats k (argument r list)
  unfolding argument
  Eats-argument list = search (parts, Part-label, Eats-expr) depth 25 fits 5000

  pub Part-arguments : (w : List ℕ) → Word w → Part k (arguments r w)
  unfolding arguments
  Part-arguments w h = search (parts, h, Eats-argument) depth 25 fits 5000

  pub Eats-typed_param : (p : Node) → Eats k (typed_param r p)
  unfolding typed_param
  Eats-typed_param p = search (parts, Eats-here) depth 25 fits 5000

  pub Eats-untyped_param : (p : Node) → Eats k (untyped_param p)
  unfolding untyped_param
  Eats-untyped_param p = search (parts, to_part) depth 25 fits 5000

  pub Eats-lambda_param : (n : Node) → Eats k (lambda_param r n)
  unfolding lambda_param
  Eats-lambda_param n = search (parts, Eats-typed_param, Eats-untyped_param) depth 25 fits 5000

  pub Part-lambda_params : (n : Node) → Part k (lambda_params r n)
  unfolding lambda_params
  Part-lambda_params n = search (parts, Eats-lambda_param) depth 25 fits 5000

  pub Eats-lambda_body : (n : Node) → Eats k (lambda_body r n)
  unfolding lambda_body
  Eats-lambda_body n = search (parts, Eats-stmt, Eats-expr) depth 25 fits 5000

  pub Eats-add_expr : (n : Node) → Eats k (add_expr r n)
  unfolding add_expr
  Eats-add_expr n = search (parts, Eats-expr) depth 25 fits 5000

  pub Eats-lambda_expr : (l : Loc) → Eats (suc k) (lambda_expr r l)
  unfolding lambda_expr
  Eats-lambda_expr l = search (parts, Part-lambda_params, Eats-lambda_body) depth 25 fits 5000

  pub Part-rest_of_tuple : (l : Loc) (n : Node) → Part k (rest_of_tuple r l n)
  unfolding rest_of_tuple
  Part-rest_of_tuple l n = search (parts, Eats-add_expr) depth 25 fits 5000

  pub Part-paren : (l : Loc) → Part k (paren r l)
  unfolding paren
  Part-paren l = search (parts, Eats-expr, Part-rest_of_tuple) depth 25 fits 5000

  pub Part-initializer : (l : Loc) → Part k (initializer r l)
  unfolding initializer
  Part-initializer l = search (parts, Part-arguments) depth 25 fits 5000

  pub Part-creation : (l : Loc) → Part k (creation r l)
  unfolding creation
  Part-creation l = search (parts, Eats-here, Part-arguments) depth 25 fits 5000

  pub Part-size_of : (l : Loc) → Part k (size_of r l)
  unfolding size_of
  Part-size_of l = search (parts, Eats-here) depth 25 fits 5000

  pub Part-cast_expr : (l : Loc) → Part k (cast_expr r l)
  unfolding cast_expr
  Part-cast_expr l = search (parts, Eats-here, Eats-expr) depth 25 fits 5000

  pub Eats-prefix : (l : Loc) → Eats (suc k) (prefix r l)
  unfolding prefix
  Eats-prefix l = search (parts, Eats-expr) depth 25 fits 5000

  pub Part-tasked : (t : NodeKind) (l : Loc) → Part k (tasked r t l)
  unfolding tasked
  Part-tasked t l = search (parts, Eats-expr) depth 25 fits 5000

  pub Part-short_lambda : (t : Token) (n : Node) → Part k (short_lambda r t n)
  unfolding short_lambda
  Part-short_lambda t n = search (parts, Eats-lambda_body) depth 25 fits 5000

  pub Part-generic_name :
      (w : List ℕ) (n : Node) → same w function_name ≡ false → Part k (generic_name r w n)
  unfolding generic_name
  Part-generic_name w m e = record {
    part_runs = λ n. Runs-bind (Runs-none (Runs-expect (codes "<") tt)) (λ _ i more _.
        Runs-bind (Runs-none (Runs-type_items r b i (codes ">") tt)) (λ items j over h.
          Runs-bind
            (Runs-typed_result _
              (λ c s up. Makes-type_generic w items c s (Below-le j _ items up h) e))
            (λ t o under _. Runs-pure _ (omega arith) (λ _ _. tt))));
  }

  pub Part-name_expr : (t : Token) → same t.text function_name ≡ false → Part k (name_expr r t)
  unfolding name_expr
  Part-name_expr t h = search (parts, Part-short_lambda, Part-generic_name) depth 25 fits 5000

  pub Part-atom : (t : Token) → same t.text function_name ≡ false → Part k (atom r t)
  unfolding atom
  Part-atom t h = search (parts, Part-name_expr) depth 25 fits 5000

  pub Eats-single : (t : Token) → same t.text function_name ≡ false → Eats (suc k) (single r t)
  unfolding single
  Eats-single t h = search (parts, Part-atom) depth 25 fits 5000

  pub Eats-primary_word :
      (t : Token) → same t.text function_name ≡ false → Eats (suc k) (primary_word r t)
  unfolding primary_word
  Eats-primary_word t h = search (parts, Eats-prefix, Part-tasked, Eats-single) depth 25 fits 5000

  pub Eats-primary_cast :
      (t : Token) → same t.text function_name ≡ false → Eats (suc k) (primary_cast r t)
  unfolding primary_cast
  Eats-primary_cast t h =
      search (parts, Part-creation, Part-size_of, Part-cast_expr, Eats-primary_word) depth 25 fits
        5000

  pub Eats-primary_start :
      (t : Token) → same t.text function_name ≡ false → Eats (suc k) (primary_start r t)
  unfolding primary_start
  Eats-primary_start t h =
      search (parts, Eats-lambda_expr, Part-paren, Part-initializer, Eats-primary_cast) depth 25
        fits 5000

  pub Part-called : (l : Loc) (n : Node) → Part k (called r l n)
  unfolding called
  Part-called l n = search (parts, Part-arguments) depth 25 fits 5000

  pub Part-accessed : (n : Node) → Part k (accessed n)
  unfolding accessed
  Part-accessed n = search (parts, to_part) depth 25 fits 5000

  pub Part-first_bound : (n : Node) → Part k (first_bound r n)
  unfolding first_bound
  Part-first_bound n = search (parts, Eats-expr) depth 25 fits 5000

  pub Part-second_bound : (n : Node) → Part k (second_bound r n)
  unfolding second_bound
  Part-second_bound n = search (parts, Eats-expr) depth 25 fits 5000

  pub Part-indexed : (n : Node) → Part k (indexed r n)
  unfolding indexed
  Part-indexed n = search (parts, Part-first_bound, Part-second_bound) depth 25 fits 5000

  pub Rounds-stepped : (n : Node) → Rounds k (stepped n)
  unfolding stepped
  Rounds-stepped n = search (parts, to_part) depth 25 fits 5000

  pub Rounds-postfix_mark : (n : Node) → Rounds k (postfix_mark r n)
  unfolding postfix_mark
  Rounds-postfix_mark n = search (parts, Part-indexed, Rounds-stepped) depth 25 fits 5000

  pub Rounds-postfix : (l : Loc) (n : Node) → Rounds k (postfix r l n)
  unfolding postfix
  Rounds-postfix l n =
      search (parts, Part-called, Part-accessed, Rounds-postfix_mark) depth 25 fits 5000

  pub Eats-primary_body :
      (t : Token) → same t.text function_name ≡ false → Eats (suc k) (primary_body r t)
  unfolding primary_body
  Eats-primary_body t h = search (parts, Eats-primary_start, Rounds-postfix) depth 25 fits 5000

  pub Eats-primary : Eats (suc k) (primary r)
  unfolding primary
  Eats-primary = record {
    eats_runs =
        λ n. Runs-bind Runs-peek (λ t j more h. Runs-nested ((Eats-primary_body t h).eats_runs j));
  }

  pub Rounds-operation : (p : ℕ) (n : Node) → Rounds k (operation r p n)
  unfolding operation
  Rounds-operation p n = search (parts, Eats-expr) depth 25 fits 5000

  pub Rounds-binary_round : (p : ℕ) (n : Node) → Rounds k (binary_round r p n)
  unfolding binary_round
  Rounds-binary_round p n = search (parts, Rounds-operation) depth 25 fits 5000

  pub Eats-expr_body : (p : ℕ) → Eats (suc k) (expr_body r p)
  unfolding expr_body
  Eats-expr_body p = search (parts, Eats-primary, Rounds-binary_round) depth 25 fits 5000

  pub Eats-whole : (p : ℕ) → Eats (suc k) (expr r p)
  unfolding expr
  Eats-whole p = search (parts, Eats-expr_body) depth 25 fits 5000
