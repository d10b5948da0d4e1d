-- ===== src/Compiler/Parser/DeclarationRuns.antt =====
-- `declaration` comes to an end.
use tiny_cplus.Prelude.{ℕ, suc, Bool, arith}
use tiny_cplus.Compiler.Loop.{Loc}
use tiny_cplus.Compiler.Parser.Tree.{Node, NodeKind}
use tiny_cplus.Compiler.Parser.TypeName.{Below, parse_type}
use tiny_cplus.Compiler.Parser.Expr
use tiny_cplus.Compiler.Parser.Declaration.{default_value, parameter, parameter_list, parameters}
use tiny_cplus.Compiler.Parser.Class.{class_member, class_body, class_decl, getter, property_decl}
use tiny_cplus.Compiler.Parser.Program.{
  function_rest, constructor, destructor, field, method, method_or_destructor, function_decl,
  annotated, type_decl, declaration,
}
use tiny_cplus.Compiler.Parser.TypeRuns.{RunsBelow}
use tiny_cplus.Compiler.Parser.ExprRuns.{Eats-type, Eats-here}
use tiny_cplus.Compiler.Parser.ExprRuns
use tiny_cplus.Compiler.Parser.StmtRuns.{Eats-word_or}
use tiny_cplus.Compiler.Parser.Parts.{Part, Eats, Rounds, Eats-le, parts}
use tiny_cplus.Compiler.Parser.EnumRuns.{
  Harmless-named_cname, Part-change_type, Part-type_named, Part-enum_decl, Part-dotted_decl,
  Part-class_params, Part-generic_params, Part-class_type,
}

module _ {k : ℕ} (r : Below) (b : RunsBelow k r) where
  Eats-declared : (flags : ℕ) (owner : Node) → Eats k (r.declaration flags owner)
  Eats-declared flags owner = record { eats_runs = λ n. b.declaration_runs n flags owner }

  Eats-stmt : Eats k r.stmt
  Eats-stmt = ExprRuns.Eats-stmt r b

  Eats-expr : Eats k (Expr.expr r 1)
  Eats-expr = Eats-le (omega arith) (ExprRuns.Eats-whole r b 1)

  Eats-typed : Eats (suc k) (parse_type r)
  Eats-typed = ExprRuns.Eats-type r b

  Eats-typed_here : Eats k (parse_type r)
  Eats-typed_here = ExprRuns.Eats-here r b

  Part-default_value : (p : Node) → Part k (default_value r p)
  unfolding default_value
  Part-default_value p = search (parts, Eats-expr) depth 25 fits 5000

  Rounds-parameter : (p : Node × Bool) → Rounds k (parameter r p)
  unfolding parameter
  Rounds-parameter (n, more) =
      search (parts, Eats-typed_here, Part-default_value) depth 25 fits 5000

  Part-parameter_list : Part k (parameter_list r)
  unfolding parameter_list
  Part-parameter_list = search (parts, Rounds-parameter) depth 25 fits 5000

  Part-parameters : Part k (parameters r)
  unfolding parameters
  Part-parameters = search (parts, Part-parameter_list) depth 25 fits 5000

  Eats-class_member : (n : Node) → Eats k (class_member r n)
  unfolding class_member
  Eats-class_member n = search (parts, Eats-declared) depth 25 fits 5000

  Part-class_body : (n : Node) → Part k (class_body r n)
  unfolding class_body
  Part-class_body n = search (parts, Part-class_params, Eats-class_member) depth 25 fits 5000

  Part-class_decl : (x : NodeKind) (l : Loc) (flags : ℕ) → Part k (class_decl r x l flags)
  unfolding class_decl
  Part-class_decl x l flags =
      search
        (
          parts, Part-type_named, Part-change_type, Harmless-named_cname, Part-class_type,
          Part-class_body,
        )
        depth 25 fits 5000

  Part-getter : (n : Node) → Part k (getter r n)
  unfolding getter
  Part-getter n = search (parts, Eats-expr) depth 25 fits 5000

  Part-property_decl : (l : Loc) (owner : Node) → Part k (property_decl r l owner)
  unfolding property_decl
  Part-property_decl l owner = search (parts, Eats-typed_here, Part-getter) depth 25 fits 5000

  Eats-function_rest : (owner : Node) (n : Node) → Eats k (function_rest r owner n)
  unfolding function_rest
  Eats-function_rest owner n = search (parts, Part-parameters, Eats-stmt) depth 25 fits 5000

  Eats-constructor :
      (l : Loc) (flags : ℕ) (owner : Node) → Eats (suc k) (constructor r l flags owner)
  unfolding constructor
  Eats-constructor l flags owner = search (parts, Eats-function_rest) depth 25 fits 5000

  Part-destructor : (l : Loc) (flags : ℕ) (owner : Node) → Part k (destructor r l flags owner)
  unfolding destructor
  Part-destructor l flags owner = search (parts, Eats-function_rest) depth 25 fits 5000

  Part-field : (owner : Node) (n : Node) → Part k (field r owner n)
  unfolding field
  Part-field owner n = search (parts, Eats-expr) depth 25 fits 5000

  Eats-method : (l : Loc) (flags : ℕ) (owner : Node) → Eats (suc k) (method r l flags owner)
  unfolding method
  Eats-method l flags owner =
      search (parts, Eats-typed, Part-generic_params, Eats-function_rest, Part-field) depth 25 fits
        5000

  Eats-method_or_destructor :
      (l : Loc) (flags : ℕ) (owner : Node) → Eats (suc k) (method_or_destructor r l flags owner)
  unfolding method_or_destructor
  Eats-method_or_destructor l flags owner =
      search (parts, Eats-word_or, Part-destructor, Eats-method) depth 25 fits 5000

  Eats-function_decl :
      (l : Loc) (flags : ℕ) (owner : Node) → Eats (suc k) (function_decl r l flags owner)
  unfolding function_decl
  Eats-function_decl l flags owner =
      search (parts, Eats-constructor, Eats-method_or_destructor) depth 25 fits 5000

  Part-annotated : (l : Loc) (flags : ℕ) (owner : Node) → Part k (annotated r l flags owner)
  unfolding annotated
  Part-annotated l flags owner = search (parts, Eats-declared) depth 25 fits 5000

  Eats-type_decl : (l : Loc) (flags : ℕ) (owner : Node) → Eats (suc k) (type_decl r l flags owner)
  unfolding type_decl
  Eats-type_decl l flags owner =
      search
        (
          parts, Eats-word_or, Part-enum_decl, Part-dotted_decl, Part-class_decl,
          Part-property_decl, Eats-function_decl,
        )
        depth 25 fits 5000

  pub Eats-declaration : (flags : ℕ) (owner : Node) → Eats (suc k) (declaration r flags owner)
  unfolding declaration
  Eats-declaration flags owner =
      search (parts, Eats-word_or, Part-annotated, Eats-declared, Eats-type_decl) depth 25 fits 5000
