-- ===== src/Compiler/Parser/EnumRuns.antt =====
-- The parts of `declaration` that do not go down, the enums among them, come to an end.
use tiny_cplus.Prelude.{ℕ, refl, Bool, List, Option, if_cases, arith}
use tiny_cplus.Prelude.Int.{ℤ}
use tiny_cplus.Compiler.Loop.{Loc}
use tiny_cplus.Compiler.Types.{CType, enum}
use tiny_cplus.Compiler.Types.Create.{is_generic, type_named}
use tiny_cplus.Compiler.Types.Closed.{Refers}
use tiny_cplus.Compiler.Types.Change.{Harmless, length-update, IsSound-update}
use tiny_cplus.Compiler.Types.Keeps.{is_generic-kind, Makes-type_named}
use tiny_cplus.Compiler.Parser.{typed}
use tiny_cplus.Compiler.Parser.Tree.{Node, NodeKind}
use tiny_cplus.Compiler.Parser.TypeName.{dotted_name}
use tiny_cplus.Compiler.Parser.Declaration.{
  change_type, named_cname, enum_literal, enum_number, EnumState, enum_end, enum_value, enum_round,
  enum_body, enum_decl, is_extern,
}
use tiny_cplus.Compiler.Parser.Class.{
  dotted_decl, type_param, class_param, class_params, class_type,
}
use tiny_cplus.Compiler.Parser.Program.{generic_param, generic_params}
use tiny_cplus.Compiler.Parser.Steps.{Runs-typed}
use tiny_cplus.Compiler.Parser.TypeRuns.{Runs-dotted_name}
use tiny_cplus.Compiler.Parser.Parts.{Part, Eats, Rounds, to_part, Runs-Any, parts}

pub Harmless-named_cname : (flags : ℕ) (w : List ℕ) → Harmless (named_cname flags w)
unfolding is_generic
Harmless-named_cname flags w n t r =
    if_cases (Refers n) (is_extern flags)
      (λ _. record {
        base_below = r.base_below;
        items_below = r.items_below;
        not_function = r.not_function;
      })
      (λ _. r)

pub Harmless-decl : (d : Option ℕ) → Harmless (λ u. record u { decl = d })
unfolding is_generic
Harmless-decl d n t r = record {
  base_below = r.base_below;
  items_below = r.items_below;
  not_function = r.not_function;
}

Harmless-enum :
    (flags : ℕ) (w : List ℕ) (d : Option ℕ)
    → Harmless (λ u. named_cname flags w (record u { kind = enum; decl = d }))
Harmless-enum flags w d n t r = Harmless-named_cname flags w n _ (record {
  base_below = r.base_below;
  items_below = r.items_below;
  not_function = is_generic-kind _ refl;
})

module _ {k : ℕ} where
  pub Part-change_type : (t : ℕ) (f : CType → CType) → Harmless f → Part k (change_type t f)
  unfolding change_type
  Part-change_type t f h = record {
    part_runs = λ n. record {
      run = λ s i less more. record {
        sound = record { tokens = i.tokens; table = IsSound-update s.table t f h i.table };
        same_depth = refl;
        grows = omega (arith, length-update s.table.types t f);
        eaten = omega arith;
        value = tt;
      };
    };
  }

  pub Part-type_named : (w : List ℕ) → Part k (typed (type_named w))
  Part-type_named w = record {
    part_runs = λ n. Runs-Any (Runs-typed _ (λ c s more. Makes-type_named w c s));
  }

  pub Eats-dotted_name : Eats k dotted_name
  Eats-dotted_name = record { eats_runs = λ n. Runs-Any (Runs-dotted_name n) }

  pub Part-enum_literal : (negative : Bool) → Part k (enum_literal negative)
  unfolding enum_literal
  Part-enum_literal negative = search (parts, to_part) depth 25 fits 5000

  pub Part-enum_number : (next : ℤ) → Part k (enum_number next)
  unfolding enum_number
  Part-enum_number next = search (parts, Part-enum_literal) depth 25 fits 5000

  pub Part-enum_end : (n : Node) (next : ℤ) → Part k (enum_end n next)
  unfolding enum_end
  Part-enum_end n next = search (parts, to_part) depth 25 fits 5000

  pub Eats-enum_value : (flags t : ℕ) (e : EnumState) → Eats k (enum_value flags t e)
  unfolding enum_value
  Eats-enum_value flags t e = search (parts, Part-enum_number, Part-enum_end) depth 25 fits 5000

  pub Rounds-enum_round : (flags t : ℕ) (e : EnumState) → Rounds k (enum_round flags t e)
  unfolding enum_round
  Rounds-enum_round flags t e = search (parts, Eats-enum_value) depth 25 fits 5000

  pub Part-enum_body : (flags t : ℕ) (n : Node) → Part k (enum_body flags t n)
  unfolding enum_body
  Part-enum_body flags t n = search (parts, Rounds-enum_round) depth 25 fits 5000

  pub Part-enum_decl : (l : Loc) (flags : ℕ) → Part k (enum_decl l flags)
  unfolding enum_decl
  Part-enum_decl l flags =
      search (parts, Part-type_named, Part-enum_body, Part-change_type, Harmless-enum) depth 25 fits
        5000

  pub Part-dotted_decl : (t : NodeKind) (l : Loc) → Part k (dotted_decl t l)
  unfolding dotted_decl
  Part-dotted_decl t l = search (parts, Eats-dotted_name) depth 25 fits 5000

  pub Eats-type_param : Eats k (type_param)
  unfolding type_param
  Eats-type_param = search (parts, Part-type_named) depth 25 fits 5000

  pub Eats-class_param : (n : Node) → Eats k (class_param n)
  unfolding class_param
  Eats-class_param n = search (parts, Eats-type_param) depth 25 fits 5000

  pub Part-class_params : (n : Node) → Part k (class_params n)
  unfolding class_params
  Part-class_params n = search (parts, Eats-class_param) depth 25 fits 5000

  pub Eats-generic_param : (n : Node) → Eats k (generic_param n)
  unfolding generic_param
  Eats-generic_param n = search (parts, Eats-type_param) depth 25 fits 5000

  pub Part-generic_params : (n : Node) → Part k (generic_params n)
  unfolding generic_params
  Part-generic_params n = search (parts, Eats-generic_param) depth 25 fits 5000

  pub Part-class_type :
      (x : NodeKind) (l : Loc) (w : List ℕ) (t : ℕ) (d : Option ℕ) → Part k (class_type x l w t d)
  unfolding class_type
  Part-class_type x l w t d = search (parts, Part-change_type, Harmless-decl) depth 25 fits 5000
