-- ===== src/Compiler/Semantic/Examples.antt =====
-- A body with an if whose branches both_branches return.
use tiny_cplus.Prelude.{◌≡◌, refl, ◌↔◌, true, false}
use tiny_cplus.Compiler.Loop.{Loc}
use tiny_cplus.Compiler.Types.{u32, i64, u64, char}
use tiny_cplus.Compiler.Parser.Tree.{return, block, if_, Node, absent, node, blank, leaf}
use tiny_cplus.Compiler.Semantic.{promote, numeric_common, judge, verdict, returns}
use tiny_cplus.Compiler.Semantic.Paths.{alone, Through, returns_lem}
use tiny_cplus.Compiler.Semantic.Conversions.{unsigned_32, signed_64, usual, numeric_common_lem}

abbrev here : Loc
here = record { line = 1; col = 1 }

abbrev leaves : Node
leaves = leaf (blank return here 1)

abbrev both_branches : Node
both_branches = node (blank if_ here 2) absent leaves absent leaves absent absent absent

abbrev body : Node
body = node (blank block here 3) absent absent absent both_branches absent absent absent

returns_lem_example : (returns body ≡ true) ↔ (Through alone body → ⊥)
returns_lem_example = returns_lem body

test_body : returns body ≡ true
unfolding returns verdict judge
test_body = refl

test_half :
    returns (node (blank if_ here 2) absent absent absent leaves absent absent absent) ≡ false
unfolding returns verdict judge
test_half = refl

numeric_common_lem_example : numeric_common u32 i64 ≡ usual u32 i64
numeric_common_lem_example = numeric_common_lem unsigned_32 signed_64

test_common : numeric_common u64 char ≡ u64
unfolding numeric_common promote
test_common = refl
