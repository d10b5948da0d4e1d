-- ===== src/Compiler/Semantic.antt =====
-- compiler/semantic.c: the common type of two numbers, and which statements return on every path.
pub mod Paths
pub mod Conversions
pub mod Examples
use tiny_cplus.Prelude.{
  ℕ, ◌+◌, ◌/◌, ◌%◌, Bool, true, false, ◌&&◌, ◌||◌, ltb, leb, ◌==◌, if◌then◌else◌,
}
use tiny_cplus.Compiler.Types.{TypeKind, i8, u16, i32, bool, char, enum, float, double, index, is}
use tiny_cplus.Compiler.Parser.Tree.{NodeKind, return, block, if_, switch, Info, Node, absent, node}

-- `promote`
unfoldable pub promote : TypeKind → TypeKind
promote kind =
    if is kind enum
      || is kind bool
      || is kind char
      || (leb (index i8) (index kind) && leb (index kind) (index u16))
    then i32
    else kind

-- `numeric_common`
unfoldable pub numeric_common : TypeKind → TypeKind → TypeKind
numeric_common a b =
    let p = promote a in
    let q = promote b in
    if is p double || is q double
    then double
    else if is p float || is q float
    then float
    else if ltb (index q) (index p)
    then p
    else q

-- `n->flags & NF_RETURNS`
abbrev pub exhaustive : Info → Bool
exhaustive i = i.flags / 1024 % 2 == 1

-- What `returns` says of a node, whether it says so of the node or one behind it, which is the loop
-- for a block, and whether of the bodies of the node and those behind it, the loop for a switch
pub record Verdict : Type 0 where
  pub alone : Bool
  pub some_of : Bool
  pub all_bodies : Bool

-- The body of `returns` on a node of this kind, from the verdicts on its body and on b
unfoldable pub judge : NodeKind → Info → Verdict → Verdict → Bool
judge return i body b = true
judge block i body b = body.some_of
judge if_ i body b = body.alone && b.alone
judge switch i body b = exhaustive i && body.all_bodies
judge _ i body b = false

unfoldable pub verdict : Node → Verdict
verdict absent = record { alone = false; some_of = false; all_bodies = true }
verdict (node i a b c body params args next) = record {
  alone = judge i.kind i (verdict body) (verdict b);
  some_of = judge i.kind i (verdict body) (verdict b) || (verdict next).some_of;
  all_bodies = (verdict body).alone && (verdict next).all_bodies;
}

-- `returns`
unfoldable pub returns : Node → Bool
returns n = (verdict n).alone
